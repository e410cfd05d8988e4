-- ===== src/Runtime/Backups.antt =====
-- How a handler uses up its backup services.
use interact_kit_sdk.Events.{top_service, critical_error, new_event_packet, Packet}
use interact_kit_sdk.Prelude.{
  ℕ, ◌≡◌, refl, Bool, true, false, none, some, List, [], ◌∷◌, arith, length, get_elem?, take, drop,
}
use interact_kit_sdk.Text.{Text}
use interact_kit_sdk.Runtime.Base.{
  switch_to, switch_to_backup_service, on_fatal_error, BaseHandler, fatal_run,
}

-- fatal errors after each of which a backup can be initialized
abbrev pub all_initialized : List Text → List (Text × Bool)
all_initialized [] = []
all_initialized (e ∷ es) = (e, true) ∷ all_initialized es

abbrev pub critical : Text → Packet
critical e = new_event_packet (critical_error e) top_service "BaseHandler"

fatal_run-stopped :
    (es : List (Text × Bool)) (h : BaseHandler) → h.watching ≡ false → fatal_run es h ≡ (h, [])
unfolding fatal_run on_fatal_error
fatal_run-stopped [] h s = refl
fatal_run-stopped ((e, ok) ∷ es) h s = ground (arith, fatal_run-stopped es h s)

-- the last of some services, the first of which is given
abbrev pub last_service : ℕ → List ℕ → ℕ
last_service s [] = s
last_service s (b ∷ bs) = last_service b bs

-- what is sent of fatal errors when there are so many backups
abbrev pub sent_after : List Text → ℕ → List Packet
sent_after es n = elim (get_elem? es n) [ none ↦ [] | some e ↦ critical e ∷ [] ]

-- a handler whose loop runs
abbrev watching_with : ℕ → List ℕ → Bool → Bool → BaseHandler
watching_with s bs next top = record {
  service = s;
  backup_services = bs;
  has_next = next;
  has_top = top;
  watching = true;
}

-- the state and the packets after some errors
record Spends (es : List Text) (s : ℕ) (bs : List ℕ) (r : BaseHandler × List Packet) : Type 0 where
  pub serving : r.0.service ≡ last_service s (take (length es) bs)
  pub left : r.0.backup_services ≡ drop (length es) bs
  pub sent : r.1 ≡ sent_after es (length bs)

fatal_run-Spends :
    (es : List Text) (s : ℕ) (bs : List ℕ) (next top : Bool)
    → Spends es s bs (fatal_run (all_initialized es) (watching_with s bs next top))
unfolding fatal_run on_fatal_error switch_to_backup_service switch_to
fatal_run-Spends [] s bs next top = record { serving = refl; left = refl; sent = refl }
fatal_run-Spends (e ∷ es) s [] next top =
    let h = record (watching_with s [] next top) { watching = false } in
    rw (fatal_run-stopped (all_initialized es) h refl)
      (record { serving = refl; left = refl; sent = unfold new_event_packet in refl })
fatal_run-Spends (e ∷ es) s (b ∷ bs) next top =
    let h = fatal_run-Spends es b bs next top in
    record { serving = h.serving; left = h.left; sent = h.sent }

-- Where the loop of fatal errors runs and each backup service can be initialized: after some fatal
-- errors the handler has the service that comes as many places later, at most the last, and keeps the
-- backups after it; and it has sent one critical error, that of the first error that found no backup
-- left, or nothing where none did.
pub fatal_run_uses_backups :
    (es : List Text) (h : BaseHandler)
    → h.watching ≡ true
    → let (h', out) = fatal_run (all_initialized es) h in
      (h'.service ≡ last_service h.service (take (length es) h.backup_services))
      × (h'.backup_services ≡ drop (length es) h.backup_services)
      × (out ≡ sent_after es (length h.backup_services))
fatal_run_uses_backups es h w =
    let a = fatal_run-Spends es h.service h.backup_services h.has_next h.has_top in
    rw w (a.serving, a.left, a.sent)
