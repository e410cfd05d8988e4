-- ===== src/Runtime/Base.antt =====
-- `BaseHandler` of core/handler.go: sending, and the change to a backup service. A service is the
-- number that tells it from the others. The loop of handler errors only logs.
use interact_kit_sdk.Prelude.{ℕ, Bool, true, false, not, ◌&&◌, List, [], ◌∷◌, ◌++◌, if◌then◌else◌}
use interact_kit_sdk.Text.{Text}
use interact_kit_sdk.Events.{
  critical_error, new_event_packet, Packet, next_service, top_service, unset,
}

-- `watching`: `fatalErrorHandlerLoop` has not returned
pub record BaseHandler : Type 0 where
  pub service : ℕ
  pub backup_services : List ℕ
  pub has_next : Bool
  pub has_top : Bool
  pub watching : Bool

-- where a packet goes
pub data Sent : Type 0 where
  to_next_handler to_top : Packet → Sent
  nowhere : Sent

-- `SendPacket`. `done` says that the context was done before; `taken` says that a receiver takes
-- the packet: before the context is done where the send waits, and at once where it does not.
unfoldable pub send_packet : Bool → Bool → Packet → BaseHandler → Sent
send_packet done taken q h = if done then nowhere else elim q.destination [
  | top_service ↦ if h.has_top && taken then to_top q else nowhere
  | next_service ↦ if h.has_next && taken then to_next_handler q else nowhere
  | unset ↦ if h.has_next && taken then to_next_handler q else nowhere
]

-- Has the next of the backup services, if there is one, been switched to and initialized?
unfoldable pub switch_to : Bool → List ℕ → BaseHandler → BaseHandler × Bool
switch_to init_ok [] h = (h, false)
switch_to init_ok (s ∷ rest) h =
    let switched = record h { service = s } in
    if init_ok then (record switched { backup_services = rest }, true) else (switched, false)

unfoldable pub switch_to_backup_service : Bool → BaseHandler → BaseHandler × Bool
unfolding switch_to
switch_to_backup_service init_ok h = switch_to init_ok h.backup_services h

-- one turn of `fatalErrorHandlerLoop`, for an error and the answer of `Initialize`
unfoldable pub on_fatal_error : Text → Bool → BaseHandler → BaseHandler × List Packet
unfolding switch_to_backup_service new_event_packet
on_fatal_error error init_ok h =
    let (h', switched) = switch_to_backup_service init_ok h in
    if not h.watching then (h, []) else if switched then (h', []) else (
      record h' { watching = false },
      new_event_packet (critical_error error) top_service "BaseHandler" ∷ [],
    )

unfoldable pub fatal_run : List (Text × Bool) → BaseHandler → BaseHandler × List Packet
fatal_run [] h = (h, [])
fatal_run ((error, init_ok) ∷ es) h =
    let (h', out) = on_fatal_error error init_ok h in
    let (h'', later) = fatal_run es h' in (h'', out ++ later)
