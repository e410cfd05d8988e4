-- ===== src/Llm/Texts.antt =====
-- The texts of responses among what the handler does.
use interact_kit_sdk.Events.{llm_response_completed, llm_response_chunk, Event}
use interact_kit_sdk.Prelude.{◌≡◌, refl, sym, ap, ◌∙◌, List, [], ◌∷◌, ◌++◌, append_assoc}
use interact_kit_sdk.Text.{Text}
use interact_kit_sdk.Llm.Handler.{
  resets_service, asks_bridge, asks_filler, runs_completion, sends, LlmEffect,
}

-- the text of a response that an event carries, and the text of the end of one
abbrev pub chunk_of : Event → Text
chunk_of (llm_response_chunk t b) = t
chunk_of _ = []

abbrev pub completed_of : Event → List Text
completed_of (llm_response_completed t) = t ∷ []
completed_of _ = []

-- the texts of responses that are sent, joined
unfoldable pub chunk_texts : List LlmEffect → Text
chunk_texts [] = []
chunk_texts (sends q ∷ out) = chunk_of q.event ++ chunk_texts out
chunk_texts (_ ∷ out) = chunk_texts out

-- the texts of the ends of responses that are sent
unfoldable pub completed_texts : List LlmEffect → List Text
completed_texts [] = []
completed_texts (sends q ∷ out) = completed_of q.event ++ completed_texts out
completed_texts (_ ∷ out) = completed_texts out

pub chunk_texts-append :
    (xs ys : List LlmEffect) → chunk_texts (xs ++ ys) ≡ chunk_texts xs ++ chunk_texts ys
unfolding chunk_texts
chunk_texts-append [] ys = refl
chunk_texts-append (sends q ∷ xs) ys =
    ap (λ x. chunk_of q.event ++ x) (chunk_texts-append xs ys)
    ∙ sym (append_assoc (chunk_of q.event) (chunk_texts xs) (chunk_texts ys))
chunk_texts-append (resets_service ∷ xs) ys = chunk_texts-append xs ys
chunk_texts-append (runs_completion c ∷ xs) ys = chunk_texts-append xs ys
chunk_texts-append (asks_filler b c r ∷ xs) ys = chunk_texts-append xs ys
chunk_texts-append (asks_bridge b s t ∷ xs) ys = chunk_texts-append xs ys

pub completed_texts-append :
    (xs ys : List LlmEffect) → completed_texts (xs ++ ys) ≡ completed_texts xs ++ completed_texts ys
unfolding completed_texts
completed_texts-append [] ys = refl
completed_texts-append (sends q ∷ xs) ys =
    ap (λ x. completed_of q.event ++ x) (completed_texts-append xs ys)
    ∙ sym (append_assoc (completed_of q.event) (completed_texts xs) (completed_texts ys))
completed_texts-append (resets_service ∷ xs) ys = completed_texts-append xs ys
completed_texts-append (runs_completion c ∷ xs) ys = completed_texts-append xs ys
completed_texts-append (asks_filler b c r ∷ xs) ys = completed_texts-append xs ys
completed_texts-append (asks_bridge b s t ∷ xs) ys = completed_texts-append xs ys
