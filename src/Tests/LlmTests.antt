-- ===== src/Tests/LlmTests.antt =====
-- Runs of the handler of the language model: handlers/llm/llm_handler.go.
use interact_kit_sdk.Conversation.{to_next}
use interact_kit_sdk.Llm.Alive.{handled, context_keeps_alive}
use interact_kit_sdk.Llm.Completed.{response_told_whole}
use interact_kit_sdk.Llm.Texts.{chunk_texts, completed_texts}
use interact_kit_sdk.Prelude.Dict.{lookup}
use interact_kit_sdk.Llm.Overtaken.{drops_fillers, overtaken_answer_ignored}
use interact_kit_sdk.Llm.Tokens.{request_of}
use interact_kit_sdk.Conversation.User.{
  stop_with, stop_false_positive_timer, confirms, user_on_interim, user_dispatch, user_run,
  user_packet, user_step, UserAggregator,
}
use interact_kit_sdk.Prelude.{
  String, ◌≡◌, refl, true, false, ◌||◌, none, some, List, [], ◌∷◌, ◌++◌, arith, is_some,
}
use interact_kit_sdk.Text.{
  trim_right, trim_left, trim_space, is_space, fields_from, fields, Text, codes,
}
use interact_kit_sdk.Events.{
  new_event_packet, stt_interim_output, llm_generate_response, llm_prepare_interim_filler,
  next_service, user, Packet, Event, LlmContext,
}
use interact_kit_sdk.Llm.Filler.{
  request_failed, store_result, get_consumed_filler, new_filler_state, reset_utterance,
  request_filler, hear_utterance, on_interim, is_active, poll_filler, FillerState, FillerRequest,
}
use interact_kit_sdk.Llm.Handler.{
  sends_next, handle_interim_transcript, llm_dispatch, llm_handle_event, LlmHandler,
  new_llm_handler,
}
use interact_kit_sdk.Llm.Answers.{
  bool_value, bool_field, text_field, text_value, Json, parse_filler_response,
}
use interact_kit_sdk.Llm.Loop.{
  on_end, on_start, on_message, start_completion, on_poll, takes_end, on_filler_answer, polls,
  takes_message, takes_start, llm_step_alive, answers_filler, handles, LlmInput, llm_run, llm_step,
}

abbrev brings : Event → Packet
brings e = record { event = e; destination = next_service; relayer = "LLMContextManager" }

abbrev talk : LlmContext
talk = record { messages = record { role = user; message = codes "hi" } ∷ []; tools = [] }

abbrev hears : Text → LlmInput
hears t = handles (brings (llm_prepare_interim_filler t (some talk)))

abbrev first : LlmInput
first = hears (codes "I would like to know")

abbrev second : LlmInput
second = hears (codes "I would like to know when you open")

abbrev hmm : List (String × Json)
hmm = ("filler", text_value (codes "Let me see...")) ∷ ("skip", bool_value false) ∷ []

abbrev fresh : LlmHandler
fresh = record {
  filler = record {
    enabled = true;
    listening = false;
    current_utterance_id = 0;
    filler_utterance_id = 0;
    filler_requested = false;
    filler_ready = false;
    filler_consumed = false;
    pending_filler = [];
    consumed_filler = [];
    active_request_token = 0;
    next_request_token = 0;
  };
  has_filler_service = false;
  discarding = false;
  full_text = [];
  waiting = [];
  panicked = false;
}

abbrev first_request : FillerRequest
first_request = record { text = codes "I would like to know"; utterance_id = 1; token = 1 }

asked_once : request_of (llm_step first fresh).1 ≡ some first_request
unfolding request_of llm_step llm_step_alive llm_handle_event llm_dispatch handle_interim_transcript
    on_interim hear_utterance request_filler reset_utterance fields fields_from is_space trim_space
    trim_left trim_right
asked_once = refl

asked_again :
    (is_some (request_of (llm_step second (llm_run [] (llm_step first fresh).0).0).1)
      || drops_fillers second)
    ≡ true
unfolding request_of llm_run llm_step llm_step_alive llm_handle_event llm_dispatch
    handle_interim_transcript on_interim hear_utterance request_filler reset_utterance fields
    fields_from is_space trim_space trim_left trim_right
asked_again = refl

alive_still : (llm_run [] (llm_step first fresh).0).0.panicked ≡ false
unfolding llm_run llm_step llm_step_alive llm_handle_event llm_dispatch handle_interim_transcript
    on_interim hear_utterance request_filler reset_utterance fields fields_from is_space trim_space
    trim_left trim_right
alive_still = refl

overtaken_example :
    let h =
      (llm_run (takes_start ∷ []) (llm_step second (llm_run [] (llm_step first fresh).0).0).0).0 in
    llm_step (answers_filler 1 1 (some hmm)) h ≡ (h, [])
overtaken_example =
    overtaken_answer_ignored first second [] (takes_start ∷ []) fresh first_request 1 (some hmm)
      (omega arith) asked_once alive_still asked_again

-- a filler is asked for, answered and spoken before the response
abbrev mid : List LlmInput
mid = answers_filler 1 1 (some hmm) ∷ polls 0 false ∷ []

abbrev streamed : List LlmInput
streamed = takes_message (codes "We open ") ∷ takes_message (codes "at nine.") ∷ []

told_alive : (llm_run (first ∷ []) (new_llm_handler true false)).0.panicked ≡ false
unfolding llm_run llm_step llm_step_alive llm_handle_event llm_dispatch handle_interim_transcript
    on_interim hear_utterance request_filler reset_utterance fields fields_from is_space trim_space
    trim_left trim_right new_llm_handler new_filler_state
told_alive = refl

told_unspoken : (llm_run (first ∷ []) (new_llm_handler true false)).0.filler.consumed_filler ≡ []
unfolding llm_run llm_step llm_step_alive llm_handle_event llm_dispatch handle_interim_transcript
    on_interim hear_utterance request_filler reset_utterance fields fields_from is_space trim_space
    trim_left trim_right new_llm_handler new_filler_state
told_unspoken = refl

told_whole_example :
    let h = (llm_run (first ∷ []) (new_llm_handler true false)).0 in
    let out =
      (llm_run
        (handles (brings (llm_generate_response talk))
          ∷ (mid ++ takes_start ∷ (streamed ++ takes_end ∷ [])))
        h).1 in
    completed_texts out ≡ chunk_texts out ∷ []
told_whole_example =
    response_told_whole true false (first ∷ []) mid streamed (brings (llm_generate_response talk))
      talk refl told_alive told_unspoken (refl, (refl, tt)) (refl, (refl, tt))

-- the whole text of that response
told_text :
    let h = (llm_run (first ∷ []) (new_llm_handler true false)).0 in
    completed_texts
      (llm_run
        (handles (brings (llm_generate_response talk))
          ∷ (mid ++ takes_start ∷ (streamed ++ takes_end ∷ [])))
        h).1
    ≡ codes "Let me see...We open at nine." ∷ []
unfolding llm_run llm_step llm_step_alive llm_handle_event llm_dispatch handle_interim_transcript
    on_interim hear_utterance request_filler reset_utterance fields fields_from is_space trim_space
    trim_left trim_right new_llm_handler new_filler_state completed_texts on_poll poll_filler
    start_completion on_message on_start on_end get_consumed_filler on_filler_answer store_result
    request_failed parse_filler_response text_field bool_field lookup is_active sends_next
    new_event_packet
told_text = refl

abbrev waits : FillerState
waits = record (fresh.filler) {
  listening = true;
  filler_requested = true;
  active_request_token = 4;
  next_request_token = 4;
  filler_utterance_id = 2;
  current_utterance_id = 2;
}

abbrev no_filler : List (String × Json)
no_filler = ("filler", text_value []) ∷ ("skip", bool_value true) ∷ []

no_filler_parsed : parse_filler_response no_filler ≡ some ([], true)
unfolding parse_filler_response text_field bool_field lookup trim_space trim_left trim_right
no_filler_parsed = refl

waits_active : is_active 4 2 waits ≡ true
unfolding is_active
waits_active = refl

abbrev listener : UserAggregator
listener = record {
  context = some talk;
  false_positive_timer = none;
  armed = false;
  sending = [];
  has_channel = true;
  regenerate = none;
}

abbrev interim : Packet
interim = brings (stt_interim_output (codes "what time is it"))

-- what the aggregator sends, with a late message in between
abbrev later : List LlmInput
later =
    handles (to_next (llm_prepare_interim_filler (codes "what time is it") (some talk)))
    ∷ takes_message (codes "late")
    ∷ handles interim
    ∷ []

same_packets : handled later ≡ (user_run (user_packet interim ∷ []) listener).1
unfolding handled user_run user_step user_dispatch user_on_interim confirms
    stop_false_positive_timer stop_with
same_packets = refl

keeps_alive_example : (llm_run later (new_llm_handler true false)).0.panicked ≡ false
keeps_alive_example =
    context_keeps_alive (user_packet interim ∷ []) later listener true false refl (refl, tt)
      same_packets
