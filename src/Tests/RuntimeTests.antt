-- ===== src/Tests/RuntimeTests.antt =====
-- Runs of the runner and of the base handler: core/runner.go, core/handler.go, and of the handlers at
-- the ends of the pipeline.
use interact_kit_sdk.Prelude.Dict.{insert, lookup}
use interact_kit_sdk.Runtime.External.{
  send_input, new_external_event_handler, without_client, client_comes, client_goes,
  register_input_event, broadcast, on_wire_event, ExternalEventHandler,
}
use interact_kit_sdk.Runtime.Backups.{critical, all_initialized}
use interact_kit_sdk.Runtime.Stt.{
  relays, fails, flushes, stt_packet, stt_dispatch, stt_handle_event, stt_step,
}
use interact_kit_sdk.Events.{
  vad_user_speech_ended, next_service, top_service, transport_text_input, unset, new_event_packet,
  end_call, Packet, vad_silence, Event,
}
use interact_kit_sdk.Runtime.Transport.{connect_once, process_audio}
use interact_kit_sdk.Runtime.Stops.{
  exhausted_backups_stop, runner_stops_once, top_outputs, finished, cleaned,
}
use interact_kit_sdk.Prelude.{
  ◌≡◌, refl, true, false, none, some, List, [], ◌∷◌, ◌==◌, if◌then◌else◌,
}
use interact_kit_sdk.Text.{Text, codes}
use interact_kit_sdk.Runtime.Base.{
  switch_to, nowhere, switch_to_backup_service, on_fatal_error, send_packet, fatal_run, BaseHandler,
}
use interact_kit_sdk.Runtime.Runner.{
  reset_runner, calls_stop, final_output, top_output, Runner, RunnerInput, runner_run,
}

abbrev runner : Runner
runner = record { handlers = 0 ∷ 1 ∷ 2 ∷ []; started = true }

abbrev packet : Event → Packet
packet e = record { event = e; destination = top_service; relayer = "LLMContextManager" }

-- the end of a call goes round, and two goroutines stop the runner
abbrev ends_call : List RunnerInput
ends_call =
    top_output (packet (end_call (codes "done")))
    ∷ final_output (packet (end_call (codes "done")))
    ∷ calls_stop
    ∷ []

stops_once_example :
    ((runner_run ends_call runner).0.started ≡ false)
    × (cleaned (runner_run ends_call runner).1 ≡ 0 ∷ 1 ∷ 2 ∷ [])
    × (finished (runner_run ends_call runner).1 ≡ 1)
stops_once_example = runner_stops_once ends_call runner refl

abbrev deepgram : BaseHandler
deepgram = record {
  service = 7;
  backup_services = 8 ∷ [];
  has_next = true;
  has_top = true;
  watching = true;
}

abbrev errors : List Text
errors = codes "timeout" ∷ codes "refused" ∷ []

exhausted_example :
    cleaned (runner_run (top_outputs (fatal_run (all_initialized errors) deepgram).1) runner).1
    ≡ 0 ∷ 1 ∷ 2 ∷ []
exhausted_example = exhausted_backups_stop errors deepgram runner refl refl

-- a backup that cannot be initialized is in use when the loop ends
failed_backup :
    fatal_run ((codes "timeout", false) ∷ []) deepgram
    ≡ (record deepgram { service = 8; watching = false }, critical (codes "timeout") ∷ [])
unfolding fatal_run on_fatal_error switch_to_backup_service switch_to new_event_packet
failed_backup = refl

unset_dropped :
    send_packet false false
      (record { event = vad_silence; destination = unset; relayer = "x" })
      deepgram
    ≡ nowhere
unfolding send_packet
unset_dropped = refl

flush_fails :
    stt_step (stt_packet (packet vad_user_speech_ended) (some (codes "closed")))
    ≡ flushes ∷ fails (codes "closed") ∷ relays (packet vad_user_speech_ended) ∷ []
unfolding stt_step stt_handle_event stt_dispatch
flush_fails = refl

text_only :
    process_audio (record { audio = none; video = none; text = codes "hi" })
    ≡ record {
      event = transport_text_input (codes "hi");
      destination = next_service;
      relayer = "TransportInputHandler";
    }
      ∷ []
unfolding process_audio new_event_packet
text_only = refl

connects_once : (connect_once true (connect_once true (record { connected = false })).0).1 ≡ true
unfolding connect_once
connects_once = refl

abbrev outside : ExternalEventHandler
outside =
    register_input_event "hang_up" (λ payload. some (end_call payload))
      (client_goes 4 (client_comes 5 (client_comes 4 new_external_event_handler)))

heard_outside : broadcast (codes "x") outside ≡ (5, codes "x") ∷ []
unfolding broadcast register_input_event client_goes client_comes without_client
heard_outside = refl

sent_in :
    on_wire_event "hang_up" (codes "bye") outside
    ≡ some (record {
      event = end_call (codes "bye");
      destination = top_service;
      relayer = "external-ws";
    })
unfolding on_wire_event register_input_event client_goes client_comes lookup insert send_input
    new_event_packet
sent_in = refl

unknown_event : on_wire_event "other" [] outside ≡ none
unfolding on_wire_event register_input_event client_goes client_comes lookup insert
unknown_event = refl

reset_fails :
    reset_runner (λ i. if i == 1 then some (codes "busy") else none) (0 ∷ 1 ∷ 2 ∷ [])
    ≡ some (codes "busy")
unfolding reset_runner
reset_fails = refl
