-- ===== src/Tests/SttServiceTests.antt =====
-- Runs of the speech recognition service, services/deepgram/stt/stt.go.
use interact_kit_sdk.Prelude.Int.{pos}
use interact_kit_sdk.Services.DeepgramStt.Races.{
  send-close-panics, failed_write-refuses, reconnections-keep_alives, last_of, reconnections,
}
use interact_kit_sdk.Services.DeepgramStt.Query.{
  int_to_string, default_config, set_options, Setting, build_query, values_at, SttConfig,
}
use interact_kit_sdk.Audio.Convert.{convert_audio_chunk, pcm, Codecs, AudioChunk}
use interact_kit_sdk.Text.{decimal_onto, decimal, codes, text_eq}
use interact_kit_sdk.Services.DeepgramStt.{
  spawns_error_handler, failed, new_service, not_connected, send_converted, handle_connection_error,
  send_transcription_audio, known, may_send, DeepgramStt, panics,
}
use interact_kit_sdk.Services.DeepgramStt.Session.{
  start_session, dialled, dialling, session_step, session_run, listening, reads, read_failed,
}
use interact_kit_sdk.Audio.Convert.{format_eq}
use interact_kit_sdk.Prelude.{ℕ, ◌+◌, ◌≡◌, refl, ◌≢◌, true, false, some, [], ◌∷◌, length}

abbrev config : SttConfig
config = record default_config {
  endpointing = Setting.number_of (pos 300);
  keywords = codes "yes" ∷ codes "no" ∷ [];
  extra = (codes "filler_words", codes "true") ∷ [];
}

endpointing_set : values_at (codes "endpointing") (build_query config []) ≡ codes "300" ∷ []
unfolding build_query set_options text_eq values_at decimal decimal_onto default_config
    int_to_string
endpointing_set = refl

abbrev codecs : Codecs
codecs = record {
  encode_ulaw = λ b. b;
  decode_ulaw = λ b. b;
  encode_alaw = λ b. b;
  decode_alaw = λ b. b;
  new_opus = λ ch sr. true;
  encode_opus = λ ch sr b. some b;
  decode_opus = λ ch sr b. some b;
  new_resampler = λ ch a b. true;
  output_len = λ ch a b. 0;
  process = λ ch a b c. some c;
}

-- audio that is in the format already
abbrev chunk : AudioChunk
chunk = record {
  samples = 1 ∷ 2 ∷ [];
  sample_rate = 16000;
  channels = 1;
  format = pcm;
  timestamp = 0;
}

-- a service with a session that listens to a connection
abbrev listener : DeepgramStt
listener =
    (session_step dialling (dialled 3) (start_session true true true (new_service (codes "k"))).0).0

panics_example :
    ((send_transcription_audio codecs true chunk listener).2 ≢ panics)
    × ((send_converted true
          (some (1 ∷ 2 ∷ []))
          (session_step (listening 3) (read_failed [] true) listener).0).2
        ≡ panics)
unfolding may_send convert_audio_chunk format_eq session_step start_session new_service
panics_example = send-close-panics codecs true chunk (1 ∷ 2 ∷ []) 3 [] true listener refl refl

keep_alives_example :
    let (last, out, phase) = session_run (reconnections (5 ∷ 6 ∷ [])) (listening 3) listener in
    (phase ≡ listening (last_of 3 (5 ∷ 6 ∷ [])))
    × (last.keep_alives ≡ 1 + length {A = ℕ} (5 ∷ 6 ∷ []))
unfolding session_step start_session new_service
keep_alives_example = reconnections-keep_alives 3 (5 ∷ 6 ∷ []) listener refl

refuses_example :
    let (failing, effects, result) = send_transcription_audio codecs false chunk listener in
    let (last, out, phase) =
      session_run (reads true true known ∷ []) (listening 3) (handle_connection_error failing) in
    (result ≡ failed)
    × (effects ≡ spawns_error_handler ∷ [])
    × (phase ≡ listening 3)
    × (last.conn ≡ some 3)
    × (send_transcription_audio codecs true chunk last ≡ (last, [], not_connected))
unfolding may_send convert_audio_chunk format_eq session_step start_session new_service
refuses_example =
    failed_write-refuses codecs true chunk chunk (1 ∷ 2 ∷ []) 3 (reads true true known ∷ [])
      listener refl refl refl refl (tt, tt)
