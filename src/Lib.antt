-- ===== src/Lib.antt =====
-- A verification library for InteractKit SDK, a pipeline of handlers for voice agents. A handler
-- takes event packets from its input, changes its state, and sends packets to the next handler or
-- to the top of the pipeline. The files follow the packages of the repository:
--
-- Prelude, Text: shared names, lists, maps as association lists, integers, and Go's strings as lists
--   of code points, with the functions of package strings that the handlers call.
-- Audio (utils/audio/audio.go, utils/audio/resample_cgo.go, core/media.go): Wav is the WAV container
--   (`PCMBytesToWavBytes`, `StripWAVHeaderIfPresent`), Channels the mono and stereo conversion, and
--   Convert is `ConvertAudioChunk`. The walk over subchunks runs on fuel, the length of the input:
--   each round drops 8 bytes or more. The codecs and the resampler are C libraries and a
--   third-party package, and are the parameter `Codecs`.
-- Events (events, core/event_packet.go, core/llm.go): the events, the packets, the conversation.
-- Activity (handlers/activity_control/activity_control_handler.go): the handler that holds audio
--   back while an interruption is only suspected. Its event loop is `run`, over the inputs that
--   can reach it: packets, its timer, the signal of that timer. Float seconds are the parameter
--   `Seconds`. Invariant is about its runs, Stale about a signal that arrives late.
-- Vad (handlers/vad/vad_handler.go): the handler that turns confidences of a voice detector into
--   starts and ends of speech. `Confidences` are its floats. Runs, Grace and Suspicion are about
--   what a run sends, the grace period, and suspected interruptions.
-- Conversation (handlers/context/context_handler.go): the two context aggregators. User is the one
--   that adds what the user said, with the timer that tells an interruption from a noise, and
--   Assistant the one that adds what the assistant said. The callback of the timer is a goroutine,
--   whose start and whose send are steps of their own. Regeneration is about the timer, Spoken,
--   Turn and Late about what a turn of the assistant leaves in the conversation. `has_channel` says
--   whether `Init`, which makes the channel of the timer, was called. The goroutine of a tool call
--   is an output of the handler: it runs `HandleToolCall`, which is in ToolCalls, with the context
--   manager (Manager), the prompt for human speech (HumanPrompt) and the phrases that read a value
--   back (Phrases, handlers/context/variable_phrases.go). The reply of a server is an input. Tools
--   is about the tools of a context, Results about the results of tool calls.
-- Speech (handlers/tts/tts_handler.go, handlers/tts/tts_normalizer.go): `HandleEvent` of the TTS
--   handler, as the calls that it makes of the service, and the normalisation of texts, whose
--   character classes are the parameter `kept`. Segments, Flushes and Newline are about where the
--   text goes, when the service is flushed, and line breaks. Simulation is the loop that says the
--   words of a text one at a tick (`simulationLoop`, `sendNextWord`), over the sends to its channels
--   and the cases of its `select`; Speaker is what it promises, a speaker with a list of words, and
--   Speaking, Delivery and Drain are about it. The loop that turns audio into packets is left out.
--   Conversation/Pipeline is about the assistant aggregator and the simulation: in the pipeline of
--   main.go the aggregator stands before the TTS handler, so it gets only what that handler sends to
--   the top.
-- Llm (handlers/llm/llm_handler.go, handlers/llm/constants.go): Filler is `fillerState`, Prompt the
--   prompt for fillers, Answers the decoding of what a service answers, Handler the handler and its
--   packets, and Loop the event loop; messages, tool calls and answers of the services are inputs in
--   any order, as the `select` may take them. `waitForFiller` is a sequence of looks at the filler,
--   so no time is modelled: a look says whether the deadline has passed. A panic ends the process.
--   Invariant, Tokens, Overtaken, Discarding, Texts, Relaying, Completed and Faults are about its
--   runs, Alive about them with the user aggregator before it.
-- Runtime: Base is `BaseHandler` (core/handler.go), Runner the runner of the pipeline
--   (core/runner.go), Stt and Transport the handlers that only join a service to it
--   (handlers/stt/stt_handler.go, handlers/transport/transport_handler.go). Services and handlers
--   are numbers there, and whether a service can be initialized, connected or flushed is an input.
--   External is the handler of external events (core/external_event_handler.go) without its server.
--   Backups is about the backup services, Stops about the end of a call. Goroutines that `go`
--   starts take their turn as inputs.
-- Mcp (handlers/context/mcp_schema.go, handlers/context/mcp_manager.go): the translation of the tools
--   and results of an MCP server, and in Manager its connections (core/mcp.go has their
--   configuration). Required is about the required parameters, Sessions about the sessions that
--   are opened and closed, Owned about the calls of tools. The client is third-party code: what it
--   answers is an input.
-- Task (handlers/context/task_group.go, handlers/context/dynamic_context_manager.go): task groups.
--   Config is the declaration and what is visible of it, Prompt the system message, Tools the tool
--   list, Manager the state and its operations, Load `LoadTaskGroup`, Steps the operations on a
--   loaded group as a step relation, and Effects what they leave alone. Loading and Handlers are
--   about a load, Branching, Values and Progress about branches and sequences, the collected values,
--   and the end. The engine of regular expressions is the parameter `Regexp`.
--
-- Services: the services that the handlers call. OpenAi (services/openai/llm/llm.go) builds
--   requests from the conversation; Stream gathers the calls of tools from the fragments of a
--   stream, over rounds of its loop, Client is the state with its streams and contexts, and
--   Completion the ways through `RunCompletion`. Fragments, Streamed and Gathered are about a
--   stream, Resets about the state, Requests about the requests. DeepgramTts, ElevenLabs and
--   Cartesia (tts.go of services/deepgram, services/elevenlabs and services/cartesia) are the
--   text-to-speech services: a record for the service, one function for each of its methods, and
--   in Reader the goroutine that reads the connection, whose rounds are functions of what a read
--   brings. The loop of `BufferText` of Deepgram runs on fuel, the length of the text: each round
--   sends some of it. A text is bytes, and Encoding is what the JSON encoder makes of them. Limit,
--   Bounded, Overflow and Delivers are about its messages, Reconnects and Shutdown about its
--   goroutines; Greeted, Ordered, Runs and Resets of ElevenLabs about its greeting and its reset,
--   Contexts, Rotation and Utterances of Cartesia about its contexts. Shared has what these three
--   have in common. DeepgramStt (services/deepgram/stt/stt.go) is the speech recognition: Query is
--   the query that it connects with, Session its session as rounds of phases, Declared and Races
--   are about the query and about calls against the session. Timers and deadlines are not
--   modelled; dials, writes, reads and decoded JSON are inputs.
--
-- A map is an association list, and a set of strings a list. A nil dereference is `none`. Logging
-- and random identifiers are left out. Every operation of the task manager holds its mutex, and so
-- is one step. Not modelled: the transports and the control plane, which are calls of clients of
-- third parties; the bindings of C libraries, with the voice detector over them; the normaliser of
-- utils/text, which is tables and regular expressions; the factories, which decode settings and
-- build the parts; the loggers and the programs.
pub mod Prelude
pub mod Text
pub mod Audio
pub mod Events
pub mod Activity
pub mod Vad
pub mod Conversation
pub mod Speech
pub mod Llm
pub mod Runtime
pub mod Mcp
pub mod Task
pub mod Services
mod Tests
