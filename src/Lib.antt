-- ===== src/Lib.antt =====
-- Verification of voice-elf, a server for live speech translation: a browser module finds speech
-- in the microphone's signal (crate web-vad), the client sends the frames of each segment over a
-- WebSocket, and the server checks them, filters them and hands complete utterances to the
-- workers that transcribe, translate and synthesise (crate server).
--
-- The development follows the audio from the microphone through that hand-over to the translated
-- speech, and the rooms in which it is heard.
--
--  Vad: web-vad/src/lib.rs. Vad/Gate.antt is SpeechGate (process is split into its two branches
--  process_idle and process_speaking). Vad/Features.antt is rms_level and zero_crossing_rate.
--  Vad/Detector.antt is BrowserAudioVad, with its data and its queues in Detector/State.antt and
--  the verdict on a frame in Detector/Judging.antt: push_frame is what push_resampled does with a
--  whole frame, judge is frame_is_speech_like by the results of its tests, bridge the bookkeeping
--  of classify_voiced, deliver and release the routing of route_frame. Vad/Resampler.antt is
--  AntiAliasFilter and StreamingResampler (filter_sample and process_samples are their process),
--  and Vad/Input.antt process_input. The neural network (crate lele and the generated code) is
--  the parameter Silero.
--  Audio: server/src/audio.rs (Voice.antt) and the byte codec of frames (Pcm.antt), which
--  server/src/pipeline/session.rs, server/src/room_hub.rs and audio.rs share.
--  Pipeline/Config.antt: normalize_config of server/src/pipeline/config.rs.
--  Pipeline/Latency.antt: LatencyObserver of server/src/pipeline/latency.rs.
--  Pipeline/Session: the message loop run_pipeline of server/src/pipeline/session.rs. Types has
--  the data (with server/src/protocol.rs), Handlers one function per message and finish_segment,
--  Loop the audio handler and the loop. A handler returns the next session and its effects in
--  order: events sent, configurations stored, samples given to the live recogniser, utterances
--  handed over.
--  Pipeline/Workers: the workers behind the hand-over (server/src/pipeline/jobs.rs,
--  transcription.rs, translation.rs, synthesis.rs and refinement.rs). Recognition, Translation,
--  Speech and Refinement have one round of each: transcription_round is a round of
--  run_transcription_worker, with transcribe as in the code; speak_job is synthesize of
--  synthesis.rs. A function returns what it did, in order, and a value or an error (Trace.antt is
--  that monad). Life.antt is the relation between the stages of an utterance, and Life/Whole.antt
--  puts the three workers behind one another, as PipelineWorkers::start does.
--  Language: server/src/language_policy.rs. replace_from is the loop of replace_matches.
--  Rooms: the mixer of server/src/room_hub.rs. Mix.antt is mix_frames, whose i32 sum wraps as in a
--  release build; Mixer.antt is run_room_mixer, which turns the speakers' frames into one
--  conversation with run_pipeline. Rooms/Hub.antt is RoomHub: a call returns the next hub and what
--  it sends to mixers and members.
--  Control: the runtime commands of server/src/control.rs, from the bus (publish, commands_after,
--  stream_after) to the listener, whose calls are those of the hub. publish is two steps,
--  begin_publish and finish_publish, since it takes a command's number before it takes the lock, so
--  that publications may overlap.
--  Tts: TtsChunkSink of server/src/backends/tts/mod.rs and FallbackTtsEngine of
--  server/src/backends/tts/fallback.rs. play is the sends of one engine, try_engines the loop of
--  synthesize; what an engine tries to send is a parameter.
--
-- How things correspond. Identifiers (uuid) are numbers; texts are lists of bytes, and the parser
-- of the crate uuid is a parameter. A sample is an integer; floating-point numbers are a
-- parameter with the operations that the code uses (Prelude/Float.antt), so nothing proved here
-- rests on rounding. Counters wrap or saturate at their width where the code's do. Warnings carry
-- what is formatted into their text. What the surroundings answer while a message is handled (the
-- database, the workers, the clock) is the argument Answers of each step, so every theorem about
-- the loop holds for all answers. Loops run over the list of their inputs, with two exceptions:
-- the loop of the resampler takes a number of rounds, and ends before that once the position has
-- passed the source, which each round brings nearer by the ratio; the loop of replace_matches
-- takes fuel, one more than the text has characters, since each round moves on by a character at
-- least. In Language and in the workers a text is the list of its characters. A closed output
-- channel is ignored by the code, and so here.
--
-- Not modelled: the sines and cosines of the filters' coefficients, the pointers of the C
-- interface, the start and the shutdown of run_pipeline (the first configuration is read from the
-- room), a closed receiver of the pipeline, which ends the mixer, the previews of a live
-- recognition and the limits of the workers' queues, what happens in a hub between a section
-- under its lock and the sends behind it, the status of subscribers and the snapshot for the
-- management side, storage, the HTTP interface, speech back ends and front ends.
pub mod Prelude
pub mod Vad
pub mod Pipeline
pub mod Audio
pub mod Rooms
pub mod Tts
pub mod Language
pub mod Control
