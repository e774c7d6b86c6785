-- ===== src/Pipeline/Workers/Speech.antt =====
-- server/src/pipeline/synthesis.rs: one job of the worker that speaks.
use voice_elf.Prelude.{
  ℕ, ◌/◌, ◌==◌, not, Bool, true, false, if◌then◌else◌, List, [], ◌∷◌, ◌++◌, length, Option, none,
  some,
}
use voice_elf.Prelude.Int.{ℤ}
use voice_elf.Prelude.Text.{Text, codes, text_eq, strip_prefix}
use voice_elf.Audio.Pcm.{pcm16_bytes}
use voice_elf.Pipeline.Latency.{Mark, mark_tts_complete, final_report}
use voice_elf.Pipeline.Session.Types.{synthesizing, playing}
use voice_elf.Language.{sanitize}
use voice_elf.Tts.{TtsRequest, TtsAudioChunk}
use voice_elf.Pipeline.Workers.Trace.{Result, ok, err, pure, fail, emit, guard, ◌>>=◌, ◌>>◌}
use voice_elf.Pipeline.Workers.Types.{
  Work, SynthesisJob, tts_stage, Cause, other, panicked, state, media, audio_start, audio_end,
  latency_report, processing_failed, get_voice_reference, complete_audio, Action, send, send_audio,
  store, save_translated, speak, MediaFile, WorkerContext,
}
use voice_elf.Pipeline.Workers.Recognition.{
  WorkM, call_store, or_panic, Left, handed, given_up, ended, tell_failure,
}
use voice_elf.Pipeline.Workers.Translation.{or_fail}

-- What `get_voice_reference` returns: an error, no reference of this user, or its path.
pub data VoiceReference : Type 0 where
  query_failed not_owned : VoiceReference
  owned : Text → VoiceReference

-- How the synthesiser's task ends: with success, with an error, or not at all, since it panics.
pub data TaskEnd : Type 0 where
  succeeded refused broken_off : TaskEnd

-- The voice reference, the chunks that arrive from the synthesiser and how its task ends, the stored
-- audio, the time, and whether its place is stored.
pub record SpeechAnswers : Type 0 where
  pub reference : VoiceReference
  pub chunks : List TtsAudioChunk
  pub task_end : TaskEnd
  pub saved : Option MediaFile
  pub spoken_at : Mark
  pub audio_stored : Bool
  pub failure_stored : Bool

abbrev pub reference_found : VoiceReference → Bool
reference_found query_failed = false
reference_found not_owned = true
reference_found (owned path) = true

abbrev pub reference_path : VoiceReference → WorkM (Option Text)
reference_path query_failed = fail other
reference_path not_owned = fail other
reference_path (owned path) = pure (some path)

abbrev pub look_up : WorkerContext → SpeechAnswers → ℕ → WorkM (Option Text)
look_up c a reference =
    if c.has_database
    then (emit (store (get_voice_reference reference) (reference_found a.reference)) >>= λ _.
        reference_path a.reference)
    else fail other

abbrev pub custom_voice : WorkerContext → Option Text → Option ℕ
custom_voice c none = none
custom_voice c (some rest) = c.parse_uuid rest

abbrev pub reference_of : WorkerContext → SpeechAnswers → Option ℕ → WorkM (Option Text)
reference_of c a none = pure none
reference_of c a (some reference) = look_up c a reference

-- What the loop over the chunks keeps.
pub record Stream : Type 0 where
  pub samples : List ℤ
  pub sample_rate : Option ℕ
  pub channels : Option ℕ
  pub engine : Option Text
  pub started : Bool

abbrev pub no_stream : Stream
no_stream = record {
  samples = [];
  sample_rate = none;
  channels = none;
  engine = none;
  started = false;
}

abbrev pub agrees : Option ℕ → ℕ → Bool
agrees none n = true
agrees (some expected) n = expected == n

abbrev pub same_engine : Option Text → Text → Bool
same_engine none name = true
same_engine (some expected) name = text_eq expected name

abbrev pub start_stream : ℕ → TtsAudioChunk → Bool → WorkM (Unit {0})
start_stream id chunk true = pure tt
start_stream id chunk false =
    emit (send (audio_start id chunk.engine chunk.audio.sample_rate chunk.audio.channels))
    >> emit (send (state playing id))

unfoldable pub receive_chunk : ℕ → Stream → TtsAudioChunk → WorkM Stream
receive_chunk id s chunk = do
  guard (agrees s.sample_rate chunk.audio.sample_rate) other
  guard (agrees s.channels chunk.audio.channels) other
  guard (same_engine s.engine chunk.engine) other
  start_stream id chunk s.started
  emit (send_audio (pcm16_bytes chunk.audio.samples))
  pure (record {
    samples = s.samples ++ chunk.audio.samples;
    sample_rate = some chunk.audio.sample_rate;
    channels = some chunk.audio.channels;
    engine = some chunk.engine;
    started = true;
  })

unfoldable pub receive_chunks : ℕ → Stream → List TtsAudioChunk → WorkM Stream
receive_chunks id s [] = pure s
receive_chunks id s (chunk ∷ chunks) =
    receive_chunk id s chunk >>= λ s'. receive_chunks id s' chunks

abbrev pub channel_count : Option ℕ → ℕ
channel_count none = 1
channel_count (some n) = n

-- A division by no channels panics.
abbrev pub end_stream : ℕ → Stream → Bool → WorkM (Unit {0})
end_stream id s false = pure tt
end_stream id s true =
    guard (not (channel_count s.channels == 0)) panicked
    >> emit (send (audio_end id (length s.samples / channel_count s.channels)))

-- The result of joining the task, and the result of the synthesis in it.
abbrev pub is_joined : TaskEnd → Bool
is_joined succeeded = true
is_joined refused = true
is_joined broken_off = false

abbrev pub is_success : TaskEnd → Bool
is_success succeeded = true
is_success refused = false
is_success broken_off = false

-- What follows the end of the stream.
unfoldable pub keep_audio : WorkerContext → SpeechAnswers → Work → Stream → WorkM (Unit {0})
keep_audio c a w s = do
  guard (is_success a.task_end) other
  guard (not (length s.samples == 0)) other
  sample_rate ← or_fail s.sample_rate
  channels ← or_fail s.channels
  emit (save_translated w.job.id s.samples sample_rate channels)
  saved ← or_fail a.saved
  latency ← or_panic (final_report (mark_tts_complete w.latency a.spoken_at) (length w.job.samples))
  call_store c (complete_audio w.job.id saved.path saved.url latency) a.audio_stored
  emit (send (media w.job.id none (some saved.url)))
  emit (send (latency_report w.job.id latency))

abbrev pub request_of : Work → Text → Option Text → TtsRequest
request_of w text reference = record {
  text = text;
  language = w.job.config.target_language;
  voice = w.job.config.voice;
  reference_audio_path = reference;
}

unfoldable pub speak_job : WorkerContext → SpeechAnswers → SynthesisJob → WorkM (Unit {0})
speak_job c a j = do
  emit (send (state synthesizing j.work.job.id))
  reference ←
      reference_of c a (custom_voice c (strip_prefix (codes "custom:") j.work.job.config.voice))
  emit (
      speak
        (request_of j.work (sanitize c.unicode_alphanumeric c.policy j.translated_text) reference))
  s ← receive_chunks j.work.job.id no_stream a.chunks
  guard (is_joined a.task_end) other
  end_stream j.work.job.id s s.started
  keep_audio c a j.work s

abbrev pub after_speak :
    WorkerContext
    → SpeechAnswers
    → ℕ
    → List Action × Result Cause (Unit {0})
    → List Action × Left (Unit {0})
after_speak c a id (bs, ok _) = (bs, handed tt)
after_speak c a id (bs, err panicked) = (bs, ended)
after_speak c a id (bs, err _) = (
  bs ++ tell_failure c id (codes "tts_failed") a.failure_stored (processing_failed id tts_stage),
  given_up,
)

-- One round of `run_synthesis_worker`.
unfoldable pub synthesis_round :
    WorkerContext → SpeechAnswers → SynthesisJob → List Action × Left (Unit {0})
synthesis_round c a j = after_speak c a j.work.job.id (speak_job c a j)
