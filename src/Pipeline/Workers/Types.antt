-- ===== src/Pipeline/Workers/Types.antt =====
-- The jobs that the workers pass on, the events that they send (of `ServerEvent` in
-- server/src/protocol.rs), and their calls.
use voice_elf.Prelude.{ℕ, Bool, List, Option}
use voice_elf.Prelude.Int.{ℤ}
use voice_elf.Prelude.Text.{Text}
use voice_elf.Pipeline.Latency.{LatencyObserver, LatencyReport}
use voice_elf.Pipeline.Session.Types.{SpeakerIdentity, Phase, UtteranceJob}
use voice_elf.Tts.{TtsRequest}
use voice_elf.Language.{TranslationTerm, LanguagePolicy}

-- The times are the bits of an f64: they are only passed on.
pub record TranscriptionSegment : Type 0 where
  pub start_at : ℕ
  pub end_at : ℕ
  pub speaker : Option Text
  pub text : Text

pub record Transcription : Type 0 where
  pub text : Text
  pub language : Text
  pub segments : List TranscriptionSegment

-- `UtteranceJob` with its observer, and whether it has a live recognition.
pub record Work : Type 0 where
  pub job : UtteranceJob
  pub latency : LatencyObserver
  pub has_live : Bool

pub record TranslationJob : Type 0 where
  pub work : Work
  pub transcription : Transcription

pub record SynthesisJob : Type 0 where
  pub work : Work
  pub translated_text : Text

pub record RefinementJob : Type 0 where
  pub utterance_id : ℕ
  pub audio : List ℤ
  pub source_language : Text

pub data ProcessingStage : Type 0 where
  translation_stage tts_stage : ProcessingStage

pub data RefinementStatus : Type 0 where
  processing completed failed : RefinementStatus

-- Why a worker's function ended early: `NoSpeechDetected`, any other error, or a panic, which ends
-- the worker itself.
pub data Cause : Type 0 where
  no_speech other panicked : Cause

pub data WorkerEvent : Type 0 where
  state : Phase → ℕ → WorkerEvent
  transcript_delta : ℕ → Text → Text → Text → Bool → WorkerEvent
  transcript : ℕ → Text → Text → WorkerEvent
  transcript_refinement :
      ℕ
      → Text
      → RefinementStatus
      → Option Text
      → Option Text
      → List TranscriptionSegment
      → WorkerEvent
  translation_delta : ℕ → Text → Text → Bool → WorkerEvent
  translation : ℕ → Text → Text → Text → Text → WorkerEvent
  media : ℕ → Option Text → Option Text → WorkerEvent
  audio_start : ℕ → Text → ℕ → ℕ → WorkerEvent
  audio_end : ℕ → ℕ → WorkerEvent
  latency_report : ℕ → LatencyReport → WorkerEvent
  recognition_failed : ℕ → Bool → WorkerEvent  -- whether no speech was found
  processing_failed : ℕ → ProcessingStage → WorkerEvent

-- The calls of the database, without the session, user and room that all of a session's have; `mark_failed` has the code of the failure.
pub data StoreCall : Type 0 where
  create_attempt : ℕ → Option Text → Option Text → LatencyReport → List SpeakerIdentity → StoreCall
  save_transcript : ℕ → Text → Text → LatencyReport → StoreCall
  save_translation : ℕ → Text → Text → LatencyReport → StoreCall
  get_voice_reference : ℕ → StoreCall
  complete_audio : ℕ → Text → Text → LatencyReport → StoreCall
  mark_failed : ℕ → Text → StoreCall
  start_refinement : ℕ → Text → StoreCall
  save_refinement : ℕ → Text → Text → Text → List TranscriptionSegment → StoreCall
  fail_refinement : ℕ → Text → StoreCall

-- What a worker does. A call of the database has with it whether it succeeded.
pub data Action : Type 0 where
  send : WorkerEvent → Action
  send_audio : List ℕ → Action
  store : StoreCall → Bool → Action
  save_source : ℕ → List ℤ → Action
  save_translated : ℕ → List ℤ → ℕ → ℕ → Action
  finish_live : ℕ → Action
  recognise : List ℤ → Text → Action
  translate_text : Text → Text → Text → List TranslationTerm → Action
  speak : TtsRequest → Action
  refine : RefinementJob → Action

-- What the workers of a session share: whether it has a database, the room's language policy, what
-- `char::is_alphanumeric` says beyond ASCII, whether there are engines for refinement, and
-- `Uuid::parse_str`.
pub record WorkerContext : Type 0 where
  pub has_database : Bool
  pub policy : LanguagePolicy
  pub unicode_alphanumeric : ℕ → Bool
  pub refines : Bool
  pub parse_uuid : Text → Option ℕ

-- A stored file.
pub record MediaFile : Type 0 where
  pub path : Text
  pub url : Text
