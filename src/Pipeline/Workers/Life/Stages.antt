-- ===== src/Pipeline/Workers/Life/Stages.antt =====
-- The stages of an utterance, and where the work on it may fail.
use voice_elf.Prelude.{ℕ, List}
use voice_elf.Prelude.Int.{ℤ}
use voice_elf.Prelude.Text.{Text, codes}

pub data Worker : Type 0 where
  recogniser translator speaker : Worker

-- `playing_stream rate channels samples` has what was heard so far.
pub data Stage : Type 0 where
  queued recognising : Stage
  recognised_text transcript_kept transcribed in_translation : Text → Text → Stage
  translation_kept translation_shown : Text → Text → Text → Stage
  translation_told translated preparing_speech speaking_text : Text → Stage
  starting : ℕ → ℕ → Stage
  playing_stream played audio_saved : ℕ → ℕ → List ℤ → Stage
  audio_told completed failed : Stage
  broken marked : Worker → Stage

-- Where the work of a worker may fail.
pub data MayFail : Worker → Stage → Type 0 where
  recognition : MayFail recogniser recognising
  broken_off : (p : Worker) → MayFail p (broken p)
  translation : (t l : Text) → MayFail translator (in_translation t l)
  preparation : (d : Text) → MayFail speaker (preparing_speech d)
  silence : (d : Text) → MayFail speaker (speaking_text d)
  playback : (rate channels : ℕ) (xs : List ℤ) → MayFail speaker (playing_stream rate channels xs)
  after_playback : (rate channels : ℕ) (xs : List ℤ) → MayFail speaker (played rate channels xs)
  after_saving : (rate channels : ℕ) (xs : List ℤ) → MayFail speaker (audio_saved rate channels xs)

abbrev pub failure_code : Worker → Text
failure_code recogniser = codes "recognition_failed"
failure_code translator = codes "translation_failed"
failure_code speaker = codes "tts_failed"
