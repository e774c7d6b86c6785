-- ===== src/Pipeline/Session/Types.antt =====
-- The data of server/src/pipeline/session.rs and of the events of server/src/protocol.rs that it
-- handles, the checks of metadata, and the warnings' and events' contents.
use voice_elf.Prelude.{
  ℕ, ◌+◌, ◌*◌, Bool, false, not, ◌||◌, if◌then◌else◌, ltb, ◌==◌, List, [], ◌∷◌, Option, none, some,
}
use voice_elf.Prelude.Int.{ℤ}
use voice_elf.Prelude.Text.{Text}
use voice_elf.Audio.Pcm.{frame_samples}
use voice_elf.Audio.Voice.{VoiceAudioProcessor, SpeechQuality}
use voice_elf.Pipeline.Config.{SessionConfig, ConfigError}

abbrev pub input_sample_rate : ℕ
input_sample_rate = 16000

-- `CLIENT_FRAME_SAMPLES * 32`
abbrev pub pre_roll_samples : ℕ
pre_roll_samples = 16384

abbrev pub min_speech_frames : ℕ
min_speech_frames = 3

abbrev pub min_utterance_samples : ℕ
min_utterance_samples = 1536

pub record SpeakerIdentity : Type 0 where
  pub user_id : Option ℕ
  pub username : Text

pub data VadEndReason : Type 0 where
  silence max_duration manual superseded silent server_limit unknown : VadEndReason

pub record ClientVadStart : Type 0 where
  pub engine_blank : Bool  -- whether `engine.trim()` is empty
  pub sample_rate : ℕ
  pub frame_length : ℕ
  pub pre_roll : ℕ

pub record ClientVadEnd : Type 0 where
  pub reason : VadEndReason
  pub sample_count : ℕ
  pub speech_frames : Option ℕ

pub data ClientEvent : Type 0 where
  configure : SessionConfig → ClientEvent
  start : ℕ → Option ClientVadStart → SessionConfig → ClientEvent
  end_segment : ℕ → Bool → Option ClientVadEnd → ClientEvent
  flush : ClientEvent

pub data PipelineInput : Type 0 where
  event : ClientEvent → PipelineInput
  audio : List ℕ → PipelineInput
  speakers : ℕ → List SpeakerIdentity → PipelineInput

pub data Phase : Type 0 where
  listening speech transcribing translating synthesizing playing : Phase

pub data DiscardReason : Type 0 where
  replaced silent_segment too_short noise : DiscardReason

-- The texts of the warnings, with what is filled in.
pub data Notice : Type 0 where
  bad_config : ConfigError → Notice
  engine_missing bad_frame : Notice
  bad_sample_rate bad_frame_length pre_roll_too_long : ℕ → Notice
  repeated_id no_active_segment forced_end : ℕ → Notice
  wrong_order count_mismatch : ℕ → ℕ → Notice

pub data ServerEvent : Type 0 where
  configured : SessionConfig → ServerEvent
  state : Phase → Option ℕ → ServerEvent
  vad_event : Bool → ℕ → ℕ → Option VadEndReason → ℕ → ServerEvent
  queued : ℕ → ServerEvent
  utterance_speakers : ℕ → List SpeakerIdentity → ServerEvent
  discarded : ℕ → DiscardReason → ServerEvent
  warning : Notice → ServerEvent

pub record UtteranceJob : Type 0 where
  pub id : ℕ
  pub samples : List ℤ
  pub config : SessionConfig
  pub speakers : List SpeakerIdentity

-- `begin_live` and `push_live` are the calls of `PipelineWorkers::begin_live` and
-- `LiveUtterance::push`; `enqueue` is the send of `finish_live`.
pub data Effect : Type 0 where
  send : ServerEvent → Effect
  store_config : SessionConfig → Effect
  begin_live : ℕ → SessionConfig → Effect
  push_live : ℕ → List ℤ → Effect
  enqueue : UtteranceJob → Effect

pub record LiveUtterance : Type 0 where
  pub id : ℕ
  pub config : SessionConfig

pub record ActiveSegment (F32 F64 : Type 0) : Type 0 where
  pub tc_id : ℕ
  pub config : SessionConfig
  pub live : Option LiveUtterance
  pub samples : List ℤ
  pub audio_processor : VoiceAudioProcessor F64
  pub quality : SpeechQuality F32
  pub speakers : List SpeakerIdentity

pub record Session (F32 F64 : Type 0) : Type 0 where
  pub config : SessionConfig
  pub active : Option (ActiveSegment F32 F64)
  pub seen : List ℕ

-- What the surroundings answer during one message: whether there is a database and it stores the
-- configuration, whether a push into the live recogniser and the hand-over to the worker succeed,
-- and `(elapsed * 16000 * 1.5) as usize` for the time since the segment's start.
pub record Answers : Type 0 where
  pub has_database : Bool
  pub store_ok : Bool
  pub push_ok : Bool
  pub worker_ok : Bool
  pub elapsed_samples : ℕ

pub data Outcome (F32 F64 : Type 0) : Type 0 where
  continue : Session F32 F64 → List Effect → Outcome F32 F64
  failed : List Effect → Outcome F32 F64

abbrev pub contains : ℕ → List ℕ → Bool
contains n [] = false
contains n (x ∷ xs) = x == n || contains n xs

-- `has_insufficient_client_speech`, of the end's metadata.
abbrev few_frames : Option ℕ → Bool
few_frames none = false
few_frames (some frames) = ltb frames min_speech_frames

unfoldable pub has_insufficient_client_speech : Option ClientVadEnd → Bool
has_insufficient_client_speech none = false
has_insufficient_client_speech (some metadata) = few_frames metadata.speech_frames

-- `none` is `Ok(())`.
unfoldable pub validate_vad_start : ClientVadStart → Option Notice
validate_vad_start vad =
    if vad.engine_blank
    then some engine_missing
    else if not (vad.sample_rate == input_sample_rate)
    then some (bad_sample_rate vad.sample_rate)
    else if not (vad.frame_length == frame_samples)
    then some (bad_frame_length vad.frame_length)
    else if ltb pre_roll_samples vad.pre_roll
    then some (pre_roll_too_long pre_roll_samples)
    else none

abbrev pub listening_again : List Effect
listening_again = send (state listening none) ∷ []

-- The last `Vad` event of a segment.
abbrev pub vad_over : ℕ → VadEndReason → ℕ → Effect
vad_over id reason count = send (vad_event false 0 id (some reason) count)

abbrev pub begin_effects : ℕ → SessionConfig → List Effect
begin_effects id config =
    begin_live id config ∷ send (queued id) ∷ send (state transcribing (some id)) ∷ []

abbrev pub discard_segment : ℕ → DiscardReason → Effect
discard_segment id reason = send (discarded id reason)

-- `config.max_utterance_seconds * INPUT_SAMPLE_RATE + CLIENT_PRE_ROLL_SAMPLES + CLIENT_FRAME_SAMPLES`
abbrev pub hard_limit : SessionConfig → ℕ
hard_limit config =
    config.max_utterance_seconds * input_sample_rate + pre_roll_samples + frame_samples

abbrev pub stored : Answers → SessionConfig → List Effect
stored answers config = if answers.has_database then store_config config ∷ [] else []

abbrev pub store_succeeds : Answers → Bool
store_succeeds answers = not answers.has_database || answers.store_ok

abbrev pub end_reason : Option ClientVadEnd → Bool → VadEndReason
end_reason none is_silent_vad = if is_silent_vad then silent else unknown
end_reason (some metadata) is_silent_vad = metadata.reason

-- The warning about a sample count that differs.
abbrev pub count_check : Option ClientVadEnd → ℕ → List Effect
count_check none received = []
count_check (some metadata) received =
    if metadata.sample_count == received
    then []
    else send (warning (count_mismatch metadata.sample_count received)) ∷ []
