-- ===== src/Pipeline/Session/Handlers.antt =====
-- The handlers of `run_pipeline` for events and speakers, and `finish_segment`.
use voice_elf.Pipeline.Session.Types.{
  min_utterance_samples, contains, has_insufficient_client_speech, validate_vad_start,
  listening_again, vad_over, begin_effects, discard_segment, stored, store_succeeds, end_reason,
  count_check, SpeakerIdentity, ClientVadStart, ClientVadEnd, DiscardReason, Notice, UtteranceJob,
  Effect, LiveUtterance, ActiveSegment, Session, Answers, Outcome, manual, speech, replaced,
  silent_segment, too_short, noise, bad_config, repeated_id, no_active_segment, wrong_order,
  configured, state, vad_event, utterance_speakers, warning, send, push_live, enqueue, continue,
  failed,
}
use voice_elf.Prelude.{
  ℕ, Bool, true, false, not, ◌||◌, if◌then◌else◌, ltb, ◌==◌, List, [], ◌∷◌, ◌++◌, length, Option,
  none, some,
}
use voice_elf.Prelude.Float.{Floats}
use voice_elf.Prelude.Text.{Text}
use voice_elf.Audio.Voice.{VoiceAudioProcessor, accepts_asr, no_quality}
use voice_elf.Pipeline.Config.{SessionConfig, Normalized, normalize_config}

module _ {F32 F64 : Type 0} where
  -- The session after handling, with nothing asked for but one warning.
  abbrev pub warn : Session F32 F64 → Notice → Outcome F32 F64
  warn s notice = continue s (send (warning notice) ∷ [])

  -- Whether `finish_segment` drops the segment, and why.
  unfoldable pub discard_reason : ActiveSegment F32 F64 → Bool → Option DiscardReason
  discard_reason segment is_silent_vad =
      if is_silent_vad
      then some silent_segment
      else if ltb (length segment.samples) min_utterance_samples
      then some too_short
      else if not (accepts_asr segment.quality)
      then some noise
      else none

  abbrev pub job_of : ActiveSegment F32 F64 → LiveUtterance → UtteranceJob
  job_of segment live = record {
    id = live.id;
    samples = segment.samples;
    config = live.config;
    speakers = segment.speakers;
  }

  -- `finish_segment` on a segment that is kept, with its live utterance or without one.
  unfoldable pub hand_over :
      ActiveSegment F32 F64 → Option LiveUtterance → Answers → List Effect × Bool
  hand_over segment (some live) answers = (enqueue (job_of segment live) ∷ [], answers.worker_ok)
  hand_over segment none answers =
      let live : LiveUtterance = record { id = segment.tc_id; config = segment.config } in
      let started =
        begin_effects segment.tc_id segment.config
        ++ push_live segment.tc_id segment.samples ∷ [] in
      if answers.push_ok
      then (started ++ enqueue (job_of segment live) ∷ [], answers.worker_ok)
      else (started, false)

  unfoldable pub finish_with :
      ActiveSegment F32 F64 → Option DiscardReason → Answers → List Effect × Bool
  finish_with segment (some reason) answers = (discard_segment segment.tc_id reason ∷ [], true)
  finish_with segment none answers = hand_over segment segment.live answers

  -- The effects, and whether the function returned `Ok`.
  unfoldable pub finish_segment : ActiveSegment F32 F64 → Bool → Answers → List Effect × Bool
  finish_segment segment is_silent_vad = finish_with segment (discard_reason segment is_silent_vad)

  -- What follows a call of `finish_segment` with `?`.
  abbrev pub after_finish : Session F32 F64 → List Effect × Bool → List Effect → Outcome F32 F64
  after_finish s (effects, true) rest = continue s (effects ++ rest)
  after_finish s (effects, false) rest = failed effects

  unfoldable pub end_active :
      Session F32 F64
      → Option (ActiveSegment F32 F64)
      → ℕ
      → Bool
      → Option ClientVadEnd
      → Answers
      → Outcome F32 F64
  end_active s none tc_id is_silent_vad metadata answers = warn s (no_active_segment tc_id)
  end_active s (some segment) tc_id is_silent_vad metadata answers =
      let sample_count = length segment.samples in
      let discard = is_silent_vad || has_insufficient_client_speech metadata in
      let (effects, ok) = finish_segment segment discard answers in
      if not (segment.tc_id == tc_id)
      then warn s (wrong_order tc_id segment.tc_id)
      else after_finish (record s { active = none })
          (count_check metadata sample_count ++ effects, ok)
          (vad_over tc_id (end_reason metadata is_silent_vad) sample_count ∷ listening_again)

  unfoldable pub on_end :
      Session F32 F64 → ℕ → Bool → Option ClientVadEnd → Answers → Outcome F32 F64
  on_end s = end_active s s.active

  unfoldable pub flush_active :
      Session F32 F64 → Option (ActiveSegment F32 F64) → Answers → Outcome F32 F64
  flush_active s none answers = continue s listening_again
  flush_active s (some segment) answers =
      after_finish (record s { active = none }) (finish_segment segment false answers)
        (vad_over segment.tc_id manual (length segment.samples) ∷ listening_again)

  unfoldable pub on_flush : Session F32 F64 → Answers → Outcome F32 F64
  on_flush s = flush_active s s.active

  unfoldable pub speak_active :
      Session F32 F64 → Option (ActiveSegment F32 F64) → ℕ → List SpeakerIdentity → Outcome F32 F64
  speak_active s none utterance_id names = continue s []
  speak_active s (some segment) utterance_id names =
      if not (segment.tc_id == utterance_id)
      then continue s []
      else continue (record s { active = some (record segment { speakers = names }) })
          (send (utterance_speakers utterance_id names) ∷ [])

  unfoldable pub on_speakers : Session F32 F64 → ℕ → List SpeakerIdentity → Outcome F32 F64
  on_speakers s = speak_active s s.active

-- The parameters: the floating-point arithmetic, the parser of identifiers, and a processor as
-- `VoiceAudioProcessor::new(INPUT_SAMPLE_RATE)` returns it.
module _ {F32 F64 : Type 0} (fl : Floats F32 F64) (parse_uuid : Text → Bool)
    (fresh_processor : VoiceAudioProcessor F64) where
  unfoldable pub configure_with : Session F32 F64 → Normalized → Answers → Outcome F32 F64
  configure_with s (Normalized.err message) answers = warn s (bad_config message)
  configure_with s (Normalized.ok next) answers =
      if store_succeeds answers
      then continue (record s { config = next })
          (stored answers next ++ send (configured next) ∷ [])
      else failed (stored answers next)

  unfoldable pub on_configure : Session F32 F64 → SessionConfig → Answers → Outcome F32 F64
  on_configure s next = configure_with s (normalize_config parse_uuid next)

  abbrev pub new_segment : ℕ → SessionConfig → ActiveSegment F32 F64
  new_segment tc_id config = record {
    tc_id = tc_id;
    config = config;
    live = none;
    samples = [];
    audio_processor = fresh_processor;
    quality = no_quality fl;
    speakers = [];
  }

  -- The previous segment, taken and discarded.
  abbrev pub discard_previous : Option (ActiveSegment F32 F64) → List Effect
  discard_previous none = []
  discard_previous (some previous) = discard_segment previous.tc_id replaced ∷ []

  unfoldable pub start_with : Session F32 F64 → ℕ → Normalized → Answers → Outcome F32 F64
  start_with s tc_id (Normalized.err message) answers = warn s (bad_config message)
  start_with s tc_id (Normalized.ok config) answers =
      let effects = discard_previous s.active ++ stored answers config in
      if contains tc_id s.seen
      then warn s (repeated_id tc_id)
      else if store_succeeds answers
      then continue
          (record {
            config = config;
            active = some (new_segment tc_id config);
            seen = tc_id ∷ s.seen;
          })
          (effects ++ send (vad_event true 1 tc_id none 0) ∷ send (state speech (some tc_id)) ∷ [])
      else failed effects

  abbrev pub start_checked :
      Option Notice → Session F32 F64 → ℕ → SessionConfig → Answers → Outcome F32 F64
  start_checked (some message) s tc_id config answers = warn s message
  start_checked none s tc_id config answers =
      start_with s tc_id (normalize_config parse_uuid config) answers

  abbrev pub check_start : Option ClientVadStart → Option Notice
  check_start none = none
  check_start (some metadata) = validate_vad_start metadata

  unfoldable pub on_start :
      Session F32 F64 → ℕ → Option ClientVadStart → SessionConfig → Answers → Outcome F32 F64
  on_start s tc_id metadata config answers =
      start_checked (check_start metadata) s tc_id config answers
