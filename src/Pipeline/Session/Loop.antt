-- ===== src/Pipeline/Session/Loop.antt =====
-- The audio handler of `run_pipeline`, and the loop over all inputs.
use voice_elf.Prelude.{
  ℕ, ◌+◌, ◌-◌, Bool, false, if◌then◌else◌, ltb, leb, List, [], ◌∷◌, ◌++◌, length, take, Option,
  none, some, min,
}
use voice_elf.Prelude.Int.{ℤ}
use voice_elf.Prelude.Float.{Floats}
use voice_elf.Prelude.Text.{Text}
use voice_elf.Audio.Pcm.{frame_samples, decode_frame}
use voice_elf.Audio.Voice.{VoiceAudioProcessor, accepts_asr, observe, process}
use voice_elf.Pipeline.Session.Types.{
  ActiveSegment, Session, Answers, Outcome, continue, failed, Effect, LiveUtterance, push_live,
  send, warning, bad_frame, forced_end, server_limit, pre_roll_samples, hard_limit, begin_effects,
  vad_over, listening_again, PipelineInput, event, audio, speakers, configure, start, end_segment,
  flush,
}
use voice_elf.Pipeline.Session.Handlers.{
  warn, finish_segment, after_finish, on_configure, on_start, on_end, on_flush, on_speakers,
}

-- `CLIENT_PRE_ROLL_SAMPLES + (elapsed * 16000 * 1.5) as usize + CLIENT_FRAME_SAMPLES`
abbrev pub realtime_limit : Answers → ℕ
realtime_limit answers = pre_roll_samples + answers.elapsed_samples + frame_samples

module _ {F32 F64 : Type 0} where
  -- The later effects stand behind the earlier ones; an error ends the loop.
  abbrev pub prepend : List Effect → Outcome F32 F64 → Outcome F32 F64
  prepend effects (continue s later) = continue s (effects ++ later)
  prepend effects (failed later) = failed (effects ++ later)

  abbrev pub and_then : Outcome F32 F64 → (Session F32 F64 → Outcome F32 F64) → Outcome F32 F64
  and_then (continue s effects) next = prepend effects (next s)
  and_then (failed effects) next = failed effects

module _ {F32 F64 : Type 0} (fl : Floats F32 F64) where
  -- The segment with the part of the frame that still fits, filtered and judged.
  unfoldable pub append_frame : ActiveSegment F32 F64 → List ℤ → ActiveSegment F32 F64 × List ℤ
  append_frame segment frame =
      let remaining = hard_limit segment.config - length segment.samples in
      let (processor, accepted) =
        process fl.f64 segment.audio_processor (take (min (length frame) remaining) frame) in
      (
        record segment {
          audio_processor = processor;
          samples = segment.samples ++ accepted;
          quality = observe fl segment.quality accepted;
        },
        accepted,
      )

  -- The live recogniser: fed the new samples, or started and fed all samples once the segment is
  -- good enough. A push that fails is logged only.
  unfoldable pub feed_live :
      ActiveSegment F32 F64 → Option LiveUtterance → List ℤ → ActiveSegment F32 F64 × List Effect
  feed_live segment (some live) accepted = (segment, push_live live.id accepted ∷ [])
  feed_live segment none accepted =
      let live : LiveUtterance = record { id = segment.tc_id; config = segment.config } in
      if accepts_asr segment.quality
      then (
        record segment { live = some live },
        begin_effects segment.tc_id segment.config ++ push_live segment.tc_id segment.samples ∷ [],
      )
      else (segment, [])

  -- The forced end of a segment that has reached its hard limit.
  unfoldable pub close_at_limit :
      Session F32 F64 → ActiveSegment F32 F64 → List Effect → Answers → Outcome F32 F64
  close_at_limit s segment effects answers =
      let (finish, ok) = finish_segment segment false answers in
      let sample_count = length segment.samples in
      if leb (hard_limit segment.config) sample_count
      then after_finish (record s { active = none }) (effects ++ finish, ok)
          (send (warning (forced_end segment.config.max_utterance_seconds))
            ∷ vad_over segment.tc_id server_limit sample_count
            ∷ listening_again)
      else continue (record s { active = some segment }) effects

  unfoldable pub accept_frame :
      Session F32 F64 → ActiveSegment F32 F64 → List ℤ → Answers → Outcome F32 F64
  accept_frame s segment frame answers =
      let (longer, accepted) = append_frame segment frame in
      let (fed, effects) = feed_live longer longer.live accepted in
      close_at_limit s fed effects answers

  abbrev pub decoded :
      Session F32 F64 → ActiveSegment F32 F64 → Option (List ℤ) → Answers → Outcome F32 F64
  decoded s segment none answers = warn s bad_frame
  decoded s segment (some frame) answers =
      if ltb (realtime_limit answers) (length segment.samples + length frame)
      then continue s []
      else accept_frame s segment frame answers

  unfoldable pub hear_active :
      Session F32 F64 → Option (ActiveSegment F32 F64) → List ℕ → Answers → Outcome F32 F64
  hear_active s none bytes answers = continue s []
  hear_active s (some segment) bytes answers = decoded s segment (decode_frame bytes) answers

  unfoldable pub on_audio : Session F32 F64 → List ℕ → Answers → Outcome F32 F64
  on_audio s = hear_active s s.active

module _ {F32 F64 : Type 0} (fl : Floats F32 F64) (parse_uuid : Text → Bool)
    (fresh_processor : VoiceAudioProcessor F64) where
  unfoldable pub step : Session F32 F64 → PipelineInput → Answers → Outcome F32 F64
  step s (event (configure config)) answers =
      on_configure fl parse_uuid fresh_processor s config answers
  step s (event (start tc_id metadata config)) answers =
      on_start fl parse_uuid fresh_processor s tc_id metadata config answers
  step s (event (end_segment tc_id is_silent metadata)) answers =
      on_end s tc_id is_silent metadata answers
  step s (event flush) answers = on_flush s answers
  step s (audio bytes) answers = on_audio fl s bytes answers
  step s (speakers utterance_id names) answers = on_speakers s utterance_id names

  -- `while let Some(message) = input.recv().await`: the inputs with the answers to each; an error
  -- ends the loop.
  unfoldable pub run : Session F32 F64 → List (PipelineInput × Answers) → Outcome F32 F64
  run s [] = continue s []
  run s ((input, answers) ∷ rest) = and_then (step s input answers) (λ s'. run s' rest)
