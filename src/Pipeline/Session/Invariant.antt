-- ===== src/Pipeline/Session/Invariant.antt =====
-- Every message keeps the session's invariant, and only admissible utterances are handed over.
use voice_elf.Pipeline.Session.Hearing.{on_audio-Ensures}
use voice_elf.Pipeline.Session.Admissible.{
  Ensures-and_then, AllEffects, Ensures, AllEffects-append, GoodEffect, count_check-good,
  LiveIsValid-change, ActiveIsValid, IsValid, finish-good, after_finish-Ensures,
}
use voice_elf.Prelude.{
  if_intro, ℕ, ◌≡◌, refl, sym, subst, Bool, false, not, ◌||◌, ◌==◌, List, [], ◌∷◌, length, Option,
  none, some, arith,
}
use voice_elf.Prelude.Float.{Floats}
use voice_elf.Prelude.Text.{Text}
use voice_elf.Audio.Voice.{VoiceAudioProcessor}
use voice_elf.Pipeline.Config.{SessionConfig, Normalized, normalize_config}
use voice_elf.Pipeline.Config.Normal.{IsNormal, normalize_config_iff}
use voice_elf.Pipeline.Session.Types.{
  stored, store_succeeds, Notice, SpeakerIdentity, has_insufficient_client_speech, ActiveSegment,
  Session, Answers, Outcome, PipelineInput, event, audio, speakers, configure, start, end_segment,
  flush, contains, ClientVadEnd, ClientVadStart,
}
use voice_elf.Pipeline.Session.Handlers.{
  discard_previous, start_checked, check_start, finish_segment, on_configure, configure_with,
  on_start, start_with, on_end, end_active, on_flush, flush_active, on_speakers, speak_active,
}
use voice_elf.Pipeline.Session.Loop.{step, run}

module _ (parse_uuid : Text → Bool) where
  module _ {F32 F64 : Type 0} where
    end_active-Ensures :
        (s : Session F32 F64) (active : Option (ActiveSegment F32 F64)) (tc_id : ℕ) (silent : Bool)
        (metadata : Option ClientVadEnd) (answers : Answers)
        → s.active ≡ active
        → IsValid parse_uuid s
        → Ensures
            (IsValid parse_uuid)
            (GoodEffect parse_uuid)
            (end_active s active tc_id silent metadata answers)
    unfolding end_active
    end_active-Ensures s none tc_id silent metadata answers e v = (v, (tt, tt))
    end_active-Ensures s (some segment) tc_id silent metadata answers e v =
        let w : ActiveIsValid parse_uuid s.seen (some segment) =
          subst (ActiveIsValid parse_uuid s.seen) e v in
        let discard = silent || has_insufficient_client_speech metadata in
        if_intro {A = Outcome F32 F64} (Ensures (IsValid parse_uuid) (GoodEffect parse_uuid))
          (not (segment.tc_id == tc_id)) (v, (tt, tt))
          (after_finish-Ensures parse_uuid (GoodEffect parse_uuid) (record s { active = none }) _ _
            tt
            (AllEffects-append (GoodEffect parse_uuid) _ _
              (count_check-good parse_uuid metadata (length segment.samples))
              (finish-good parse_uuid s.seen segment discard answers w.0 (omega arith)))
            (tt, (tt, tt)))

    flush_active-Ensures :
        (s : Session F32 F64) (active : Option (ActiveSegment F32 F64)) (answers : Answers)
        → s.active ≡ active
        → IsValid parse_uuid s
        → Ensures (IsValid parse_uuid) (GoodEffect parse_uuid) (flush_active s active answers)
    unfolding flush_active
    flush_active-Ensures s none answers e v = (v, (tt, tt))
    flush_active-Ensures s (some segment) answers e v =
        let w : ActiveIsValid parse_uuid s.seen (some segment) =
          subst (ActiveIsValid parse_uuid s.seen) e v in
        after_finish-Ensures parse_uuid (GoodEffect parse_uuid) (record s { active = none })
          (finish_segment segment false answers) _ tt
          (finish-good parse_uuid s.seen segment false answers w.0 (omega arith)) (tt, (tt, tt))

    speak_active-Ensures :
        (s : Session F32 F64) (active : Option (ActiveSegment F32 F64)) (id : ℕ)
        (names : List SpeakerIdentity)
        → s.active ≡ active
        → IsValid parse_uuid s
        → Ensures (IsValid parse_uuid) (GoodEffect parse_uuid) (speak_active s active id names)
    unfolding speak_active
    speak_active-Ensures s none id names e v = (v, tt)
    speak_active-Ensures s (some segment) id names e v =
        let w : ActiveIsValid parse_uuid s.seen (some segment) =
          subst (ActiveIsValid parse_uuid s.seen) e v in
        if_intro {A = Outcome F32 F64} (Ensures (IsValid parse_uuid) (GoodEffect parse_uuid))
          (not (segment.tc_id == id)) (v, tt)
          (
            (
              record {
                config = w.0.config;
                known = w.0.known;
                live =
                    LiveIsValid-change parse_uuid segment _ refl refl (λ g. g) segment.live
                      w.0.live;
              },
              w.1,
            ),
            (tt, tt),
          )

module _ {F32 F64 : Type 0} (fl : Floats F32 F64) (parse_uuid : Text → Bool)
    (fresh_processor : VoiceAudioProcessor F64) where
  stored-good :
      (answers : Answers) (config : SessionConfig)
      → AllEffects (GoodEffect parse_uuid) (stored answers config)
  stored-good answers config =
      if_intro (AllEffects (GoodEffect parse_uuid)) answers.has_database (tt, tt) tt

  configure_with-Ensures :
      (s : Session F32 F64) (n : Normalized) (answers : Answers)
      → IsValid parse_uuid s
      → Ensures
          (IsValid parse_uuid)
          (GoodEffect parse_uuid)
          (configure_with fl parse_uuid fresh_processor s n answers)
  unfolding configure_with
  configure_with-Ensures s (Normalized.err e) answers v = (v, (tt, tt))
  configure_with-Ensures s (Normalized.ok next) answers v =
      let st = stored-good answers next in
      if_intro {A = Outcome F32 F64} (Ensures (IsValid parse_uuid) (GoodEffect parse_uuid))
        (store_succeeds answers)
        (v, AllEffects-append (GoodEffect parse_uuid) (stored answers next) _ st (tt, tt)) st

  discard_previous-good :
      (active : Option (ActiveSegment F32 F64))
      → AllEffects (GoodEffect parse_uuid) (discard_previous fl parse_uuid fresh_processor active)
  discard_previous-good none = tt
  discard_previous-good (some previous) = (tt, tt)

  start_with-Ensures :
      (s : Session F32 F64) (tc_id : ℕ) (n : Normalized) (answers : Answers)
      → ((config : SessionConfig) → n ≡ Normalized.ok config → IsNormal parse_uuid config)
      → IsValid parse_uuid s
      → Ensures
          (IsValid parse_uuid)
          (GoodEffect parse_uuid)
          (start_with fl parse_uuid fresh_processor s tc_id n answers)
  unfolding start_with
  start_with-Ensures s tc_id (Normalized.err e) answers normal v = (v, (tt, tt))
  start_with-Ensures s tc_id (Normalized.ok config) answers normal v =
      let before =
        AllEffects-append (GoodEffect parse_uuid)
          (discard_previous fl parse_uuid fresh_processor s.active) (stored answers config)
          (discard_previous-good s.active) (stored-good answers config) in
      let ok = normal config refl in
      if_intro {A = Outcome F32 F64} (Ensures (IsValid parse_uuid) (GoodEffect parse_uuid))
        (contains tc_id s.seen) (v, (tt, tt))
        (if_intro {A = Outcome F32 F64} (Ensures (IsValid parse_uuid) (GoodEffect parse_uuid))
          (store_succeeds answers)
          (
            (
              record { config = ok; known = ground arith; live = tt },
              omega (arith, ok.duration_low),
            ),
            AllEffects-append (GoodEffect parse_uuid) _ _ before (tt, (tt, tt)),
          )
          before)

  on_start-Ensures :
      (s : Session F32 F64) (tc_id : ℕ) (metadata : Option ClientVadStart) (config : SessionConfig)
      (answers : Answers)
      → IsValid parse_uuid s
      → Ensures
          (IsValid parse_uuid)
          (GoodEffect parse_uuid)
          (on_start fl parse_uuid fresh_processor s tc_id metadata config answers)
  unfolding on_start
  on_start-Ensures s tc_id metadata config answers v =
      checked (check_start fl parse_uuid fresh_processor metadata)
    where
      checked :
          (r : Option Notice)
          → Ensures
              (IsValid parse_uuid)
              (GoodEffect parse_uuid)
              (start_checked fl parse_uuid fresh_processor r s tc_id config answers)
      checked (some message) = (v, (tt, tt))
      checked none =
          start_with-Ensures s tc_id (normalize_config parse_uuid config) answers
            (λ n e.
              let (same, normal) = (normalize_config_iff parse_uuid config n).0 e in
              subst (IsNormal parse_uuid) (sym same) normal)
            v

  -- One message, whatever it is and whatever the surroundings answer.
  pub step-Ensures :
      (s : Session F32 F64) (input : PipelineInput) (answers : Answers)
      → IsValid parse_uuid s
      → Ensures
          (IsValid parse_uuid)
          (GoodEffect parse_uuid)
          (step fl parse_uuid fresh_processor s input answers)
  unfolding step on_configure on_end on_flush on_speakers
  step-Ensures s (event (configure config)) answers v =
      configure_with-Ensures s (normalize_config parse_uuid config) answers v
  step-Ensures s (event (start tc_id metadata config)) answers v =
      on_start-Ensures s tc_id metadata config answers v
  step-Ensures s (event (end_segment tc_id silent metadata)) answers v =
      end_active-Ensures parse_uuid s s.active tc_id silent metadata answers refl v
  step-Ensures s (event flush) answers v = flush_active-Ensures parse_uuid s s.active answers refl v
  step-Ensures s (audio bytes) answers v = on_audio-Ensures fl parse_uuid s bytes answers v
  step-Ensures s (speakers id names) answers v =
      speak_active-Ensures parse_uuid s s.active id names refl v

  -- From a valid session, whatever the client sends and the surroundings answer: the session stays
  -- valid, and every utterance that is handed to the recogniser has a normal configuration and
  -- between 1536 samples and the hard limit of its configured duration.
  pub run-Ensures :
      (s : Session F32 F64) (inputs : List (PipelineInput × Answers))
      → IsValid parse_uuid s
      → Ensures
          (IsValid parse_uuid)
          (GoodEffect parse_uuid)
          (run fl parse_uuid fresh_processor s inputs)
  unfolding run
  run-Ensures s [] v = (v, tt)
  run-Ensures s ((input, answers) ∷ rest) v =
      Ensures-and_then (IsValid parse_uuid) (GoodEffect parse_uuid)
        (step fl parse_uuid fresh_processor s input answers)
        (λ s'. run fl parse_uuid fresh_processor s' rest) (step-Ensures s input answers v)
        (λ s' v'. run-Ensures s' rest v')
