-- ===== src/Pipeline/Session/Ledger.antt =====
-- The balance of opened and closed segments over every message and over the whole loop.
use voice_elf.Pipeline.Session.Endings.{
  known-cons, after_finish-Balanced, end_active-Balanced, flush_active-Balanced,
  speak_active-Balanced,
}
use voice_elf.Pipeline.Session.Admissible.{Ensures, LiveIsValid, ActiveIsValid, IsValid, GoodEffect}
use voice_elf.Pipeline.Session.Invariant.{step-Ensures}
use voice_elf.Pipeline.Session.Closing.{
  one_if, opens, closes, known, pending, Balanced, Balanced-prepend, finish_segment-Finishes,
  opens-append, closes-append,
}
use voice_elf.Pipeline.Session.Hearing.{fed-valid}
use voice_elf.Audio.Pcm.{decode_frame}
use voice_elf.Prelude.{
  ltb, leb, length, ℕ, ◌+◌, ◌≤◌, ◌≡◌, refl, sym, ap, ◌∙◌, subst, Bool, true, false, List, [], ◌∷◌,
  ◌++◌, Option, none, some, arith, if_intro, Bool-cases, inl, inr,
}
use voice_elf.Audio.Voice.{accepts_asr, VoiceAudioProcessor}
use voice_elf.Pipeline.Config.{SessionConfig, Normalized, normalize_config}
use voice_elf.Prelude.Int.{ℤ}
use voice_elf.Prelude.Float.{Floats}
use voice_elf.Prelude.Text.{Text}
use voice_elf.Pipeline.Session.Types.{
  PipelineInput, event, audio, speakers, configure, start, end_segment, flush, hard_limit, speech,
  PipelineInput, Notice, state, configured, LiveUtterance, ClientVadStart, vad_event, send,
  store_succeeds, stored, contains, ActiveSegment, Session, Answers, Outcome, continue, failed,
  Effect,
}
use voice_elf.Pipeline.Session.Handlers.{
  on_speakers, on_flush, check_start, on_end, on_configure, start_checked, on_start,
  discard_previous, finish_segment, configure_with, start_with,
}
use voice_elf.Pipeline.Session.Loop.{
  on_audio, realtime_limit, decoded, append_frame, accept_frame, close_at_limit, hear_active,
  feed_live, and_then, step, run,
}

module _ {F32 F64 : Type 0} (fl : Floats F32 F64) (parse_uuid : Text → Bool)
    (fresh_processor : VoiceAudioProcessor F64) (i : ℕ) where
  stored_quiet :
      (answers : Answers) (config : SessionConfig)
      → (opens i (stored answers config) ≡ 0) × (closes i (stored answers config) ≡ 0)
  stored_quiet answers config =
      if_intro (λ es. (opens i es ≡ 0) × (closes i es ≡ 0)) answers.has_database (refl, refl)
        (refl, refl)

  known-le : (seen : List ℕ) → known i seen ≤ 1
  known-le seen = if_intro (λ n. n ≤ 1) (contains i seen) (omega arith) (omega arith)

  configure_with-Balanced :
      (s : Session F32 F64) (n : Normalized) (answers : Answers)
      → Balanced i s (configure_with fl parse_uuid fresh_processor s n answers)
  unfolding configure_with
  configure_with-Balanced s (Normalized.err e) answers = (omega arith, omega arith)
  configure_with-Balanced s (Normalized.ok next) answers =
      let q = stored_quiet answers next in
      if_intro {A = Outcome F32 F64} (Balanced i s) (store_succeeds answers)
        (
          omega (
            arith,
            q.0,
            q.1,
            opens-append i (stored answers next) (send (configured next) ∷ []),
            closes-append i (stored answers next) (send (configured next) ∷ []),
          ),
          omega (arith, q.0, opens-append i (stored answers next) (send (configured next) ∷ [])),
        )
        (omega (arith, q.1), omega (arith, q.0, known-le s.seen))

  discard_previous-counts :
      (active : Option (ActiveSegment F32 F64))
      → (opens i (discard_previous fl parse_uuid fresh_processor active) ≡ 0)
        × (closes i (discard_previous fl parse_uuid fresh_processor active) ≡ pending i active)
  discard_previous-counts none = (refl, refl)
  discard_previous-counts (some previous) = (refl, omega arith)

  start_with-Balanced :
      (s : Session F32 F64) (tc_id : ℕ) (n : Normalized) (answers : Answers)
      → Balanced i s (start_with fl parse_uuid fresh_processor s tc_id n answers)
  unfolding start_with
  start_with-Balanced s tc_id (Normalized.err e) answers = (omega arith, omega arith)
  start_with-Balanced s tc_id (Normalized.ok config) answers =
      let d = discard_previous fl parse_uuid fresh_processor s.active in
      let c = discard_previous-counts s.active in
      let q = stored_quiet answers config in
      let began = send (vad_event true 1 tc_id none 0) ∷ send (state speech (some tc_id)) ∷ [] in
      let o₁ = opens-append i d (stored answers config) in
      let c₁ = closes-append i d (stored answers config) in
      let o₂ = opens-append i (d ++ stored answers config) began in
      let c₂ = closes-append i (d ++ stored answers config) began in
      elim (Bool-cases (contains tc_id s.seen)) [
        | inl old ↦ rw old (omega arith, omega arith)
        | inr new ↦ rw new (
            if_intro {A = Outcome F32 F64} (Balanced i s) (store_succeeds answers)
              (
                omega (arith, c.0, c.1, q.0, q.1, o₁, c₁, o₂, c₂),
                omega (arith, c.0, q.0, o₁, o₂, known-cons i tc_id s.seen new),
              )
              (omega (arith, c.1, q.1, c₁), omega (arith, c.0, q.0, o₁, known-le s.seen)))
      ]

  on_start-Balanced :
      (s : Session F32 F64) (tc_id : ℕ) (metadata : Option ClientVadStart) (config : SessionConfig)
      (answers : Answers)
      → Balanced i s (on_start fl parse_uuid fresh_processor s tc_id metadata config answers)
  unfolding on_start
  on_start-Balanced s tc_id metadata config answers =
      checked (check_start fl parse_uuid fresh_processor metadata)
    where
      checked :
          (r : Option Notice)
          → Balanced i s (start_checked fl parse_uuid fresh_processor r s tc_id config answers)
      checked (some message) = (omega arith, omega arith)
      checked none = start_with-Balanced s tc_id (normalize_config parse_uuid config) answers

  -- Feeding the recogniser opens and closes nothing.
  feed_live-quiet :
      (segment : ActiveSegment F32 F64) (live : Option LiveUtterance) (accepted : List ℤ)
      → ((feed_live fl segment live accepted).0.tc_id ≡ segment.tc_id)
        × (opens i (feed_live fl segment live accepted).1 ≡ 0)
        × (closes i (feed_live fl segment live accepted).1 ≡ 0)
  unfolding feed_live
  feed_live-quiet segment (some live) accepted = (refl, refl, refl)
  feed_live-quiet segment none accepted = elim (Bool-cases (accepts_asr segment.quality)) [
    | inl good ↦ rw good (refl, refl, refl)
    | inr bad ↦ rw bad (refl, refl, refl)
  ]

  close_at_limit-Balanced :
      (s : Session F32 F64) (segment fed : ActiveSegment F32 F64) (effects : List Effect)
      (answers : Answers)
      → s.active ≡ some segment
      → fed.tc_id ≡ segment.tc_id
      → LiveIsValid parse_uuid fed fed.live
      → (opens i effects ≡ 0) × (closes i effects ≡ 0)
      → Balanced i s (close_at_limit fl s fed effects answers)
  unfolding close_at_limit
  close_at_limit-Balanced s segment fed effects answers e t l q =
      let p : pending i s.active ≡ one_if i fed.tc_id = ap (pending i) e ∙ ap (one_if i) (sym t) in
      if_intro {A = Outcome F32 F64} (Balanced i s)
        (leb (hard_limit fed.config) (length fed.samples))
        (after_finish-Balanced parse_uuid i s fed effects _ (finish_segment fed false answers) p
          (finish_segment-Finishes parse_uuid i fed false answers l) q (refl, refl))
        (omega (arith, p, q.0, q.1), omega (arith, q.0))

  accept_frame-Balanced :
      (s : Session F32 F64) (segment : ActiveSegment F32 F64) (frame : List ℤ) (answers : Answers)
      → s.active ≡ some segment
      → IsValid parse_uuid s
      → Balanced i s (accept_frame fl s segment frame answers)
  unfolding accept_frame append_frame
  accept_frame-Balanced s segment frame answers e v =
      let w : ActiveIsValid parse_uuid s.seen (some segment) =
        subst (ActiveIsValid parse_uuid s.seen) e v in
      let longer = append_frame fl segment frame in
      let fed = fed-valid fl parse_uuid s.seen segment frame w in
      let quiet = feed_live-quiet longer.0 longer.0.live longer.1 in
      close_at_limit-Balanced s segment _ _ answers e quiet.0 fed.0.live (quiet.1, quiet.2)

  hear_active-Balanced :
      (s : Session F32 F64) (active : Option (ActiveSegment F32 F64)) (bytes : List ℕ)
      (answers : Answers)
      → s.active ≡ active
      → IsValid parse_uuid s
      → Balanced i s (hear_active fl s active bytes answers)
  unfolding hear_active
  hear_active-Balanced s none bytes answers e v = (omega arith, omega arith)
  hear_active-Balanced s (some segment) bytes answers e v = by_frame (decode_frame bytes)
    where
      by_frame : (frame : Option (List ℤ)) → Balanced i s (decoded fl s segment frame answers)
      by_frame none = (omega arith, omega arith)
      by_frame (some frame) =
          if_intro {A = Outcome F32 F64} (Balanced i s)
            (ltb (realtime_limit answers) (length segment.samples + length frame))
            (omega arith, omega arith) (accept_frame-Balanced s segment frame answers e v)

  -- One message keeps the balance, whatever it is and whatever the surroundings answer.
  pub step-Balanced :
      (s : Session F32 F64) (input : PipelineInput) (answers : Answers)
      → IsValid parse_uuid s
      → Balanced i s (step fl parse_uuid fresh_processor s input answers)
  unfolding step on_configure on_end on_flush on_speakers on_audio
  step-Balanced s (event (configure config)) answers v =
      configure_with-Balanced s (normalize_config parse_uuid config) answers
  step-Balanced s (event (start tc_id metadata config)) answers v =
      on_start-Balanced s tc_id metadata config answers
  step-Balanced s (event (end_segment tc_id silent metadata)) answers v =
      end_active-Balanced parse_uuid i s s.active tc_id silent metadata answers refl v
  step-Balanced s (event flush) answers v =
      flush_active-Balanced parse_uuid i s s.active answers refl v
  step-Balanced s (audio bytes) answers v = hear_active-Balanced s s.active bytes answers refl v
  step-Balanced s (speakers id names) answers v =
      speak_active-Balanced parse_uuid i s s.active id names refl

  and_then-Balanced :
      (s : Session F32 F64) (r : Outcome F32 F64) (next : Session F32 F64 → Outcome F32 F64)
      → Balanced i s r
      → ((s' : Session F32 F64) (es : List Effect) → r ≡ continue s' es → Balanced i s' (next s'))
      → Balanced i s (and_then r next)
  and_then-Balanced s (continue s' es) next h k =
      Balanced-prepend i s s' es (next s') h (k s' es refl)
  and_then-Balanced s (failed es) next h k = h

  IsValid-after :
      (s s' : Session F32 F64) (input : PipelineInput) (answers : Answers) (es : List Effect)
      → IsValid parse_uuid s
      → step fl parse_uuid fresh_processor s input answers ≡ continue s' es
      → IsValid parse_uuid s'
  IsValid-after s s' input answers es v e =
      (subst (Ensures (IsValid parse_uuid) (GoodEffect parse_uuid)) e
        (step-Ensures fl parse_uuid fresh_processor s input answers v)).0

  -- From a valid session, over any conversation and whatever the surroundings answer: a segment that
  -- was pending or is opened is closed exactly once (discarded or handed over) or still pending at
  -- the end, and an identifier is opened exactly when it is first seen, so never twice. If the loop
  -- stops on an error, no segment has been closed more often than it was pending or opened, and
  -- none was opened twice.
  pub run-Balanced :
      (s : Session F32 F64) (inputs : List (PipelineInput × Answers))
      → IsValid parse_uuid s
      → Balanced i s (run fl parse_uuid fresh_processor s inputs)
  unfolding run
  run-Balanced s [] v = (omega arith, omega arith)
  run-Balanced s ((input, answers) ∷ rest) v =
      and_then-Balanced s (step fl parse_uuid fresh_processor s input answers)
        (λ s'. run fl parse_uuid fresh_processor s' rest) (step-Balanced s input answers v)
        (λ s' es e. run-Balanced s' rest (IsValid-after s s' input answers es v e))
