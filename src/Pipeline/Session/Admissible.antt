-- ===== src/Pipeline/Session/Admissible.antt =====
-- The invariant of the session, and what `finish_segment` hands over under it.
use voice_elf.Prelude.{
  if_intro, ℕ, ◌≤◌, ◌<◌, ◌≡◌, refl, sym, ap, ◌∙◌, subst, Bool, true, false, ◌==◌, List, [], ◌∷◌,
  ◌++◌, length, Option, none, some, arith,
}
use voice_elf.Prelude.Text.{Text}
use voice_elf.Audio.Voice.{accepts_asr}
use voice_elf.Pipeline.Config.Normal.{IsNormal}
use voice_elf.Pipeline.Session.Types.{
  DiscardReason, count_check, ActiveSegment, Session, Answers, Outcome, continue, failed, Effect,
  LiveUtterance, UtteranceJob, enqueue, hard_limit, contains, ClientVadEnd,
}
use voice_elf.Pipeline.Session.Handlers.{
  finish_with, finish_segment, hand_over, discard_reason, after_finish,
}
use voice_elf.Pipeline.Session.Loop.{prepend, and_then}

-- A property of the session that goes on and of every effect; an error leaves no session.
abbrev pub AllEffects : (Effect → Type 0) → List Effect → Type 0
AllEffects Q [] = Unit {0}
AllEffects Q (e ∷ es) = Q e × AllEffects Q es

abbrev pub Ensures :
    {F32 F64 : Type 0} → (Session F32 F64 → Type 0) → (Effect → Type 0) → Outcome F32 F64 → Type 0
Ensures P Q (continue s es) = P s × AllEffects Q es
Ensures P Q (failed es) = AllEffects Q es

pub AllEffects-append :
    (Q : Effect → Type 0) (xs ys : List Effect)
    → AllEffects Q xs
    → AllEffects Q ys
    → AllEffects Q (xs ++ ys)
AllEffects-append Q [] ys h k = k
AllEffects-append Q (x ∷ xs) ys h k = (h.0, AllEffects-append Q xs ys h.1 k)

module _ {F32 F64 : Type 0} (P : Session F32 F64 → Type 0) (Q : Effect → Type 0) where
  Ensures-prepend :
      (effects : List Effect) (r : Outcome F32 F64)
      → AllEffects Q effects
      → Ensures P Q r
      → Ensures P Q (prepend effects r)
  Ensures-prepend effects (continue s later) h k = (k.0, AllEffects-append Q effects later h k.1)
  Ensures-prepend effects (failed later) h k = AllEffects-append Q effects later h k

  -- What one message ensures, the rest of the loop goes on from.
  pub Ensures-and_then :
      (r : Outcome F32 F64) (next : Session F32 F64 → Outcome F32 F64)
      → Ensures P Q r
      → ((s : Session F32 F64) → P s → Ensures P Q (next s))
      → Ensures P Q (and_then r next)
  Ensures-and_then (continue s effects) next h k = Ensures-prepend effects (next s) h.1 (k s h.0)
  Ensures-and_then (failed effects) next h k = h

module _ (parse_uuid : Text → Bool) where
  -- An utterance that may go to the recogniser.
  pub record IsAdmissible (job : UtteranceJob) : Type 0 where
    pub config : IsNormal parse_uuid job.config
    pub long_enough : 1536 ≤ length job.samples
    pub short_enough : length job.samples ≤ hard_limit job.config

  abbrev pub GoodEffect : Effect → Type 0
  GoodEffect (enqueue job) = IsAdmissible job
  GoodEffect _ = Unit {0}

  pub count_check-good : (m : Option ClientVadEnd) (n : ℕ) → AllEffects GoodEffect (count_check m n)
  count_check-good none n = tt
  count_check-good (some m) n = if_intro (AllEffects GoodEffect) (m.sample_count == n) tt (tt, tt)

  module _ {F32 F64 : Type 0} where
    pub record LiveMatches (segment : ActiveSegment F32 F64) (live : LiveUtterance) : Type 0 where
      pub id : live.id ≡ segment.tc_id
      pub config : live.config ≡ segment.config
      pub good : accepts_asr segment.quality ≡ true

    abbrev pub LiveIsValid : ActiveSegment F32 F64 → Option LiveUtterance → Type 0
    LiveIsValid segment none = Unit {0}
    LiveIsValid segment (some live) = LiveMatches segment live

    pub LiveIsValid-change :
        (a b : ActiveSegment F32 F64)
        → b.tc_id ≡ a.tc_id
        → b.config ≡ a.config
        → (accepts_asr a.quality ≡ true → accepts_asr b.quality ≡ true)
        → (live : Option LiveUtterance) → LiveIsValid a live
        → LiveIsValid b live
    LiveIsValid-change a b i c g none v = tt
    LiveIsValid-change a b i c g (some live) v = record {
      id = v.id ∙ sym i;
      config = v.config ∙ sym c;
      good = g v.good;
    }

    -- All that holds of an active segment but for its length.
    pub record SegmentIsValid (seen : List ℕ) (segment : ActiveSegment F32 F64) : Type 0 where
      pub config : IsNormal parse_uuid segment.config
      pub known : contains segment.tc_id seen ≡ true
      pub live : LiveIsValid segment segment.live

    abbrev pub ActiveIsValid : List ℕ → Option (ActiveSegment F32 F64) → Type 0
    ActiveIsValid seen none = Unit {0}
    ActiveIsValid seen (some segment) =
        SegmentIsValid seen segment × (length segment.samples < hard_limit segment.config)

    abbrev pub IsValid : Session F32 F64 → Type 0
    IsValid s = ActiveIsValid s.seen s.active

    kept_long :
        (segment : ActiveSegment F32 F64) (silent : Bool)
        → discard_reason segment silent ≡ none
        → 1536 ≤ length segment.samples
    unfolding discard_reason
    kept_long segment silent e = ground arith

    hand_over-good :
        (segment : ActiveSegment F32 F64) (live : Option LiveUtterance) (answers : Answers)
        → LiveIsValid segment live
        → IsNormal parse_uuid segment.config
        → 1536 ≤ length segment.samples
        → length segment.samples ≤ hard_limit segment.config
        → AllEffects GoodEffect (hand_over segment live answers).0
    unfolding hand_over
    hand_over-good segment (some live) answers l n a b = (
      record {
        config = subst (IsNormal parse_uuid) (sym l.config) n;
        long_enough = a;
        short_enough = omega (arith, ap hard_limit l.config);
      },
      tt,
    )
    hand_over-good segment none answers l n a b =
        let job : IsAdmissible (record {
          id = segment.tc_id;
          samples = segment.samples;
          config = segment.config;
          speakers = segment.speakers;
        }) =
          record { config = n; long_enough = a; short_enough = b } in
        if_intro {A = List Effect × Bool} (λ r. AllEffects GoodEffect r.0) answers.push_ok
          (tt, (tt, (tt, (tt, (job, tt))))) (tt, (tt, (tt, (tt, tt))))

    finish_with-good :
        (seen : List ℕ) (segment : ActiveSegment F32 F64) (silent : Bool) (answers : Answers)
        (reason : Option DiscardReason)
        → discard_reason segment silent ≡ reason
        → SegmentIsValid seen segment
        → length segment.samples ≤ hard_limit segment.config
        → AllEffects GoodEffect (finish_with segment reason answers).0
    unfolding finish_with
    finish_with-good seen segment silent answers (some reason) e v b = (tt, tt)
    finish_with-good seen segment silent answers none e v b =
        hand_over-good segment segment.live answers v.live v.config (kept_long segment silent e) b

    pub finish-good :
        (seen : List ℕ) (segment : ActiveSegment F32 F64) (silent : Bool) (answers : Answers)
        → SegmentIsValid seen segment
        → length segment.samples ≤ hard_limit segment.config
        → AllEffects GoodEffect (finish_segment segment silent answers).0
    unfolding finish_segment
    finish-good seen segment silent answers v b =
        finish_with-good seen segment silent answers (discard_reason segment silent) refl v b

    -- What follows `finish_segment` leaves no active segment.
    pub after_finish-Ensures :
        (Q : Effect → Type 0) (s : Session F32 F64) (r : List Effect × Bool) (rest : List Effect)
        → IsValid s
        → AllEffects Q r.0
        → AllEffects Q rest
        → Ensures IsValid Q (after_finish s r rest)
    after_finish-Ensures Q s (es, true) rest v h k = (v, AllEffects-append Q es rest h k)
    after_finish-Ensures Q s (es, false) rest v h k = h
