-- ===== src/Pipeline/Session/Closing.antt =====
-- Every segment that the session opens is closed exactly once: discarded, or handed over.
use voice_elf.Pipeline.Session.Admissible.{LiveIsValid}
use voice_elf.Prelude.{
  ℕ, ◌+◌, ◌≤◌, ◌≡◌, ap, Bool, true, List, [], ◌∷◌, ◌++◌, Option, none, some, ◌==◌, if◌then◌else◌,
  arith,
}
use voice_elf.Prelude.Text.{Text}
use voice_elf.Pipeline.Session.Types.{
  ActiveSegment, Session, Answers, Outcome, continue, failed, Effect, ServerEvent, send, enqueue,
  vad_event, discarded, contains, DiscardReason, LiveUtterance,
}
use voice_elf.Pipeline.Session.Handlers.{finish_segment, finish_with, hand_over, discard_reason}
use voice_elf.Pipeline.Session.Loop.{prepend}

abbrev pub one_if : ℕ → ℕ → ℕ
one_if i id = if id == i then 1 else 0

-- A segment is opened by the event that its speech has begun.
abbrev pub opens_event : ℕ → ServerEvent → ℕ
opens_event i (vad_event true level id reason count) = one_if i id
opens_event i _ = 0

abbrev pub opens_effect : ℕ → Effect → ℕ
opens_effect i (send e) = opens_event i e
opens_effect i _ = 0

-- It is closed by the event that it is discarded, or by the hand-over to the worker.
abbrev pub closes_event : ℕ → ServerEvent → ℕ
closes_event i (discarded id reason) = one_if i id
closes_event i _ = 0

abbrev pub closes_effect : ℕ → Effect → ℕ
closes_effect i (send e) = closes_event i e
closes_effect i (enqueue job) = one_if i job.id
closes_effect i _ = 0

abbrev pub opens : ℕ → List Effect → ℕ
opens i [] = 0
opens i (e ∷ es) = opens_effect i e + opens i es

abbrev pub closes : ℕ → List Effect → ℕ
closes i [] = 0
closes i (e ∷ es) = closes_effect i e + closes i es

pub opens-append : (i : ℕ) (xs ys : List Effect) → opens i (xs ++ ys) ≡ opens i xs + opens i ys
opens-append i [] ys = omega arith
opens-append i (x ∷ xs) ys = omega (arith, opens-append i xs ys)

pub closes-append : (i : ℕ) (xs ys : List Effect) → closes i (xs ++ ys) ≡ closes i xs + closes i ys
closes-append i [] ys = omega arith
closes-append i (x ∷ xs) ys = omega (arith, closes-append i xs ys)

abbrev pub known : ℕ → List ℕ → ℕ
known i seen = if contains i seen then 1 else 0

module _ {F32 F64 : Type 0} where
  -- One if the segment is the active one.
  abbrev pub pending : ℕ → Option (ActiveSegment F32 F64) → ℕ
  pending i none = 0
  pending i (some segment) = one_if i segment.tc_id

  -- The balance for one identifier: what was pending and is opened is closed or still pending, and
  -- an identifier is opened only when it is first seen. An error may leave a segment unclosed.
  abbrev pub Balanced : ℕ → Session F32 F64 → Outcome F32 F64 → Type 0
  Balanced i s (continue s' es) =
      (opens i es + pending i s.active ≡ closes i es + pending i s'.active)
      × (opens i es + known i s.seen ≡ known i s'.seen)
  Balanced i s (failed es) =
      (closes i es ≤ opens i es + pending i s.active) × (opens i es + known i s.seen ≤ 1)

  pub Balanced-prepend :
      (i : ℕ) (s s' : Session F32 F64) (es : List Effect) (r : Outcome F32 F64)
      → Balanced i s (continue s' es)
      → Balanced i s' r
      → Balanced i s (prepend es r)
  Balanced-prepend i s s' es (continue s'' later) h k = (
    omega (arith, h, k, opens-append i es later, closes-append i es later),
    omega (arith, h, k, opens-append i es later),
  )
  Balanced-prepend i s s' es (failed later) h k = (
    omega (arith, h, k, opens-append i es later, closes-append i es later),
    omega (arith, h, k, opens-append i es later),
  )

module _ (parse_uuid : Text → Bool) {F32 F64 : Type 0} where
  -- `finish_segment` closes the segment, once, and opens none.
  pub record Finishes (i : ℕ) (segment : ActiveSegment F32 F64) (r : List Effect × Bool)
      : Type 0 where
    pub opened : opens i r.0 ≡ 0
    pub at_most : closes i r.0 ≤ one_if i segment.tc_id
    pub exactly : r.1 ≡ true → closes i r.0 ≡ one_if i segment.tc_id

  hand_over-Finishes :
      (i : ℕ) (segment : ActiveSegment F32 F64) (live : Option LiveUtterance) (answers : Answers)
      → LiveIsValid parse_uuid segment live
      → Finishes i segment (hand_over segment live answers)
  unfolding hand_over
  hand_over-Finishes i segment (some live) answers v = ground (arith, ap (one_if i) v.id)
  hand_over-Finishes i segment none answers v = ground arith

  finish_with-Finishes :
      (i : ℕ) (segment : ActiveSegment F32 F64) (reason : Option DiscardReason) (answers : Answers)
      → LiveIsValid parse_uuid segment segment.live
      → Finishes i segment (finish_with segment reason answers)
  unfolding finish_with
  finish_with-Finishes i segment (some reason) answers v = ground arith
  finish_with-Finishes i segment none answers v =
      hand_over-Finishes i segment segment.live answers v

  pub finish_segment-Finishes :
      (i : ℕ) (segment : ActiveSegment F32 F64) (silent : Bool) (answers : Answers)
      → LiveIsValid parse_uuid segment segment.live
      → Finishes i segment (finish_segment segment silent answers)
  unfolding finish_segment
  finish_segment-Finishes i segment silent answers v =
      finish_with-Finishes i segment (discard_reason segment silent) answers v
