-- ===== src/Pipeline/Session/Endings.antt =====
-- The balance of opened and closed segments over the messages that end a segment.
use voice_elf.Pipeline.Session.Admissible.{LiveIsValid, ActiveIsValid, IsValid}
use voice_elf.Pipeline.Session.Closing.{
  one_if, opens, closes, known, pending, Balanced, Finishes, finish_segment-Finishes, opens-append,
  closes-append,
}
use voice_elf.Prelude.{
  ==_iff, length, ℕ, ◌+◌, ◌≤◌, ◌≡◌, refl, ap, subst, Bool, true, false, not, ◌||◌, List, [], ◌∷◌,
  ◌++◌, Option, none, some, ◌==◌, arith, if_intro, Bool-cases, inl, inr,
}
use voice_elf.Prelude.Text.{Text}
use voice_elf.Pipeline.Session.Types.{
  has_insufficient_client_speech, count_check, ClientVadEnd, SpeakerIdentity, contains,
  ActiveSegment, Session, Answers, Outcome, Effect,
}
use voice_elf.Pipeline.Session.Handlers.{
  finish_segment, after_finish, end_active, flush_active, speak_active,
}

count_check_quiet :
    (i : ℕ) (m : Option ClientVadEnd) (n : ℕ)
    → (opens i (count_check m n) ≡ 0) × (closes i (count_check m n) ≡ 0)
count_check_quiet i none n = (refl, refl)
count_check_quiet i (some m) n =
    if_intro (λ es. (opens i es ≡ 0) × (closes i es ≡ 0)) (m.sample_count == n) (refl, refl)
      (refl, refl)

pub known-cons :
    (i id : ℕ) (seen : List ℕ)
    → contains id seen ≡ false
    → one_if i id + known i seen ≡ known i (id ∷ seen)
known-cons i id seen new = elim (Bool-cases (id == i)) [
  | inl e ↦
      let absent : contains i seen ≡ false =
        subst (λ k. contains k seen ≡ false) ((==_iff id i).0 e) new in
      rw (e, absent) refl
  | inr e ↦ rw e (omega arith)
]

module _ (parse_uuid : Text → Bool) {F32 F64 : Type 0} (i : ℕ) where
  -- The whole of a message that ends in `finish_segment`: effects before it open and close nothing,
  -- nor do those after it.
  pub after_finish-Balanced :
      (s : Session F32 F64) (segment : ActiveSegment F32 F64) (before rest : List Effect)
      (r : List Effect × Bool)
      → pending i s.active ≡ one_if i segment.tc_id
      → Finishes parse_uuid i segment r
      → (opens i before ≡ 0) × (closes i before ≡ 0)
      → (opens i rest ≡ 0) × (closes i rest ≡ 0)
      → Balanced i s (after_finish (record s { active = none }) (before ++ r.0, r.1) rest)
  after_finish-Balanced s segment before rest (es, true) p f b k = (
    omega (
      arith,
      p,
      f.opened,
      f.exactly refl,
      opens-append i (before ++ es) rest,
      closes-append i (before ++ es) rest,
      opens-append i before es,
      closes-append i before es,
    ),
    omega (arith, f.opened, opens-append i (before ++ es) rest, opens-append i before es),
  )
  after_finish-Balanced s segment before rest (es, false) p f b k = (
    omega (arith, p, f.at_most, closes-append i before es),
    if_intro (λ n. opens i (before ++ es) + n ≤ 1) (contains i s.seen)
        (omega (arith, f.opened, opens-append i before es))
        (omega (arith, f.opened, opens-append i before es)),
  )

  live_of :
      (s : Session F32 F64) (segment : ActiveSegment F32 F64)
      → s.active ≡ some segment
      → IsValid parse_uuid s
      → LiveIsValid parse_uuid segment segment.live
  live_of s segment e v =
      let w : ActiveIsValid parse_uuid s.seen (some segment) =
        subst (ActiveIsValid parse_uuid s.seen) e v in
      w.0.live

  pub end_active-Balanced :
      (s : Session F32 F64) (active : Option (ActiveSegment F32 F64)) (tc_id : ℕ) (silent : Bool)
      (metadata : Option ClientVadEnd) (answers : Answers)
      → s.active ≡ active
      → IsValid parse_uuid s
      → Balanced i s (end_active s active tc_id silent metadata answers)
  unfolding end_active
  end_active-Balanced s none tc_id silent metadata answers e v = (omega arith, omega arith)
  end_active-Balanced s (some segment) tc_id silent metadata answers e v =
      let discard = silent || has_insufficient_client_speech metadata in
      if_intro {A = Outcome F32 F64} (Balanced i s) (not (segment.tc_id == tc_id))
        ((omega arith, omega arith))
        (after_finish-Balanced s segment (count_check metadata (length segment.samples)) _
          (finish_segment segment discard answers) (ap (pending i) e)
          (finish_segment-Finishes parse_uuid i segment discard answers (live_of s segment e v))
          (count_check_quiet i metadata (length segment.samples)) (refl, refl))

  pub flush_active-Balanced :
      (s : Session F32 F64) (active : Option (ActiveSegment F32 F64)) (answers : Answers)
      → s.active ≡ active
      → IsValid parse_uuid s
      → Balanced i s (flush_active s active answers)
  unfolding flush_active
  flush_active-Balanced s none answers e v = (omega arith, omega arith)
  flush_active-Balanced s (some segment) answers e v =
      after_finish-Balanced s segment [] _ (finish_segment segment false answers) (ap (pending i) e)
        (finish_segment-Finishes parse_uuid i segment false answers (live_of s segment e v))
        (refl, refl) (refl, refl)

  pub speak_active-Balanced :
      (s : Session F32 F64) (active : Option (ActiveSegment F32 F64)) (id : ℕ)
      (names : List SpeakerIdentity)
      → s.active ≡ active
      → Balanced i s (speak_active s active id names)
  unfolding speak_active
  speak_active-Balanced s none id names e = (omega arith, omega arith)
  speak_active-Balanced s (some segment) id names e =
      let p : pending i s.active ≡ one_if i segment.tc_id = ap (pending i) e in
      if_intro {A = Outcome F32 F64} (Balanced i s) (not (segment.tc_id == id))
        ((omega arith, omega arith)) (omega (arith, p), omega arith)
