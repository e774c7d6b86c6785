-- ===== src/Pipeline/Session/Hearing.antt =====
-- The audio handler keeps the session's invariant.
use voice_elf.Pipeline.Session.Admissible.{
  AllEffects, Ensures, AllEffects-append, GoodEffect, LiveIsValid, LiveIsValid-change,
  SegmentIsValid, ActiveIsValid, IsValid, finish-good, after_finish-Ensures,
}
use voice_elf.Prelude.{
  ℕ, ◌+◌, ◌-◌, ◌≤◌, ◌<◌, ◌≡◌, refl, sym, ap, ◌∙◌, subst, Bool, true, false, List, length,
  length-append, length-take, take, Option, none, some, min, leb, ltb, arith, if_intro, Bool-cases,
  inl, inr,
}
use voice_elf.Audio.Pcm.{decode_frame}
use voice_elf.Pipeline.Config.Normal.{IsNormal}
use voice_elf.Prelude.Int.{ℤ}
use voice_elf.Prelude.Float.{Floats}
use voice_elf.Prelude.Text.{Text}
use voice_elf.Audio.Voice.{accepts_asr, process}
use voice_elf.Audio.Voice.Chunks.{accepts_asr-observe}
use voice_elf.Audio.Voice.Equation.{length-process}
use voice_elf.Pipeline.Session.Types.{
  contains, ActiveSegment, Session, Answers, Outcome, Effect, LiveUtterance, hard_limit,
}
use voice_elf.Pipeline.Session.Loop.{
  realtime_limit, on_audio, append_frame, feed_live, close_at_limit, accept_frame, decoded,
  hear_active,
}

module _ {F32 F64 : Type 0} (fl : Floats F32 F64) (parse_uuid : Text → Bool) where
  -- The segment after a frame: no longer than its limit, and otherwise as before.
  record Grown (before after : ActiveSegment F32 F64) : Type 0 where
    tc_id : after.tc_id ≡ before.tc_id
    config : after.config ≡ before.config
    live : after.live ≡ before.live
    bounded : length after.samples ≤ hard_limit after.config
    still_good : accepts_asr before.quality ≡ true → accepts_asr after.quality ≡ true

  append_frame-Grown :
      (segment : ActiveSegment F32 F64) (frame : List ℤ)
      → length segment.samples < hard_limit segment.config
      → Grown segment (append_frame fl segment frame).0
  unfolding append_frame
  append_frame-Grown segment frame h =
      let room = hard_limit segment.config - length segment.samples in
      let part = take (min (length frame) room) frame in
      let accepted = (process fl.f64 segment.audio_processor part).1 in
      record {
        tc_id = refl;
        config = refl;
        live = refl;
        bounded = omega (
          arith,
          length-append segment.samples accepted,
          length-process fl.f64 segment.audio_processor part,
          length-take (min (length frame) room) frame,
        );
        still_good = accepts_asr-observe fl segment.quality accepted;
      }

  feed_live-valid :
      (seen : List ℕ) (segment : ActiveSegment F32 F64) (live : Option LiveUtterance)
      (accepted : List ℤ)
      → segment.live ≡ live
      → SegmentIsValid parse_uuid seen segment
      → length segment.samples ≤ hard_limit segment.config
      → SegmentIsValid parse_uuid seen (feed_live fl segment live accepted).0
        × (length (feed_live fl segment live accepted).0.samples
            ≤ hard_limit (feed_live fl segment live accepted).0.config)
        × AllEffects (GoodEffect parse_uuid) (feed_live fl segment live accepted).1
  unfolding feed_live
  feed_live-valid seen segment (some live) accepted e v h = (v, h, (tt, tt))
  feed_live-valid seen segment none accepted e v h =
      elim (Bool-cases (accepts_asr segment.quality)) [
        | inl good ↦ rw good (
          record {
            config = v.config;
            known = v.known;
            live = record { id = refl; config = refl; good = good };
          },
          h,
          (tt, (tt, (tt, (tt, tt)))),
        )
        | inr bad ↦ rw bad (v, h, tt)
      ]

  close_at_limit-Ensures :
      (s : Session F32 F64) (segment : ActiveSegment F32 F64) (effects : List Effect)
      (answers : Answers)
      → SegmentIsValid parse_uuid s.seen segment
      → length segment.samples ≤ hard_limit segment.config
      → AllEffects (GoodEffect parse_uuid) effects
      → Ensures
          (IsValid parse_uuid)
          (GoodEffect parse_uuid)
          (close_at_limit fl s segment effects answers)
  unfolding close_at_limit
  close_at_limit-Ensures s segment effects answers v h g =
      elim (Bool-cases (leb (hard_limit segment.config) (length segment.samples))) [
        | inl full ↦ rw full (
            after_finish-Ensures parse_uuid (GoodEffect parse_uuid) (record s { active = none }) _ _
              tt
              (AllEffects-append (GoodEffect parse_uuid) effects _ g
                (finish-good parse_uuid s.seen segment false answers v h))
              (tt, (tt, (tt, tt))))
        | inr room ↦ rw room ((v, ground arith), g)
      ]

  -- The segment after a frame was appended and the recogniser fed.
  pub fed-valid :
      (seen : List ℕ) (segment : ActiveSegment F32 F64) (frame : List ℤ)
      → ActiveIsValid parse_uuid seen (some segment)
      → let longer = append_frame fl segment frame in
        let fed = feed_live fl longer.0 longer.0.live longer.1 in
        SegmentIsValid parse_uuid seen fed.0
        × (length fed.0.samples ≤ hard_limit fed.0.config)
        × AllEffects (GoodEffect parse_uuid) fed.1
  fed-valid seen segment frame v =
      let longer = (append_frame fl segment frame).0 in
      let g = append_frame-Grown segment frame v.1 in
      let kept : SegmentIsValid parse_uuid seen longer = record {
        config = subst (IsNormal parse_uuid) (sym g.config) v.0.config;
        known = ap (λ (i : ℕ). contains i seen) g.tc_id ∙ v.0.known;
        live =
            LiveIsValid-change parse_uuid segment longer g.tc_id g.config g.still_good longer.live
              (subst (LiveIsValid parse_uuid segment) (sym g.live) v.0.live);
      } in
      feed_live-valid seen longer longer.live (append_frame fl segment frame).1 refl kept g.bounded

  accept_frame-Ensures :
      (s : Session F32 F64) (segment : ActiveSegment F32 F64) (frame : List ℤ) (answers : Answers)
      → ActiveIsValid parse_uuid s.seen (some segment)
      → Ensures
          (IsValid parse_uuid)
          (GoodEffect parse_uuid)
          (accept_frame fl s segment frame answers)
  unfolding accept_frame
  accept_frame-Ensures s segment frame answers v =
      let (fed, short, good) = fed-valid s.seen segment frame v in
      close_at_limit-Ensures s _ _ answers fed short good

  hear_active-Ensures :
      (s : Session F32 F64) (active : Option (ActiveSegment F32 F64)) (bytes : List ℕ)
      (answers : Answers)
      → s.active ≡ active
      → IsValid parse_uuid s
      → Ensures (IsValid parse_uuid) (GoodEffect parse_uuid) (hear_active fl s active bytes answers)
  unfolding hear_active
  hear_active-Ensures s none bytes answers e v = (v, tt)
  hear_active-Ensures s (some segment) bytes answers e v = by_frame (decode_frame bytes)
    where
      by_frame :
          (frame : Option (List ℤ))
          → Ensures
              (IsValid parse_uuid)
              (GoodEffect parse_uuid)
              (decoded fl s segment frame answers)
      by_frame none = (v, (tt, tt))
      by_frame (some frame) =
          if_intro {A = Outcome F32 F64} (Ensures (IsValid parse_uuid) (GoodEffect parse_uuid))
            (ltb (realtime_limit answers) (length segment.samples + length frame)) (v, tt)
            (accept_frame-Ensures s segment frame answers
              (subst (ActiveIsValid parse_uuid s.seen) e v))

  -- The audio handler keeps the invariant.
  pub on_audio-Ensures :
      (s : Session F32 F64) (bytes : List ℕ) (answers : Answers)
      → IsValid parse_uuid s
      → Ensures (IsValid parse_uuid) (GoodEffect parse_uuid) (on_audio fl s bytes answers)
  unfolding on_audio
  on_audio-Ensures s bytes answers v = hear_active-Ensures s s.active bytes answers refl v
