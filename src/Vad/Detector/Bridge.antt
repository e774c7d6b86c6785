-- ===== src/Vad/Detector/Bridge.antt =====
-- The energy hangover of `BrowserAudioVad` over whole frames: how long sound alone keeps a frame
-- voiced.
use voice_elf.Prelude.{
  ℕ, zero, suc, ◌-◌, ◌≤◌, ◌≡◌, refl, subst, ap, ◌∙◌, Bool, true, false, not, ◌&&◌, Bool-cases, inl,
  inr, if◌then◌else◌, if_intro, List, [], ◌∷◌, leb, drop, arith,
}
use voice_elf.Prelude.Int.{ℤ}
use voice_elf.Prelude.Float.{Floats}
use voice_elf.Vad.Features.{rms_level}
use voice_elf.Vad.Gate.{accepts_active_energy, has, flag_speech_ended}
use voice_elf.Vad.Gate
use voice_elf.Vad.Detector.{
  Detector, Silero, judge, bridge, sat16, predict_speech, update_noise_floor, frame_is_speech_like,
  classify_voiced, gate_frame, route_frame, deliver, remember, push_frame,
}

module _ {F32 F64 Net : Type 0} (fl : Floats F32 F64) (silero : Silero F32 Net) where
  -- What `push_frame` computes before the gate's step: the detector, whether the frame is voiced, and
  -- whether the model confirms it.
  abbrev pub classified : Detector F32 Net → List ℤ → Detector F32 Net × (Bool × Bool)
  classified d frame =
      let level = rms_level fl frame in
      let (d₁, probability) = predict_speech fl silero (record d { input_level = level }) frame in
      let d₂ =
        if not (accepts_active_energy d₁.gate) && fl.f32.lt probability (fl.f32.lit 3 2)
        then update_noise_floor fl silero d₁ level
        else d₁ in
      let (d₃, speech_like) = frame_is_speech_like fl silero d₂ frame level in
      classify_voiced fl silero d₃ probability level speech_like d₃.acoustic_voice

  push_frame-classified :
      (d : Detector F32 Net) (frame : List ℤ)
      → let (x, (voiced, confirmed)) = classified d frame in
        let (y, flags) = gate_frame fl silero x x.acoustic_override voiced confirmed in
        push_frame fl silero d frame
        ≡ route_frame fl silero
            (record y { acoustic_override = false; acoustic_voice = false })
            frame
            (rms_level fl frame)
            flags
  unfolding push_frame classify_voiced bridge
  push_frame-classified d frame = refl

  judge_run :
      (d : Detector F32 Net) (noisy h c : Bool)
      → (judge fl silero d noisy h c).0.model_silence_run ≡ d.model_silence_run
  unfolding judge
  judge_run d noisy h c = ground arith

  speech_like_run :
      (d : Detector F32 Net) (frame : List ℤ) (level : F32)
      → (frame_is_speech_like fl silero d frame level).0.model_silence_run ≡ d.model_silence_run
  unfolding frame_is_speech_like
  speech_like_run d frame level =
      judge_run (record d { acoustic_override = false; acoustic_voice = false }) _ _ _

  classify_run :
      (d : Detector F32 Net) (p level : F32) (s o : Bool)
      → let (x, (voiced, confirmed)) = classify_voiced fl silero d p level s o in
        confirmed ≡ false
        → (x.model_silence_run ≡ sat16 d.model_silence_run)
          × (voiced ≡ true → leb (sat16 d.model_silence_run) 6 ≡ true)
  unfolding classify_voiced bridge
  classify_run d p level s o h = (ground arith, λ e. ground arith)

  classified_run :
      (d : Detector F32 Net) (frame : List ℤ)
      → (classified d frame).1.1 ≡ false
      → ((classified d frame).0.model_silence_run ≡ sat16 d.model_silence_run)
        × ((classified d frame).1.0 ≡ true → leb (sat16 d.model_silence_run) 6 ≡ true)
  unfolding predict_speech update_noise_floor
  classified_run d frame h =
      let level = rms_level fl frame in
      let start = record d { input_level = level } in
      let (d₁, probability) = predict_speech fl silero start frame in
      let quiet = not (accepts_active_energy d₁.gate) && fl.f32.lt probability (fl.f32.lit 3 2) in
      let d₂ = if quiet then update_noise_floor fl silero d₁ level else d₁ in
      let same : d₂.model_silence_run ≡ d.model_silence_run =
        if_intro (λ (x : Detector F32 Net). x.model_silence_run ≡ d.model_silence_run) quiet refl
          refl in
      let d₃ = (frame_is_speech_like fl silero d₂ frame level).0 in
      let e : d₃.model_silence_run ≡ d.model_silence_run = speech_like_run d₂ frame level ∙ same in
      subst
        (λ (n : ℕ).
          ((classified d frame).0.model_silence_run ≡ sat16 n)
          × ((classified d frame).1.0 ≡ true → leb (sat16 n) 6 ≡ true))
        e (classify_run d₃ probability level _ _ h)

  -- The frame ends no segment.
  abbrev pub GoesOn : Detector F32 Net → List ℤ → Type 0
  GoesOn d frame =
      has (Gate.process (classified d frame).0.gate (classified d frame).1.0).1 flag_speech_ended
      ≡ false

  push_frame_run :
      (d : Detector F32 Net) (frame : List ℤ)
      → GoesOn d frame
      → (push_frame fl silero d frame).model_silence_run ≡ (classified d frame).0.model_silence_run
  unfolding gate_frame route_frame deliver remember
  push_frame_run d frame g =
      ap (λ x. x.model_silence_run) (push_frame-classified d frame) ∙ ground arith

  -- The verdicts on frames that are pushed one after the other.
  abbrev pub verdicts : Detector F32 Net → List (List ℤ) → List Bool
  verdicts d [] = []
  verdicts d (frame ∷ frames) =
      (classified d frame).1.0 ∷ verdicts (push_frame fl silero d frame) frames

  -- The model confirms none of the frames, and none of them ends a segment.
  abbrev pub Unconfirmed : Detector F32 Net → List (List ℤ) → Type 0
  Unconfirmed d [] = Unit {0}
  Unconfirmed d (frame ∷ frames) =
      ((classified d frame).1.1 ≡ false)
      × GoesOn d frame
      × Unconfirmed (push_frame fl silero d frame) frames

  abbrev pub AllFalse : List Bool → Type 0
  AllFalse [] = Unit {0}
  AllFalse (b ∷ bs) = (b ≡ false) × AllFalse bs

  exhausted :
      (d : Detector F32 Net) (frames : List (List ℤ))
      → Unconfirmed d frames
      → 6 ≤ d.model_silence_run
      → AllFalse (verdicts d frames)
  exhausted d [] u h = tt
  exhausted d (frame ∷ frames) u h =
      let (run, small) = classified_run d frame u.0 in
      let next = push_frame_run d frame u.1 ∙ run in
      (
        elim (Bool-cases (classified d frame).1.0) [
          | inl e ↦ absurd (ground (arith, small e, h))
          | inr e ↦ e
        ],
        exhausted (push_frame fl silero d frame) frames u.2 (omega (arith, next, h)),
      )

  limit_from :
      (k : ℕ) (d : Detector F32 Net) (frames : List (List ℤ))
      → Unconfirmed d frames
      → 6 - d.model_silence_run ≡ k
      → AllFalse (drop k (verdicts d frames))
  limit_from zero d frames u h = exhausted d frames u (omega arith)
  limit_from (suc k) d [] u h = tt
  limit_from (suc k) d (frame ∷ frames) u h =
      let (run, small) = classified_run d frame u.0 in
      let next = push_frame_run d frame u.1 ∙ run in
      limit_from k (push_frame fl silero d frame) frames u.2 (omega (arith, next, h))

  -- Of whole frames that are pushed one after the other, none of which the model confirms and none of
  -- which ends a segment, every one after the sixth, with those counted before, is unvoiced, however
  -- loud it is: energy alone bridges at most six frames.
  pub Unconfirmed-limit :
      (d : Detector F32 Net) (frames : List (List ℤ))
      → Unconfirmed d frames
      → AllFalse (drop (6 - d.model_silence_run) (verdicts d frames))
  Unconfirmed-limit d frames u = limit_from (6 - d.model_silence_run) d frames u refl
