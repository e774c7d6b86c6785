-- ===== src/Vad/Detector/Classified.antt =====
-- What the classification of a frame leaves alone: the gate, the frames on their way and the frame
-- under construction change only in the gate's step and in `route_frame`.
use voice_elf.Prelude.{
  ap, if◌then◌else◌, ◌&&◌, not, if_intro, false, List, ℕ, ◌≡◌, refl, Bool, arith, ◌∙◌,
}
use voice_elf.Prelude.Float.{Floats}
use voice_elf.Vad.Gate.{SpeechGate, accepts_active_energy, has, flag_speech_started}
use voice_elf.Vad.Gate
use voice_elf.Vad.Detector.{
  bridge, judge, gate_frame, rms_level, route_frame, push_frame, ℤ, classify_voiced,
  frame_is_speech_like, update_noise_floor, predict_speech, Detector, Silero,
}

-- The fields that decide which frames are sent.
pub record SameRoute {F32 Net : Type 0} (d x : Detector F32 Net) : Type 0 where
  pub gate : x.gate ≡ d.gate
  pub pre_roll : x.pre_roll ≡ d.pre_roll
  pub limit : x.pre_roll_limit ≡ d.pre_roll_limit
  pub ready : x.ready ≡ d.ready
  pub active : x.segment_active ≡ d.segment_active
  pub frame : x.frame ≡ d.frame
  pub offset : x.frame_offset ≡ d.frame_offset
  pub enhanced : x.enhanced_voice_filter ≡ d.enhanced_voice_filter

module _ {F32 Net : Type 0} where
  same : (d : Detector F32 Net) → SameRoute d d
  same d = record {
    gate = refl;
    pre_roll = refl;
    limit = refl;
    ready = refl;
    active = refl;
    frame = refl;
    offset = refl;
    enhanced = refl;
  }

  chain : {d x y : Detector F32 Net} → SameRoute d x → SameRoute x y → SameRoute d y
  chain p q = record {
    gate = q.gate ∙ p.gate;
    pre_roll = q.pre_roll ∙ p.pre_roll;
    limit = q.limit ∙ p.limit;
    ready = q.ready ∙ p.ready;
    active = q.active ∙ p.active;
    frame = q.frame ∙ p.frame;
    offset = q.offset ∙ p.offset;
    enhanced = q.enhanced ∙ p.enhanced;
  }

  -- The gate after the frame, for some verdict on it, and the rest as before.
  pub record Gated (d x : Detector F32 Net) (voiced : Bool) (flags : ℕ) : Type 0 where
    pub step : (x.gate ≡ (Gate.process d.gate voiced).0) × (flags ≡ (Gate.process d.gate voiced).1)
    pub pre_roll : x.pre_roll ≡ d.pre_roll
    pub limit : x.pre_roll_limit ≡ d.pre_roll_limit
    pub ready : x.ready ≡ d.ready
    pub active : x.segment_active ≡ d.segment_active
    pub frame : x.frame ≡ d.frame
    pub offset : x.frame_offset ≡ d.frame_offset

module _ {F32 F64 Net : Type 0} (fl : Floats F32 F64) (silero : Silero F32 Net) where
  judge-SameRoute :
      (d : Detector F32 Net) (noisy h c : Bool) → SameRoute d (judge fl silero d noisy h c).0
  unfolding judge
  judge-SameRoute d noisy h c = ground arith

  frame_is_speech_like-SameRoute :
      (d : Detector F32 Net) (frame : List ℤ) (level : F32)
      → SameRoute d (frame_is_speech_like fl silero d frame level).0
  unfolding frame_is_speech_like
  frame_is_speech_like-SameRoute d frame level =
      let d' = record d { acoustic_override = false; acoustic_voice = false } in
      let cleared : SameRoute d d' = record {
        gate = refl;
        pre_roll = refl;
        limit = refl;
        ready = refl;
        active = refl;
        frame = refl;
        offset = refl;
        enhanced = refl;
      } in
      chain cleared (judge-SameRoute d' _ _ _)

  predict_speech-SameRoute :
      (d : Detector F32 Net) (frame : List ℤ) → SameRoute d (predict_speech fl silero d frame).0
  unfolding predict_speech
  predict_speech-SameRoute d frame = record {
    gate = refl;
    pre_roll = refl;
    limit = refl;
    ready = refl;
    active = refl;
    frame = refl;
    offset = refl;
    enhanced = refl;
  }

  update_noise_floor-SameRoute :
      (d : Detector F32 Net) (level : F32) → SameRoute d (update_noise_floor fl silero d level)
  unfolding update_noise_floor
  update_noise_floor-SameRoute d level = record {
    gate = refl;
    pre_roll = refl;
    limit = refl;
    ready = refl;
    active = refl;
    frame = refl;
    offset = refl;
    enhanced = refl;
  }

  classify_voiced-SameRoute :
      (d : Detector F32 Net) (p level : F32) (s o : Bool)
      → SameRoute d (classify_voiced fl silero d p level s o).0
  unfolding classify_voiced bridge
  classify_voiced-SameRoute d p level s o = record {
    gate = refl;
    pre_roll = refl;
    limit = refl;
    ready = refl;
    active = refl;
    frame = refl;
    offset = refl;
    enhanced = refl;
  }

  -- A whole frame: some verdict goes to the gate, whose flags route the frame; nothing else of the
  -- route changes before that.
  pub push_frame-Gated :
      (d : Detector F32 Net) (frame : List ℤ)
      → (x : Detector F32 Net) × (voiced : Bool) × (flags : ℕ) × Gated d x voiced flags
        × (push_frame fl silero d frame ≡ route_frame fl silero x frame (rms_level fl frame) flags)
  unfolding push_frame gate_frame
  push_frame-Gated d frame =
      let level = rms_level fl frame in
      let start = record d { input_level = level } in
      let (d₁, probability) = predict_speech fl silero start frame in
      let quiet = not (accepts_active_energy d₁.gate) && fl.f32.lt probability (fl.f32.lit 3 2) in
      let d₂ = if quiet then update_noise_floor fl silero d₁ level else d₁ in
      let (d₃, speech_like) = frame_is_speech_like fl silero d₂ frame level in
      let (d₄, (voiced, model_voiced)) =
        classify_voiced fl silero d₃ probability level speech_like d₃.acoustic_voice in
      let (d₅, flags) = gate_frame fl silero d₄ d₃.acoustic_override voiced model_voiced in
      let p₂ : SameRoute d₁ d₂ =
        if_intro (SameRoute d₁) quiet (update_noise_floor-SameRoute d₁ level) (same d₁) in
      let p₄ : SameRoute start d₄ = chain (predict_speech-SameRoute start frame) (
        chain p₂ (
          chain (frame_is_speech_like-SameRoute d₂ frame level)
            (classify_voiced-SameRoute d₃ probability level speech_like d₃.acoustic_voice))) in
      (
        record d₅ { acoustic_override = false; acoustic_voice = false },
        voiced,
        flags,
        record {
          step = (
            ap (λ (g : SpeechGate). (Gate.process g voiced).0) p₄.gate,
            ap (λ (g : SpeechGate). (Gate.process g voiced).1) p₄.gate,
          );
          pre_roll = p₄.pre_roll;
          limit = p₄.limit;
          ready = p₄.ready;
          active = p₄.active;
          frame = p₄.frame;
          offset = p₄.offset;
        },
        refl,
      )
