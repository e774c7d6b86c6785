-- ===== src/Vad/Detector.antt =====
-- `BrowserAudioVad` of web-vad/src/lib.rs: a frame of samples is classified, fed to the gate and
-- routed to the output queue, behind the frames that preceded the start. The neural model (the
-- crate `lele` and the generated network) and the floating-point arithmetic are parameters.
mod State
mod Judging
pub mod Classified
pub mod Invariant
pub mod Stream
pub mod Brackets
pub mod Hum
pub mod Bridge
pub mod Drain
mod Examples
unfoldable pub use State.*
unfoldable pub use Judging.*
use voice_elf.Prelude.{
  ℕ, suc, ◌+◌, ◌-◌, ◌*◌, ◌≡◌, ◌||◌, ◌&&◌, not, Bool, true, false, List, [], ◌∷◌, ◌++◌, map, length,
  set, replicate, Option, none, some, bit_or, bit_and, min, leb, ltb, ◌==◌, if◌then◌else◌,
}
use voice_elf.Prelude.Int.{ℤ, pos}
use voice_elf.Prelude.Float.{Float, Floats}
use voice_elf.Vad.Features.{zero_crossing_rate, rms_level}
use voice_elf.Vad.Gate.{
  SpeechGate, has, accepts_active_energy, flag_speech_started, flag_speech_active,
  flag_speech_ended, flag_voiced, flag_forced_end,
}
use voice_elf.Vad.Gate

module _ {F32 F64 Net : Type 0} (fl : Floats F32 F64) (silero : Silero F32 Net) where
  open fl.f32 use {lit, lt, le, mul, add, sub, max_of, clamp}

  abbrev pub initial_noise_floor : F32
  initial_noise_floor = lit 2 3

  -- The detector that `new` makes.
  unfoldable pub initial_detector : ℕ → Bool → Detector F32 Net
  unfolding Gate.new
  initial_detector max_utterance_seconds enhanced = record {
    net = silero.fresh;
    model_state = blank 256 (lit 0 0);
    gate = Gate.new max_utterance_seconds enhanced;
    noise_floor = initial_noise_floor;
    model_silence_run = 0;
    segment_model_frames = 0;
    completed_model_frames = 0;
    enhanced_voice_filter = enhanced;
    hum_locked = false;
    hum_run = 0;
    hum_clear_run = 0;
    recovered_from_hum = false;
    acoustic_override = false;
    acoustic_voice = false;
    output = blank frame_samples (pos 0);
    output_level = lit 0 0;
    input_level = lit 0 0;
    frame = blank frame_samples (pos 0);
    frame_offset = 0;
    pre_roll = [];
    pre_roll_limit = if enhanced then enhanced_pre_roll_frames else pre_roll_frames;
    ready = [];
    segment_active = false;
  }

  unfoldable pub new : ℕ → ℕ → Bool → Option (Detector F32 Net)
  new max_utterance_seconds input_sample_rate enhanced =
      if leb 8000 input_sample_rate && leb input_sample_rate 192000
      then some (initial_detector max_utterance_seconds enhanced)
      else none

  unfoldable pub route_frame : Detector F32 Net → List ℤ → F32 → ℕ → Detector F32 Net
  route_frame d frame level flags =
      let d' = deliver d frame level flags in
      if has flags flag_speech_ended
      then record d' {
        segment_active = false;
        pre_roll = [];
        net = silero.fresh;
        model_state = map (λ _. lit 0 0) d'.model_state;
        model_silence_run = 0;
        noise_floor = initial_noise_floor;
        recovered_from_hum = false;
        acoustic_override = false;
        acoustic_voice = false;
      }
      else d'

  unfoldable pub take_next : Detector F32 Net → List (AudioFrame F32) → Detector F32 Net × ℕ
  take_next d [] = (d, 0)
  take_next d (f ∷ rest) = (
    record d { ready = rest; output = f.samples; output_level = f.level },
    bit_or flag_frame_ready f.flags,
  )

  unfoldable pub next_frame : Detector F32 Net → Detector F32 Net × ℕ
  next_frame d = take_next d d.ready

  unfoldable pub reset : Detector F32 Net → Detector F32 Net
  unfolding Gate.reset
  reset d = record d {
    gate = Gate.reset d.gate;
    net = silero.fresh;
    model_state = map (λ _. lit 0 0) d.model_state;
    noise_floor = initial_noise_floor;
    model_silence_run = 0;
    segment_model_frames = 0;
    completed_model_frames = 0;
    hum_locked = false;
    hum_run = 0;
    hum_clear_run = 0;
    recovered_from_hum = false;
    acoustic_override = false;
    acoustic_voice = false;
    output = map (λ _. pos 0) d.output;
    output_level = lit 0 0;
    input_level = lit 0 0;
    frame = map (λ _. pos 0) d.frame;
    frame_offset = 0;
    pre_roll = [];
    ready = [];
    segment_active = false;
  }

  first_or : F32 → List F32 → F32
  first_or d [] = d
  first_or d (x ∷ xs) = x

  -- `predict_speech`: the probability, and the network's new state.
  unfoldable pub predict_speech : Detector F32 Net → List ℤ → Detector F32 Net × F32
  unfolding first_or
  predict_speech d frame =
      let ((out, next_state), net') = silero.forward d.net (map fl.f32.of_ℤ frame) d.model_state in
      (record d { net = net'; model_state = next_state }, first_or (lit 0 0) out)

  -- The gate's step of `push_resampled`, and the counters of frames that the model confirmed.
  unfoldable pub gate_frame : Detector F32 Net → Bool → Bool → Bool → Detector F32 Net × ℕ
  gate_frame d acoustic_override voiced model_voiced =
      let (gate', flags) = Gate.process d.gate voiced in
      let started = has flags flag_speech_started in
      let counted : ℕ =
        if started
        then (if acoustic_override then hum_clear_frames else 0)
        else d.segment_model_frames in
      let counted' : ℕ =
        if model_voiced && (d.segment_active || started) then sat32 counted else counted in
      let completed : ℕ = if started then 0 else d.completed_model_frames in
      (
        record d {
          gate = gate';
          segment_model_frames = counted';
          completed_model_frames = if has flags flag_speech_ended then counted' else completed;
        },
        flags,
      )

  -- What `push_resampled` does with a whole frame.
  unfoldable pub push_frame : Detector F32 Net → List ℤ → Detector F32 Net
  push_frame d frame =
      let level = rms_level fl frame in
      let (d₁, probability) = predict_speech (record d { input_level = level }) frame in
      let d₂ =
        if not (accepts_active_energy d₁.gate) && lt probability (lit 3 2)
        then update_noise_floor fl silero d₁ level
        else d₁ in
      let (d₃, speech_like) = frame_is_speech_like fl silero d₂ frame level in
      let (d₄, (voiced, model_voiced)) =
        classify_voiced fl silero d₃ probability level speech_like d₃.acoustic_voice in
      let (d₅, flags) = gate_frame d₄ d₃.acoustic_override voiced model_voiced in
      route_frame (record d₅ { acoustic_override = false; acoustic_voice = false }) frame level
        flags

  unfoldable pub push_resampled : Detector F32 Net → ℤ → Detector F32 Net
  push_resampled d sample =
      let frame = set d.frame d.frame_offset sample in
      if suc d.frame_offset == frame_samples
      then push_frame (record d { frame = frame; frame_offset = 0 }) frame
      else record d { frame = frame; frame_offset = suc d.frame_offset }

  unfoldable pub float_to_pcm16 : F32 → ℤ
  float_to_pcm16 sample =
      let sample' = clamp sample (sub (lit 0 0) (lit 1 0)) (lit 1 0) in
      if lt sample' (lit 0 0)
      then fl.f32.to_i16 (mul sample' (lit 32768 0))
      else fl.f32.to_i16 (mul sample' (lit 32767 0))

  -- The loop of `process_input` over the samples that the resampler returned.
  unfoldable pub push_all : Detector F32 Net → List F32 → Detector F32 Net
  push_all d [] = d
  push_all d (x ∷ xs) = push_all (push_resampled d (float_to_pcm16 x)) xs
