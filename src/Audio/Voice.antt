-- ===== src/Audio/Voice.antt =====
-- `Biquad`, `VoiceAudioProcessor` and `SpeechQuality` of server/src/audio.rs, over floating-point
-- arithmetic as a parameter.
pub mod Chunks
pub mod Counts
pub mod Equation
use voice_elf.Prelude.{
  ℕ, zero, suc, ◌+◌, ◌-◌, ◌*◌, ◌/◌, min, max, Bool, true, false, ◌&&◌, leb, ltb, if◌then◌else◌,
  List, [], ◌∷◌, length, take, drop,
}
use voice_elf.Prelude.Int.{ℤ, pos, negsuc}
use voice_elf.Prelude.Float.{Float, Floats}
use voice_elf.Vad.Features.{frame_crossings, mean}
use voice_elf.Audio.Pcm.{frame_samples}

-- `saturating_add(1)` on a u32 and on a 64-bit usize
abbrev sat32 : ℕ → ℕ
sat32 n = min (n + 1) 4294967295

abbrev sat64 : ℕ → ℕ
sat64 n = min (n + 1) 18446744073709551615

pub record Biquad (R : Type 0) : Type 0 where
  pub b0 : R
  pub b1 : R
  pub b2 : R
  pub a1 : R
  pub a2 : R
  pub x1 : R
  pub x2 : R
  pub y1 : R
  pub y2 : R

-- The processor's two stages are fields.
pub record VoiceAudioProcessor (R : Type 0) : Type 0 where
  pub first_stage : Biquad R
  pub second_stage : Biquad R
  pub processed_samples : ℕ
  pub fade_in_samples : ℕ

module _ {R : Type 0} (f : Float R) where
  open f use {lit, of_ℤ, of_ℕ, add, sub, mul, div, min_of, clamp, to_i16, round}

  unfoldable pub biquad : Biquad R → R → Biquad R × R
  biquad s input =
      let out =
        sub (sub (add (add (mul s.b0 input) (mul s.b1 s.x1)) (mul s.b2 s.x2)) (mul s.a1 s.y1))
          (mul s.a2 s.y2) in
      (record s { x2 = s.x1; x1 = input; y2 = s.y1; y1 = out }, out)

  -- The body of the loop of `process`, for one sample.
  unfoldable pub process_sample : VoiceAudioProcessor R → ℤ → VoiceAudioProcessor R × ℤ
  process_sample p sample =
      let (s₁, once) = biquad p.first_stage (of_ℤ sample) in
      let (s₂, twice) = biquad p.second_stage once in
      let fade = min_of (div (of_ℕ p.processed_samples) (of_ℕ p.fade_in_samples)) (lit 1 0) in
      let filtered = mul twice fade in
      (
        record p {
          first_stage = s₁;
          second_stage = s₂;
          processed_samples = sat64 p.processed_samples;
        },
        to_i16 (clamp (round filtered) (of_ℤ (negsuc 32767)) (of_ℤ (pos 32767))),
      )

  unfoldable pub process : VoiceAudioProcessor R → List ℤ → VoiceAudioProcessor R × List ℤ
  process p [] = (p, [])
  process p (x ∷ xs) =
      let (p', y) = process_sample p x in let (p'', ys) = process p' xs in (p'', y ∷ ys)

pub record SpeechQuality (F32 : Type 0) : Type 0 where
  pub total_frames : ℕ
  pub audible_speech_frames : ℕ
  pub peak_frame_rms : F32

unfoldable pub accepts_asr : {F32 : Type 0} → SpeechQuality F32 → Bool
accepts_asr q = leb 3 q.audible_speech_frames

module _ {F32 F64 : Type 0} (fl : Floats F32 F64) where
  unfoldable pub no_quality : SpeechQuality F32
  no_quality = record {
    total_frames = 0;
    audible_speech_frames = 0;
    peak_frame_rms = fl.f32.lit 0 0;
  }

  square_sum : F64 → F64 → List ℤ → F64
  square_sum centre acc [] = acc
  square_sum centre acc (x ∷ xs) =
      let centred = fl.f64.sub (fl.f64.of_ℤ x) centre in
      square_sum centre (fl.f64.add acc (fl.f64.mul centred centred)) xs

  -- The level and the crossing rate of a frame.
  unfoldable pub frame_features : List ℤ → F32 × F32
  unfolding square_sum
  frame_features frame = if ltb (length frame) 2 then (fl.f32.lit 0 0, fl.f32.lit 0 0) else (
    fl.f32.div
        (fl.narrow (
          fl.f64.sqrt (
            fl.f64.div (square_sum (mean fl.f64 frame) (fl.f64.lit 0 0) frame)
              (fl.f64.of_ℕ (length frame)))))
        (fl.f32.of_ℤ (pos 32767)),
    fl.f32.div (fl.f32.of_ℕ (frame_crossings fl.f64 frame)) (fl.f32.of_ℕ (length frame - 1)),
  )

  abbrev pub is_audible : F32 × F32 → Bool
  is_audible r =
      fl.f32.le (fl.f32.lit 1 2) r.0
      && (fl.f32.le (fl.f32.lit 15 3) r.1 && fl.f32.le r.1 (fl.f32.lit 32 2))

  unfoldable pub observe_frame : SpeechQuality F32 → List ℤ → SpeechQuality F32
  observe_frame q frame =
      let features = frame_features frame in
      record q {
        total_frames = sat32 q.total_frames;
        peak_frame_rms = fl.f32.max_of q.peak_frame_rms features.0;
        audible_speech_frames =
            if is_audible features then sat32 q.audible_speech_frames else q.audible_speech_frames;
      }

  -- `chunks_exact(512)`, by the number of whole chunks: a shorter chunk at the end is left out.
  observe_chunks : ℕ → SpeechQuality F32 → List ℤ → SpeechQuality F32
  observe_chunks zero q samples = q
  observe_chunks (suc n) q samples =
      observe_chunks n (observe_frame q (take frame_samples samples)) (drop frame_samples samples)

  unfoldable pub observe : SpeechQuality F32 → List ℤ → SpeechQuality F32
  unfolding observe_chunks
  observe q samples = observe_chunks (length samples / frame_samples) q samples

  unfoldable pub assess_speech_quality : List ℤ → SpeechQuality F32
  assess_speech_quality samples = observe no_quality samples
