-- ===== src/Vad/Input.antt =====
-- `process_input` of web-vad/src/lib.rs: from the microphone's samples to the detector's queue.
use voice_elf.Prelude.{
  ◌++◌, ◌↔◌, ◌≤◌, ◌<◌, arith, ℕ, ◌≡◌, refl, ◌||◌, Bool, true, false, Bool-cases, inl, inr,
  if◌then◌else◌, ◌==◌, ltb, List, length, Option, none, some,
}
use voice_elf.Prelude.Float.{Floats}
use voice_elf.Vad.Resampler.{StreamingResampler, filter_all, process_samples}
use voice_elf.Vad.Detector.{max_input_samples, Detector, Silero, push_all}
use voice_elf.Vad.Detector.Invariant.{IsValid, push_all-IsValid}
use voice_elf.Vad.Resampler.Rounds.{Counts, process_samples_ends}

module _ {F32 F64 Net : Type 0} (fl : Floats F32 F64) (silero : Silero F32 Net) where
  abbrev pub Microphone : Type 0
  Microphone = Detector F32 Net × StreamingResampler F32 F64

  abbrev pub push_output :
      Detector F32 Net → Option (StreamingResampler F32 F64 × List F32) → Option (Microphone × Bool)
  push_output d none = none
  push_output d (some (r, output)) = some ((push_all fl silero d output, r), true)

  -- `fuel` is that of the resampler's loop.
  unfoldable pub process_input : ℕ → Microphone → List F32 → Option (Microphone × Bool)
  process_input fuel (d, r) input =
      if length input == 0 || ltb max_input_samples (length input)
      then some ((d, r), false)
      else push_output d (process_samples fl fuel r input)

  -- `process_input` accepts from 1 to 2048 samples. With a valid detector, if on the positions of a set,
  -- in which the first one is, each round of the resampler's loop before the end of the source stays in
  -- the set and brings a count of rounds down, as adding a positive ratio to a position that is not
  -- negative does, and the fuel is more than the count at the first position, then it returns: true
  -- with a valid detector if it accepts, and otherwise false with nothing changed.
  pub process_input_ends :
      (Reachable : F64 → Type 0) (rounds : F64 → ℕ) (fuel : ℕ) (d : Detector F32 Net)
      (r : StreamingResampler F32 F64) (input : List F32)
      → IsValid d
      → Counts fl Reachable rounds (r.source ++ (filter_all fl.f32 r.anti_alias input).1) r.ratio
      → Reachable r.position
      → rounds r.position < fuel
      → (after : Microphone) × (accepted : Bool) × (process_input fuel (d, r) input
          ≡ some (after, accepted))
        × ((accepted ≡ true) ↔ ((1 ≤ length input) × (length input ≤ 2048)))
        × IsValid after.0
        × (accepted ≡ false → after ≡ (d, r))
  unfolding process_input
  process_input_ends Reachable rounds fuel d r input v c i h =
      elim (Bool-cases (length input == 0 || ltb max_input_samples (length input))) [
        | inl refused ↦ (
          (d, r),
          false,
          rw refused refl,
          (λ e. absurd (ground arith), λ e. absurd (ground arith)),
          v,
          λ e. refl,
        )
        | inr good ↦
            let ((r', xs), e) = process_samples_ends fl Reachable rounds fuel r input c i h in
            (
              (push_all fl silero d xs, r'),
              true,
              rw (good, e) refl,
              (λ t. ground (arith, good), λ t. refl),
              push_all-IsValid fl silero d xs v,
              λ t. absurd (ground arith),
            )
      ]
