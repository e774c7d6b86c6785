-- ===== src/Audio/Voice/Equation.antt =====
-- `Biquad::process` and `VoiceAudioProcessor::process` of server/src/audio.rs as difference equations.
use voice_elf.Prelude.{length, suc, ℕ, ◌+◌, min, ◌≡◌, refl, ap, List, [], ◌∷◌, map}
use voice_elf.Prelude.Int.{ℤ, pos, negsuc}
use voice_elf.Prelude.Float.{Float}
use voice_elf.Audio.Voice.{Biquad, VoiceAudioProcessor, biquad, process, process_sample}

module _ {R : Type 0} (f : Float R) where
  open f use {lit, of_ℤ, of_ℕ, add, sub, mul, div, min_of, clamp, to_i16, round}

  -- y₀ = b0 x₀ + b1 x₁ + b2 x₂ - a1 y₁ - a2 y₂ at every sample, where the numbers before the first
  -- one are given: `Solves b0 b1 b2 a1 a2 x₁ x₂ y₁ y₂ xs ys`.
  abbrev pub Solves : R → R → R → R → R → R → R → R → R → List R → List R → Type 0
  Solves b0 b1 b2 a1 a2 x₁ x₂ y₁ y₂ [] [] = Unit {0}
  Solves b0 b1 b2 a1 a2 x₁ x₂ y₁ y₂ [] (y ∷ ys) = ⊥
  Solves b0 b1 b2 a1 a2 x₁ x₂ y₁ y₂ (x ∷ xs) [] = ⊥
  Solves b0 b1 b2 a1 a2 x₁ x₂ y₁ y₂ (x ∷ xs) (y ∷ ys) =
      (y ≡ sub (sub (add (add (mul b0 x) (mul b1 x₁)) (mul b2 x₂)) (mul a1 y₁)) (mul a2 y₂))
      × Solves b0 b1 b2 a1 a2 x x₁ y y₁ xs ys

  -- From what the stage has kept.
  abbrev pub Filters : Biquad R → List R → List R → Type 0
  Filters s = Solves s.b0 s.b1 s.b2 s.a1 s.a2 s.x1 s.x2 s.y1 s.y2

  -- Samples that fade in, by the number of samples before.
  abbrev pub faded : ℕ → ℕ → List R → List ℤ
  faded fade_in n [] = []
  faded fade_in n (y ∷ ys) =
      to_i16 (
        clamp (round (mul y (min_of (div (of_ℕ n) (of_ℕ fade_in)) (lit 1 0)))) (of_ℤ (negsuc 32767))
          (of_ℤ (pos 32767)))
      ∷ faded fade_in (min (n + 1) 18446744073709551615) ys

  -- What the filter returns is the input under the difference equations of its two stages, one
  -- behind the other, each going on from the samples that it kept, then faded in from the number of
  -- samples before, rounded and clamped.
  pub process-Filters :
      (p : VoiceAudioProcessor R) (xs : List ℤ)
      → (once : List R) × (twice : List R) × Filters p.first_stage (map of_ℤ xs) once
        × Filters p.second_stage once twice
        × ((process f p xs).1 ≡ faded p.fade_in_samples p.processed_samples twice)
  unfolding process process_sample biquad
  process-Filters p [] = ([], [], tt, tt, refl)
  process-Filters p (x ∷ xs) =
      let first = biquad f p.first_stage (of_ℤ x) in
      let second = biquad f p.second_stage first.1 in
      let (once, twice, h, k, e) = process-Filters (process_sample f p x).0 xs in
      (
        first.1 ∷ once,
        second.1 ∷ twice,
        (refl, h),
        (refl, k),
        ap (λ ys. (process_sample f p x).1 ∷ ys) e,
      )

  -- The filter returns as many samples as it was given.
  pub length-process :
      (p : VoiceAudioProcessor R) (xs : List ℤ) → length (process f p xs).1 ≡ length xs
  unfolding process
  length-process p [] = refl
  length-process p (x ∷ xs) = ap suc (length-process (process_sample f p x).0 xs)
