-- ===== src/Vad/Features.antt =====
-- What web-vad/src/lib.rs computes of one frame of samples: its level and its zero-crossing rate.
-- The server's audio.rs repeats the crossing count.
use voice_elf.Prelude.{
  ℕ, ◌-◌, ◌+◌, ◌≤◌, Bool, ◌&&◌, ◌||◌, if◌then◌else◌, List, [], ◌∷◌, length, ltb, arith,
}
use voice_elf.Prelude.Int.{ℤ, pos}
use voice_elf.Prelude.Float.{Float, Floats}

module _ {R : Type 0} (f : Float R) where
  open f use {of_ℤ, of_ℕ, add, sub, mul, div, sqrt, lt, le, lit}

  -- `frame.iter().map(|sample| *sample as f64).sum::<f64>()`
  abbrev pub sum : R → List ℤ → R
  sum acc [] = acc
  sum acc (x ∷ xs) = sum (add acc (of_ℤ x)) xs

  abbrev pub mean : List ℤ → R
  mean frame = div (sum (lit 0 0) frame) (of_ℕ (length frame))

  abbrev pub crosses : R → R → Bool
  crosses previous current =
      (lt previous (lit 0 0) && le (lit 0 0) current)
      || (le (lit 0 0) previous && lt current (lit 0 0))

  -- The loop over `frame[1..]`: the sign changes after `previous`.
  unfoldable pub crossings : R → R → List ℤ → ℕ
  crossings centre previous [] = 0
  crossings centre previous (x ∷ xs) =
      let current = sub (of_ℤ x) centre in
      (if crosses previous current then 1 else 0) + crossings centre current xs

  unfoldable pub frame_crossings : List ℤ → ℕ
  unfolding crossings
  frame_crossings [] = 0
  frame_crossings (x ∷ xs) = let centre = mean (x ∷ xs) in crossings centre (sub (of_ℤ x) centre) xs

  abbrev pub square_sum : R → R → List ℤ → R
  square_sum centre acc [] = acc
  square_sum centre acc (x ∷ xs) =
      let normalized = div (sub (of_ℤ x) centre) (of_ℤ (pos 32767)) in
      square_sum centre (add acc (mul normalized normalized)) xs

  crossings-le : (centre previous : R) (xs : List ℤ) → crossings centre previous xs ≤ length xs
  unfolding crossings
  crossings-le centre previous [] = omega arith
  crossings-le centre previous (x ∷ xs) =
      ground (arith, crossings-le centre (sub (of_ℤ x) centre) xs)

  -- A frame of n samples has at most n - 1 crossings, so the rate is a fraction of at most one.
  pub frame_crossings-lt : (x : ℤ) (xs : List ℤ) → frame_crossings (x ∷ xs) + 1 ≤ length (x ∷ xs)
  unfolding frame_crossings
  frame_crossings-lt x xs =
      omega (arith, crossings-le (mean (x ∷ xs)) (sub (of_ℤ x) (mean (x ∷ xs))) xs)

module _ {F32 F64 : Type 0} (fl : Floats F32 F64) where
  unfoldable pub zero_crossing_rate : List ℤ → F32
  zero_crossing_rate frame =
      if ltb (length frame) 2
      then fl.f32.lit 0 0
      else fl.f32.div (fl.f32.of_ℕ (frame_crossings fl.f64 frame)) (fl.f32.of_ℕ (length frame - 1))

  unfoldable pub rms_level : List ℤ → F32
  rms_level frame = fl.narrow (
      fl.f64.sqrt (
        fl.f64.div (square_sum fl.f64 (mean fl.f64 frame) (fl.f64.lit 0 0) frame)
          (fl.f64.of_ℕ (length frame))))
