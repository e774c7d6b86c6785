-- ===== src/Prelude/Float.antt =====
-- The floating-point arithmetic that the program uses, as operations of a parameter: the hardware's
-- f32 and f64 are not defined here. `lt` and `le` are the primitive comparisons, so nothing is
-- assumed of NaN.
use voice_elf.Prelude.Int.{ℤ}
use Prim.Native.Nat.{ℕ}
use mathlib.Core.Bool.{Bool}

pub record Float (R : Type 0) : Type 0 where
  -- `lit n k` is the decimal literal n / 10 ^ k.
  pub lit : ℕ → ℕ → R
  pub of_ℤ : ℤ → R
  pub of_ℕ : ℕ → R
  pub add : R → R → R
  pub sub : R → R → R
  pub mul : R → R → R
  pub div : R → R → R
  pub sqrt : R → R
  pub max_of : R → R → R
  pub min_of : R → R → R
  pub clamp : R → R → R → R
  pub lt : R → R → Bool
  pub le : R → R → Bool
  -- Conversions with Rust's saturating `as`, after `floor` and after truncation.
  pub floor_usize : R → ℕ
  pub to_i16 : R → ℤ
  pub round : R → R

-- Both widths, and `as f32`.
pub record Floats (F32 F64 : Type 0) : Type 0 where
  pub f32 : Float F32
  pub f64 : Float F64
  pub narrow : F64 → F32
