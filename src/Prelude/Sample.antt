-- ===== src/Prelude/Sample.antt =====
-- An arithmetic for the tests: integers in place of floating-point numbers, with the decimal places
-- of a literal left out.
use voice_elf.Prelude.Int.{ℤ, pos, pos_part, ltb_ℤ, ◌+ℤ◌, ◌-ℤ◌, ◌*ℤ◌}
use mathlib.Core.Bool.{not}
use voice_elf.Prelude.Tests.{if◌then◌else◌}
use voice_elf.Prelude.Float.{Float, Floats}

abbrev pub integer_float : Float ℤ
integer_float = record {
  lit = λ n k. pos n;
  of_ℤ = λ x. x;
  of_ℕ = λ n. pos n;
  add = ◌+ℤ◌;
  sub = ◌-ℤ◌;
  mul = ◌*ℤ◌;
  div = λ a b. a;
  sqrt = λ a. a;
  max_of = λ a b. if ltb_ℤ a b then b else a;
  min_of = λ a b. if ltb_ℤ a b then a else b;
  clamp = λ a lo hi. if ltb_ℤ a lo then lo else if ltb_ℤ hi a then hi else a;
  lt = ltb_ℤ;
  le = λ a b. not (ltb_ℤ b a);
  floor_usize = pos_part;
  to_i16 = λ a. a;
  round = λ a. a;
}

abbrev pub integer_floats : Floats ℤ ℤ
integer_floats = record { f32 = integer_float; f64 = integer_float; narrow = λ a. a }
