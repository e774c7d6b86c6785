-- ===== src/Vad/Resampler/Examples.antt =====
-- A filter with three coefficients, over integers.
use voice_elf.Prelude.{ℕ, ◌≡◌, refl, List, [], ◌∷◌, none, some, arith}
use voice_elf.Prelude.Int.{ℤ, pos}
use voice_elf.Prelude.Sample.{integer_float}
use voice_elf.Vad.Resampler.{AntiAliasFilter, filter_all, reset_filter}
use voice_elf.Vad.Resampler.Filter.{
  weigh_all, latest, Holds, reset_filter-Holds, filter_all-weigh_all,
}

abbrev used_filter : AntiAliasFilter ℤ
used_filter = record {
  coefficients = pos 1 ∷ pos 2 ∷ pos 3 ∷ [];
  history = pos 7 ∷ pos 8 ∷ pos 9 ∷ [];
  cursor = 2;
}

abbrev input : List ℤ
input = pos 1 ∷ pos 10 ∷ pos 100 ∷ pos 1000 ∷ []

filter_all-weigh_all_example :
    let a = reset_filter integer_float used_filter in
    ((filter_all integer_float a input).1 ≡ weigh_all integer_float a.coefficients [] input)
    × Holds integer_float (filter_all integer_float a input).0 (latest integer_float [] input)
filter_all-weigh_all_example =
    filter_all-weigh_all integer_float (reset_filter integer_float used_filter) [] input
      (reset_filter-Holds integer_float used_filter refl (omega arith))

is_weighted :
    (filter_all integer_float (reset_filter integer_float used_filter) input).1
    ≡ pos 1 ∷ pos 12 ∷ pos 123 ∷ pos 1230 ∷ []
unfolding filter_all reset_filter voice_elf.Vad.Resampler.filter_sample voice_elf.Vad.Resampler.taps
    voice_elf.Prelude.Int.◌+ℤ◌ voice_elf.Prelude.Int.◌*ℤ◌
is_weighted = refl
