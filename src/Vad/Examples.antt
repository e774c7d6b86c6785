-- ===== src/Vad/Examples.antt =====
-- Two samples from a microphone, over integers, with a ratio of three.
use voice_elf.Prelude.{
  ◌<◌, ◌++◌, ℕ, ◌≡◌, ◌↔◌, ◌≤◌, refl, Bool, true, false, List, [], ◌∷◌, length, some, arith,
}
use voice_elf.Prelude.Int.{ℤ, pos, ◌≤ℤ◌, pos_part, ◌-ℤ◌, ◌+ℤ◌}
use voice_elf.Prelude.Sample.{integer_floats, integer_float}
use voice_elf.Vad.Resampler.{filter_all, AntiAliasFilter, StreamingResampler}
use voice_elf.Vad.Resampler.Rounds.{Counts}
use voice_elf.Vad.Detector.{Detector, Silero, new, initial_detector}
use voice_elf.Vad.Detector.Invariant.{IsValid, new-IsValid}
use voice_elf.Vad.Input.{Microphone, process_input, process_input_ends}

abbrev steady_model : Silero ℤ ℕ
steady_model = record { fresh = 0; forward = λ net input state. ((pos 9 ∷ [], state), net) }

abbrev detector : Detector ℤ ℕ
detector = initial_detector integer_floats steady_model 20 false

is_made : new integer_floats steady_model 20 48000 false ≡ some detector
unfolding new
is_made = refl

abbrev resampler : StreamingResampler ℤ ℤ
resampler = record {
  anti_alias = record { coefficients = pos 1 ∷ []; history = pos 0 ∷ []; cursor = 0 };
  source = [];
  position = pos 0;
  ratio = pos 3;
}

-- What is left of a source of two samples.
abbrev left_of : ℤ → ℕ
left_of position = pos_part (pos 2 -ℤ position)

abbrev NotNegative : ℤ → Type 0
NotNegative position = pos 0 ≤ℤ position

left_of-Counts :
    (source : List ℤ) → length source ≡ 2 → Counts integer_floats NotNegative left_of source (pos 3)
unfolding ◌+ℤ◌ ◌-ℤ◌
left_of-Counts source e position i more = (ground arith, ground arith)

two_samples :
    length (
      resampler.source
      ++ (filter_all integer_float resampler.anti_alias (pos 100 ∷ pos 200 ∷ [])).1)
    ≡ 2
unfolding filter_all voice_elf.Vad.Resampler.filter_sample
two_samples = refl

at_first : left_of (pos 0) < 3
unfolding ◌-ℤ◌
at_first = omega arith

process_input_ends_example :
    let input = pos 100 ∷ pos 200 ∷ [] in
    (after : Microphone integer_floats steady_model) × (accepted : Bool) × (process_input
        integer_floats steady_model 3
        (detector, resampler)
        input
      ≡ some (after, accepted))
    × ((accepted ≡ true) ↔ ((1 ≤ length input) × (length input ≤ 2048)))
    × IsValid after.0
    × (accepted ≡ false → after ≡ (detector, resampler))
process_input_ends_example =
    process_input_ends integer_floats steady_model NotNegative left_of 3 detector resampler
      (pos 100 ∷ pos 200 ∷ []) (new-IsValid integer_floats steady_model 20 48000 false _ is_made)
      (left_of-Counts _ two_samples) (omega arith) at_first
