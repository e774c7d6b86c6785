-- ===== src/Vad/Gate/Examples.antt =====
-- The gate at concrete inputs.
use voice_elf.Prelude.{◌+◌, ◌≡◌, refl, true, false, [], ◌∷◌, replicate, arith}
use voice_elf.Vad.Gate.{SpeechGate, new, process, run, flags_of, flag_speech_ended}
use voice_elf.Vad.Gate.Protocol.{Edges, process-Edges}
use voice_elf.Vad.Gate.Bounds.{IsValid, new-IsValid, process-IsValid}
use voice_elf.Vad.Gate.Runs.{
  some_has, trailing, Alternates, flags_of-Alternates, run_counts, run_not_cut, run_ends,
  run_silence_ends,
}

abbrev opened : SpeechGate
opened = (process (new 20 true) true).0

opened-IsValid : IsValid opened
opened-IsValid = process-IsValid (new 20 true) true (new-IsValid 20 true)

opened_speaking : opened.speaking ≡ true
unfolding process new
opened_speaking = refl

first_flags : flags_of (new 20 true) (false ∷ true ∷ true ∷ []) ≡ 0 ∷ 11 ∷ 10 ∷ []
unfolding flags_of process new
first_flags = refl

process-Edges_example : Edges (new 20 true) opened true (process (new 20 true) true).1
process-Edges_example = process-Edges (new 20 true) true

process-IsValid_example : IsValid (process opened false).0
process-IsValid_example = process-IsValid opened false opened-IsValid

flags_of-Alternates_example : Alternates opened.speaking (flags_of opened (true ∷ false ∷ []))
flags_of-Alternates_example = flags_of-Alternates opened (true ∷ false ∷ [])

run_counts_example :
    ((run opened (true ∷ false ∷ [])).speaking ≡ true)
    × ((run opened (true ∷ false ∷ [])).active_frames ≡ opened.active_frames + 2)
    × ((run opened (true ∷ false ∷ [])).silence_run
        ≡ trailing opened.silence_run (true ∷ false ∷ []))
unfolding flags_of process new
run_counts_example = run_counts opened (true ∷ false ∷ []) opened-IsValid opened_speaking refl

run_not_cut_example : some_has flag_speech_ended (flags_of opened (true ∷ false ∷ [])) ≡ false
unfolding process new
run_not_cut_example =
    run_not_cut opened (true ∷ false ∷ []) opened-IsValid opened_speaking (omega arith)
      (omega arith)

run_ends_example : some_has flag_speech_ended (flags_of opened (replicate 624 true)) ≡ true
unfolding process new
run_ends_example = run_ends opened (replicate 624 true) opened-IsValid opened_speaking (omega arith)

run_silence_ends_example : some_has flag_speech_ended (flags_of opened (replicate 88 false)) ≡ true
unfolding process new
run_silence_ends_example = run_silence_ends opened 88 opened-IsValid opened_speaking (omega arith)
