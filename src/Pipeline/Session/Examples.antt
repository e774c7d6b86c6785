-- ===== src/Pipeline/Session/Examples.antt =====
-- A short conversation: a segment is opened, replaced, and ended.
use voice_elf.Prelude.{Bool, true, false, List, [], ◌∷◌, none}
use voice_elf.Prelude.Int.{ℤ, pos}
use voice_elf.Prelude.Sample.{integer_floats}
use voice_elf.Prelude.Text.{Text}
use voice_elf.Audio.Voice.{Biquad, VoiceAudioProcessor}
use voice_elf.Pipeline.Config.{default}
use voice_elf.Pipeline.Session.Types.{
  Session, Answers, PipelineInput, event, audio, start, end_segment, flush,
}
use voice_elf.Pipeline.Session.Loop.{run}
use voice_elf.Pipeline.Session.Admissible.{Ensures, IsValid, GoodEffect}
use voice_elf.Pipeline.Session.Invariant.{run-Ensures}
use voice_elf.Pipeline.Session.Closing.{Balanced}
use voice_elf.Pipeline.Session.Ledger.{run-Balanced}

abbrev any_uuid : Text → Bool
any_uuid id = true

abbrev still : Biquad ℤ
still = record {
  b0 = pos 1;
  b1 = pos 0;
  b2 = pos 0;
  a1 = pos 0;
  a2 = pos 0;
  x1 = pos 0;
  x2 = pos 0;
  y1 = pos 0;
  y2 = pos 0;
}

abbrev processor : VoiceAudioProcessor ℤ
processor = record {
  first_stage = still;
  second_stage = still;
  processed_samples = 0;
  fade_in_samples = 160;
}

abbrev calm : Answers
calm = record {
  has_database = true;
  store_ok = true;
  push_ok = true;
  worker_ok = true;
  elapsed_samples = 0;
}

abbrev fresh_session : Session ℤ ℤ
fresh_session = record { config = default; active = none; seen = [] }

abbrev conversation : List (PipelineInput × Answers)
conversation =
    (event (start 1 none default), calm)
    ∷ (event (start 2 none default), calm)
    ∷ (audio (0 ∷ 1 ∷ []), calm)
    ∷ (event (end_segment 2 false none), calm)
    ∷ (event flush, calm)
    ∷ []

run-Ensures_example :
    Ensures
      (IsValid any_uuid)
      (GoodEffect any_uuid)
      (run integer_floats any_uuid processor fresh_session conversation)
run-Ensures_example = run-Ensures integer_floats any_uuid processor fresh_session conversation tt

run-Balanced_example :
    Balanced 2 fresh_session (run integer_floats any_uuid processor fresh_session conversation)
run-Balanced_example =
    run-Balanced integer_floats any_uuid processor 2 fresh_session conversation tt
