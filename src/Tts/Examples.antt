-- ===== src/Tts/Examples.antt =====
-- Two engines: the first fails before it sends anything.
use voice_elf.Prelude.{◌≡◌, ◌⊎◌, refl, true, false, List, [], ◌∷◌, some}
use voice_elf.Prelude.Int.{pos, negsuc}
use voice_elf.Prelude.Text.{Text, codes}
use voice_elf.Tts.{ok, TtsRequest, TtsEngine, Attempt, synthesize, engine_run, canonical_language}
use voice_elf.Tts.Choice.{
  OneOf, first_speaker, outcome, candidates_of, failures_of, synthesize-outcome, synthesize_custom,
}
use voice_elf.Tts.Chunks.{Delivered, synthesize-Delivered}

abbrev request : TtsRequest
request = record {
  text = codes "hello";
  language = codes "English";
  voice = codes "F1";
  reference_audio_path = some (codes "voice.wav");
}

abbrev broken : TtsEngine
broken = record {
  name = codes "primary";
  supports = λ language. true;
  supports_voice_clone = true;
  speaks = λ r. ([], false);
}

abbrev working : TtsEngine
working = record {
  name = codes "second";
  supports = λ language. true;
  supports_voice_clone = true;
  speaks = λ r.
      (record { samples = pos 1 ∷ negsuc 0 ∷ []; sample_rate = 24000; channels = 1 } ∷ [], true);
}

abbrev engines : List TtsEngine
engines = broken ∷ working ∷ []

synthesize-outcome_example :
    synthesize request 4 engines
    ≡ outcome request 4
        (first_speaker request 4 (canonical_language (codes "English")) engines)
        (canonical_language (codes "English"))
        (candidates_of request 4 (canonical_language (codes "English")) engines)
        (failures_of request 4 (canonical_language (codes "English")) engines)
synthesize-outcome_example = synthesize-outcome request 4 engines

synthesize_custom_example :
    ((synthesize request 4 engines).0 ≡ [])
    ⊎ ((e : TtsEngine) × (OneOf request 4 engines e
          × ((e.supports_voice_clone ≡ true)
              × ((synthesize request 4 engines).0 ≡ (engine_run request 4 e).chunks))))
synthesize_custom_example = synthesize_custom request 4 engines refl

synthesize-Delivered_example : (name : Text) × Delivered name 4 (synthesize request 4 engines).0
synthesize-Delivered_example = synthesize-Delivered request 4 engines

falls_back : (synthesize request 4 engines).1 ≡ ok
unfolding synthesize voice_elf.Tts.try_engines voice_elf.Tts.is_candidate engine_run
    voice_elf.Tts.play voice_elf.Tts.has_bad_metadata
falls_back = refl
