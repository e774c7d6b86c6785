-- ===== src/Pipeline/Config/Examples.antt =====
-- Configurations, with a parser that takes every identifier.
use voice_elf.Prelude.{◌≡◌, ◌↔◌, refl, Bool, true}
use voice_elf.Prelude.Text.{Text, codes}
use voice_elf.Pipeline.Config.{SessionConfig, ok, normalize_config}
use voice_elf.Pipeline.Config.Normal.{IsNormal, lowered, normalize_config_iff}

abbrev any_uuid : Text → Bool
any_uuid id = true

abbrev shouted : SessionConfig
shouted = record {
  source_language = codes "EN";
  target_language = codes "ZH";
  voice = codes "Ryan";
  max_utterance_seconds = 20;
}

accepted : normalize_config any_uuid shouted ≡ ok (lowered any_uuid shouted)
unfolding normalize_config voice_elf.Pipeline.Config.check_config
    voice_elf.Pipeline.Config.languages voice_elf.Pipeline.Config.is_custom_voice
    voice_elf.Pipeline.Config.is_provider_voice
accepted = refl

normalize_config_iff_example :
    (normalize_config any_uuid shouted ≡ ok (lowered any_uuid shouted)) ↔ (
      (lowered any_uuid shouted ≡ lowered any_uuid shouted)
      × IsNormal any_uuid (lowered any_uuid shouted))
normalize_config_iff_example = normalize_config_iff any_uuid shouted (lowered any_uuid shouted)
