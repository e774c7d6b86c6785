-- ===== src/Pipeline/Config.antt =====
-- `SessionConfig` of server/src/protocol.rs and `normalize_config` of server/src/pipeline/config.rs.
-- Texts are byte lists; the parser of the crate `uuid` is a parameter.
pub mod Normal
mod Examples
use voice_elf.Prelude.{
  ℕ, Bool, true, false, not, ◌&&◌, ◌||◌, if◌then◌else◌, ◌==◌, leb, List, [], ◌∷◌, Option, none,
  some, length,
}
use voice_elf.Prelude.Text.{
  Text, codes, text_eq, member, to_ascii_lowercase, is_alphanumeric, all_bytes, strip_prefix,
}

pub record SessionConfig : Type 0 where
  pub source_language : Text
  pub target_language : Text
  pub voice : Text
  pub max_utterance_seconds : ℕ

unfoldable pub default : SessionConfig
default = record {
  source_language = codes "auto";
  target_language = codes "zh";
  voice = codes "F1";
  max_utterance_seconds = 20;
}

pub data ConfigError : Type 0 where
  unsupported_source unsupported_target unsupported_voice : Text → ConfigError
  duration_out_of_range : ℕ → ConfigError

pub data Normalized : Type 0 where
  ok : SessionConfig → Normalized
  err : ConfigError → Normalized

abbrev pub auto : Text
auto = codes "auto"

unfoldable pub languages : List Text
languages =
    auto
    ∷ codes "zh"
    ∷ codes "en"
    ∷ codes "ja"
    ∷ codes "ko"
    ∷ codes "fr"
    ∷ codes "de"
    ∷ codes "es"
    ∷ codes "it"
    ∷ codes "pt"
    ∷ codes "ru"
    ∷ []

unfoldable pub is_provider_voice : Text → Bool
is_provider_voice voice =
    not (leb (length voice) 0)
    && leb (length voice) 64
    && all_bytes (λ c. is_alphanumeric c || c == b'_' || c == b'-') voice

module _ (parse_uuid : Text → Bool) where
  is_custom_id : Option Text → Bool
  is_custom_id none = false
  is_custom_id (some id) = parse_uuid id

  unfoldable pub is_custom_voice : Text → Bool
  unfolding is_custom_id
  is_custom_voice voice = is_custom_id (strip_prefix (codes "custom:") voice)

  -- The checks, in the order of the source, on the lowercased fields.
  unfoldable pub check_config : SessionConfig → Normalized
  check_config c =
      if not (member c.source_language languages)
      then err (unsupported_source c.source_language)
      else if text_eq c.target_language auto || not (member c.target_language languages)
      then err (unsupported_target c.target_language)
      else if not (is_custom_voice c.voice) && not (is_provider_voice c.voice)
      then err (unsupported_voice c.voice)
      else if not (leb 5 c.max_utterance_seconds && leb c.max_utterance_seconds 20)
      then err (duration_out_of_range c.max_utterance_seconds)
      else ok c

  unfoldable pub normalize_config : SessionConfig → Normalized
  normalize_config c = check_config (record c {
    source_language = to_ascii_lowercase c.source_language;
    target_language = to_ascii_lowercase c.target_language;
    voice = to_ascii_lowercase c.voice;
  })
