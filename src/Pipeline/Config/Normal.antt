-- ===== src/Pipeline/Config/Normal.antt =====
-- What `normalize_config` accepts.
use voice_elf.Prelude.{◌∙◌, sym, ◌≤◌, ◌≡◌, ◌↔◌, refl, Bool, true, false, ◌||◌, arith, ap}
use voice_elf.Prelude.Text.{Text, member, text_eq, to_ascii_lowercase, lower_idempotent}
use voice_elf.Pipeline.Config.{
  SessionConfig, ok, auto, languages, is_provider_voice, is_custom_voice, check_config,
  normalize_config,
}

module _ (parse_uuid : Text → Bool) where
  -- A configuration that the pipeline may run with.
  pub record IsNormal (c : SessionConfig) : Type 0 where
    pub source : member c.source_language languages ≡ true
    pub target : member c.target_language languages ≡ true
    pub target_fixed : text_eq c.target_language auto ≡ false
    pub voice : (is_custom_voice parse_uuid c.voice || is_provider_voice c.voice) ≡ true
    pub duration_low : 5 ≤ c.max_utterance_seconds
    pub duration_high : c.max_utterance_seconds ≤ 20

  -- The lowercased configuration.
  abbrev pub lowered : SessionConfig → SessionConfig
  lowered c = record c {
    source_language = to_ascii_lowercase c.source_language;
    target_language = to_ascii_lowercase c.target_language;
    voice = to_ascii_lowercase c.voice;
  }

  lowered_twice : (c : SessionConfig) → lowered (lowered c) ≡ lowered c
  lowered_twice c =
      rw
        (
          lower_idempotent c.source_language,
          lower_idempotent c.target_language,
          lower_idempotent c.voice,
        )
        refl

  check_ok : (c : SessionConfig) → IsNormal c → check_config parse_uuid c ≡ ok c
  unfolding check_config
  check_ok c n = ground arith

  check-IsNormal : (c n : SessionConfig) → check_config parse_uuid c ≡ ok n → (n ≡ c) × IsNormal c
  unfolding check_config
  check-IsNormal c n e = ground arith

  -- Exactly the configurations that are normal once lowercased are accepted, and the result is the
  -- lowercased configuration.
  pub normalize_config_iff :
      (c n : SessionConfig)
      → (normalize_config parse_uuid c ≡ ok n) ↔ ((n ≡ lowered c) × IsNormal (lowered c))
  unfolding normalize_config
  normalize_config_iff c n =
      (check-IsNormal (lowered c) n, λ h. check_ok (lowered c) h.1 ∙ ap ok (sym h.0))

  -- An accepted configuration, normalised again, is accepted unchanged.
  pub normalize_config_idempotent :
      (c n : SessionConfig)
      → normalize_config parse_uuid c ≡ ok n
      → normalize_config parse_uuid n ≡ ok n
  normalize_config_idempotent c n e =
      let (same, normal) = (normalize_config_iff c n).0 e in
      let again : lowered n ≡ n = ap lowered same ∙ lowered_twice c ∙ sym same in
      (normalize_config_iff n n).1 (sym again, rw (again, same) normal)
