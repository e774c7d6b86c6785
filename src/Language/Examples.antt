-- ===== src/Language/Examples.antt =====
-- The terms and words of the tests in language_policy.rs, with ASCII letters and digits.
use voice_elf.Prelude.{◌≡◌, refl, true, false, [], ◌∷◌, none, arith}
use voice_elf.Prelude.Int.{pos}
use voice_elf.Prelude.Text.{codes, is_alphanumeric}
use voice_elf.Language.{LanguagePolicy, replace_matches, normalize_transcript, sanitize, fold_case}
use voice_elf.Language.Scan.{scan, replace_matches-scan}
use voice_elf.Language.Removal.{Absent, replace_matches-Absent}

abbrev policy : LanguagePolicy
policy = record {
  terms =
      record {
        source = codes "Kubernetes";
        variants = codes "k8s" ∷ [];
        target = codes "Kubernetes";
        priority = pos 100;
      }
      ∷ [];
  blocked =
      record {
        word = codes "secret";
        replacement = codes "***";
        whole_word = true;
        case_sensitive = false;
      }
      ∷ [];
}

applies_terms :
    normalize_transcript is_alphanumeric policy (codes "use k8s") ≡ codes "use Kubernetes"
unfolding normalize_transcript replace_matches voice_elf.Language.replace_from
    voice_elf.Language.use_match voice_elf.Language.is_ascii_word voice_elf.Language.is_boundary
applies_terms = refl

applies_blocks : sanitize is_alphanumeric policy (codes "Secret secretive") ≡ codes "*** secretive"
unfolding sanitize replace_matches voice_elf.Language.replace_from voice_elf.Language.use_match
    voice_elf.Language.is_boundary
applies_blocks = refl

-- With an empty replacement the word may form again from what stood round it.
forms_again :
    replace_matches is_alphanumeric (codes "ab") [] false false (codes "aabb") ≡ codes "ab"
unfolding replace_matches voice_elf.Language.replace_from voice_elf.Language.use_match
forms_again = refl

replace_matches-scan_example :
    replace_matches is_alphanumeric
      (codes "secret")
      (codes "***")
      false
      true
      (codes "Secret secretive")
    ≡ scan is_alphanumeric
        (codes "secret")
        (codes "***")
        false
        true
        none
        0
        (codes "Secret secretive")
replace_matches-scan_example =
    replace_matches-scan is_alphanumeric (codes "secret") (codes "***") false true
      (codes "Secret secretive") (omega arith)

replace_matches-Absent_example : Absent (fold_case false (codes "secret")) (
    fold_case false (
      replace_matches is_alphanumeric
        (codes "secret")
        (codes "***")
        false
        false
        (codes "Secret secretive")))
replace_matches-Absent_example =
    replace_matches-Absent is_alphanumeric (codes "secret") (codes "***") false
      (codes "Secret secretive") (omega arith) (omega arith)
      (refl, (refl, (refl, (refl, (refl, (refl, tt))))))
