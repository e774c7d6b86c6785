-- ===== src/Language/Removal.antt =====
-- When a blocked word is gone after the replacement.
use voice_elf.Prelude.{
  ℕ, zero, suc, ◌-◌, ◌≤◌, ◌≡◌, refl, ap, ◌∙◌, Bool, true, false, ◌||◌, ◌==◌, [], ◌∷◌, ◌++◌, length,
  Option, none, some, arith, Bool-cases, inl, inr, length-map,
}
use voice_elf.Prelude.Text.{Text}
use voice_elf.Language.{fold_char, fold_case, starts_with, replace_matches}
use voice_elf.Language.Scan.{scan, replace_matches-scan}

-- The needle stands nowhere in the text.
abbrev pub Absent : Text → Text → Type 0
Absent needle [] = starts_with needle [] ≡ false
Absent needle (c ∷ cs) = (starts_with needle (c ∷ cs) ≡ false) × Absent needle cs

abbrev pub occurs : ℕ → Text → Bool
occurs c [] = false
occurs c (x ∷ xs) = c == x || occurs c xs

-- No character of the first text stands in the second.
abbrev pub Apart : Text → Text → Type 0
Apart [] t = Unit {0}
Apart (c ∷ cs) t = (occurs c t ≡ false) × Apart cs t

module _ (unicode_alphanumeric : ℕ → Bool) (needle replacement : Text) (case_sensitive : Bool) where
  abbrev folded : Text → Text
  folded = fold_case case_sensitive

  abbrev plain : Option ℕ → ℕ → Text → Text
  plain = scan unicode_alphanumeric needle replacement case_sensitive false

  -- A text that begins with replacement characters does not begin with characters apart from them.
  head-Apart :
      (q r t : Text)
      → Apart q (folded r)
      → 1 ≤ length q
      → 1 ≤ length r
      → starts_with q (folded (r ++ t)) ≡ false
  head-Apart [] r t a n m = absurd (omega arith)
  head-Apart (x ∷ q) [] t a n m = absurd (omega arith)
  head-Apart (x ∷ q) (y ∷ r) t a n m = ground arith

  -- What the output begins with, the text begins with.
  starts_with-scan :
      (q : Text) (previous : Option ℕ) (text : Text)
      → Apart q (folded replacement)
      → 1 ≤ length replacement
      → starts_with q (folded (plain previous zero text)) ≡ true
      → starts_with q (folded text) ≡ true
  starts_with-scan [] previous text a m e = refl
  starts_with-scan (x ∷ q) previous [] a m e = e
  starts_with-scan (x ∷ q) previous (c ∷ cs) a m e =
      elim (Bool-cases (starts_with (folded needle) (folded (c ∷ cs)))) [
        | inl found ↦
            let e' = rw found at e in
            let no =
              head-Apart (x ∷ q) replacement (plain (some c) (length needle - 1) cs) a (omega arith)
                m in
            cc
        | inr nothing ↦
            let e' = rw nothing at e in ground (arith, starts_with-scan q (some c) cs a.1 m)
      ]

  Apart-tail : (q : Text) (y : ℕ) (r : Text) → Apart q (y ∷ r) → Apart q r
  Apart-tail [] y r a = tt
  Apart-tail (x ∷ q) y r a = (ground arith, Apart-tail q y r a.1)

  Absent-append :
      (r t : Text)
      → 1 ≤ length needle
      → Apart (folded needle) (folded r)
      → Absent (folded needle) (folded t)
      → Absent (folded needle) (folded (r ++ t))
  Absent-append [] t n a h = h
  Absent-append (y ∷ r) t n a h = (
    head-Apart (folded needle) (y ∷ r) t a
        (omega (arith, length-map needle (fold_char case_sensitive))) (omega arith),
    Absent-append r t n (Apart-tail (folded needle) (fold_char case_sensitive y) (folded r) a) h,
  )

  kept-head :
      (previous : Option ℕ) (c : ℕ) (cs : Text)
      → 1 ≤ length replacement
      → Apart (folded needle) (folded replacement)
      → starts_with (folded needle) (folded (c ∷ cs)) ≡ false
      → starts_with (folded needle) (folded (c ∷ plain (some c) zero cs)) ≡ false
  kept-head previous c cs m a nothing =
      let kept : plain previous zero (c ∷ cs) ≡ c ∷ plain (some c) zero cs = rw nothing refl in
      elim (Bool-cases (starts_with (folded needle) (folded (c ∷ plain (some c) zero cs)))) [
        | inl found ↦
            let there =
              starts_with-scan (folded needle) previous (c ∷ cs) a m
                (ap (λ t. starts_with (folded needle) (folded t)) kept ∙ found) in
            cc
        | inr absent ↦ absent
      ]

  scan-Absent :
      (previous : Option ℕ) (skip : ℕ) (text : Text)
      → 1 ≤ length needle
      → 1 ≤ length replacement
      → Apart (folded needle) (folded replacement)
      → Absent (folded needle) (folded (plain previous skip text))
  scan-Absent previous skip [] n m a = nothing_in_nil needle n
    where
      nothing_in_nil : (q : Text) → 1 ≤ length q → starts_with (folded q) [] ≡ false
      nothing_in_nil [] h = absurd (omega arith)
      nothing_in_nil (x ∷ q) h = refl
  scan-Absent previous (suc skip) (c ∷ cs) n m a = scan-Absent (some c) skip cs n m a
  scan-Absent previous zero (c ∷ cs) n m a =
      elim (Bool-cases (starts_with (folded needle) (folded (c ∷ cs)))) [
        | inl found ↦ rw found (
            Absent-append replacement (plain (some c) (length needle - 1) cs) n a
              (scan-Absent (some c) (length needle - 1) cs n m a))
        | inr nothing ↦
            rw nothing (kept-head previous c cs m a nothing, scan-Absent (some c) zero cs n m a)
      ]

  -- If neither the word nor the replacement is empty and they share no character (up to ASCII case
  -- where case is ignored), then the word occurs nowhere in the text after each of its occurrences,
  -- whole word or not, has been replaced.
  pub replace_matches-Absent :
      (text : Text)
      → 1 ≤ length needle
      → 1 ≤ length replacement
      → Apart (folded needle) (folded replacement)
      → Absent (folded needle) (
          folded
            (replace_matches unicode_alphanumeric needle replacement case_sensitive false text))
  replace_matches-Absent text n m a =
      rw (replace_matches-scan unicode_alphanumeric needle replacement case_sensitive false text n)
        (scan-Absent none zero text n m a)
