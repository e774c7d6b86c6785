-- ===== src/Language/Scan.antt =====
-- `replace_matches` against a plain scan of the text, one character after another.
use voice_elf.Prelude.{
  ℕ, zero, suc, ◌-◌, ◌≤◌, ◌<◌, ◌≡◌, refl, sym, ap, ◌∙◌, Bool, true, false, ◌&&◌, if◌then◌else◌,
  ◌==◌, [], ◌∷◌, ◌++◌, length, take, drop, Option, none, some, arith, Bool-cases, inl, inr,
  length-drop,
}
use voice_elf.Prelude.Text.{Text}
use voice_elf.Language.{
  fold_case, starts_with, shift, find, last_char, at_boundary, use_match, replace_from,
  replace_matches,
}

-- One step of `find`, read backwards.
shift-miss :
    (b : Bool) (o : Option ℕ) → (if b then some 0 else shift o) ≡ none → (b ≡ false) × (o ≡ none)
shift-miss b none e = ground arith
shift-miss b (some i) e = ground arith

shift-later :
    (b : Bool) (o : Option ℕ) (r : ℕ)
    → (if b then some 0 else shift o) ≡ some (suc r)
    → (b ≡ false) × (o ≡ some r)
shift-later b none r e = ground arith
shift-later b (some i) r e = ground arith

shift-here : (b : Bool) (o : Option ℕ) → (if b then some 0 else shift o) ≡ some 0 → b ≡ true
shift-here b none e = ground arith
shift-here b (some i) e = ground arith

if-append : (b : Bool) (t u v : Text) → (if b then t ++ u else t ++ v) ≡ t ++ (if b then u else v)
if-append true t u v = refl
if-append false t u v = refl

module _ (unicode_alphanumeric : ℕ → Bool) (needle replacement : Text)
    (case_sensitive whole_word : Bool) where
  -- The needle stands here and counts as a match.
  abbrev pub matches : Option ℕ → Text → Bool
  matches previous text =
      starts_with (fold_case case_sensitive needle) (fold_case case_sensitive text)
      && at_boundary unicode_alphanumeric needle replacement case_sensitive whole_word previous
          (drop (length needle) text)

  -- Each character is kept, or the replacement put for the match that starts at it; `skip` more
  -- characters belong to the last match.
  abbrev pub scan : Option ℕ → ℕ → Text → Text
  scan previous skip [] = []
  scan previous (suc skip) (c ∷ cs) = scan (some c) skip cs
  scan previous zero (c ∷ cs) =
      let replaced = replacement ++ scan (some c) (length needle - 1) cs in
      let kept = c ∷ scan (some c) zero cs in if matches previous (c ∷ cs) then replaced else kept

  scan-skip :
      (k : ℕ) (previous : Option ℕ) (text : Text)
      → scan previous k text ≡ scan (last_char previous (take k text)) zero (drop k text)
  scan-skip zero previous text = refl
  scan-skip (suc k) previous [] = refl
  scan-skip (suc k) previous (c ∷ cs) = scan-skip k (some c) cs

  -- Before the place that `find` returns, the scan keeps everything.
  scan-find :
      (previous : Option ℕ) (text : Text) (r : ℕ)
      → find (fold_case case_sensitive needle) (fold_case case_sensitive text) ≡ some r
      → scan previous zero text
        ≡ take r text ++ scan (last_char previous (take r text)) zero (drop r text)
  scan-find previous text zero e = refl
  scan-find previous [] (suc r) e = refl
  scan-find previous (c ∷ cs) (suc r) e =
      let (no_match, later) = shift-later _ _ r e in
      rw no_match (ap (◌∷◌ c) (scan-find (some c) cs r later))

  scan-none :
      (previous : Option ℕ) (text : Text)
      → find (fold_case case_sensitive needle) (fold_case case_sensitive text) ≡ none
      → scan previous zero text ≡ text
  scan-none previous [] e = refl
  scan-none previous (c ∷ cs) e =
      let (no_match, later) = shift-miss _ _ e in
      rw no_match (ap (◌∷◌ c) (scan-none (some c) cs later))

  -- At the place that `find` returns the needle stands, and there is a character.
  find-starts_with :
      (text : Text) (r : ℕ)
      → 1 ≤ length needle
      → find (fold_case case_sensitive needle) (fold_case case_sensitive text) ≡ some r
      → (c : ℕ) × (cs : Text) × (drop r text ≡ c ∷ cs)
        × (starts_with (fold_case case_sensitive needle) (fold_case case_sensitive (c ∷ cs)) ≡ true)
  find-starts_with [] r n e = absurd (nothing needle n e)
    where
      nothing :
          (needle : Text)
          → 1 ≤ length needle
          → find (fold_case case_sensitive needle) [] ≡ some r
          → ⊥
      nothing [] h e = absurd (omega arith)
      nothing (x ∷ xs) h e = cc
  find-starts_with (c ∷ cs) zero n e = (c, cs, refl, shift-here _ _ e)
  find-starts_with (c ∷ cs) (suc r) n e = find-starts_with cs r n (shift-later _ _ r e).1

  scan-first :
      (previous : Option ℕ) (k c : ℕ) (cs : Text)
      → 1 ≤ k
      → scan (some c) (k - 1) cs ≡ scan previous k (c ∷ cs)
  scan-first previous zero c cs h = absurd (omega arith)
  scan-first previous (suc k) c cs h = ap (λ (j : ℕ). scan (some c) j cs) (omega arith)

  -- The scan at a place where the needle stands.
  scan-match :
      (next : Option ℕ → Text → Text) (previous : Option ℕ) (c : ℕ) (cs : Text)
      → 1 ≤ length needle
      → starts_with (fold_case case_sensitive needle) (fold_case case_sensitive (c ∷ cs)) ≡ true
      → ((p : Option ℕ) (t : Text) → length t ≤ length cs → next p t ≡ scan p zero t)
      → (if at_boundary unicode_alphanumeric needle replacement case_sensitive whole_word previous
            (drop (length needle) (c ∷ cs))
          then replacement
            ++ next
                (last_char previous (take (length needle) (c ∷ cs)))
                (drop (length needle) (c ∷ cs))
          else c ∷ next (some c) cs)
        ≡ scan previous zero (c ∷ cs)
  scan-match next previous c cs n found later =
      let rest = drop (length needle) (c ∷ cs) in
      let before = last_char previous (take (length needle) (c ∷ cs)) in
      let shorter : length rest ≤ length cs = omega (arith, length-drop (length needle) (c ∷ cs)) in
      elim (Bool-cases (
        at_boundary unicode_alphanumeric needle replacement case_sensitive whole_word previous
          rest)) [
            | inl b ↦
                rw (found, b)
                  (ap (λ t. replacement ++ t)
                    (later before rest shorter
                      ∙ sym (
                          scan-first previous (length needle) c cs n
                          ∙ scan-skip (length needle) previous (c ∷ cs))))
            | inr b ↦ rw (found, b) (ap (◌∷◌ c) (later (some c) cs (omega arith)))
          ]

  use_match-none :
      (previous : Option ℕ) (text : Text) (next : Option ℕ → Text → Text)
      → use_match unicode_alphanumeric needle replacement case_sensitive whole_word next previous
          text none
        ≡ text
  unfolding use_match
  use_match-none previous text next = refl

  -- A round at a match, behind the text that it skips.
  use_match-scan :
      (next : Option ℕ → Text → Text) (previous : Option ℕ) (text : Text) (r c : ℕ) (cs : Text)
      → drop r text ≡ c ∷ cs
      → 1 ≤ length needle
      → starts_with (fold_case case_sensitive needle) (fold_case case_sensitive (c ∷ cs)) ≡ true
      → ((p : Option ℕ) (t : Text) → length t ≤ length cs → next p t ≡ scan p zero t)
      → use_match unicode_alphanumeric needle replacement case_sensitive whole_word next previous
          text
          (some r)
        ≡ take r text ++ scan (last_char previous (take r text)) zero (drop r text)
  unfolding use_match
  use_match-scan next previous text r c cs e n found later = rw e (
      if-append
        (at_boundary unicode_alphanumeric needle replacement case_sensitive whole_word
          (last_char previous (take r text)) (drop (length needle) (c ∷ cs)))
        (take r text) _ _
      ∙ ap (λ t. take r text ++ t)
          (scan-match next (last_char previous (take r text)) c cs n found later))

  replace_from-scan :
      (fuel : ℕ) (previous : Option ℕ) (text : Text)
      → 1 ≤ length needle
      → length text < fuel
      → replace_from unicode_alphanumeric needle replacement case_sensitive whole_word fuel previous
          text
        ≡ scan previous zero text
  unfolding replace_from
  replace_from-scan zero previous text n h = absurd (omega arith)
  replace_from-scan (suc fuel) previous text n h =
      round (λ p t k. replace_from-scan fuel p t n k)
        (find (fold_case case_sensitive needle) (fold_case case_sensitive text)) refl
    where
      next : Option ℕ → Text → Text
      next = replace_from unicode_alphanumeric needle replacement case_sensitive whole_word fuel

      round :
          ((p : Option ℕ) (t : Text) → length t < fuel → next p t ≡ scan p zero t)
          → (o : Option ℕ)
          → find (fold_case case_sensitive needle) (fold_case case_sensitive text) ≡ o
          → use_match unicode_alphanumeric needle replacement case_sensitive whole_word next
              previous text o
            ≡ scan previous zero text
      round later none e = use_match-none previous text next ∙ sym (scan-none previous text e)
      round later (some r) e =
          let (c, cs, d, found) = find-starts_with text r n e in
          let size : suc (length cs) ≡ length text - r = ap length (sym d) ∙ length-drop r text in
          use_match-scan next previous text r c cs d n found (λ p t k. later p t (omega arith))
          ∙ sym (scan-find previous text r e)

  -- With a needle that is not empty, `replace_matches` returns what a scan of the text returns that goes
  -- on character by character: at each one that begins a match (up to case where that is asked, and
  -- between boundaries where whole words are asked) it puts the replacement and goes on behind the
  -- match, and it keeps every other. So the loop ends, and its fuel is enough.
  pub replace_matches-scan :
      (text : Text)
      → 1 ≤ length needle
      → replace_matches unicode_alphanumeric needle replacement case_sensitive whole_word text
        ≡ scan none zero text
  unfolding replace_matches
  replace_matches-scan text n =
      let some_needle : (length needle == 0) ≡ false = ground arith in
      rw some_needle (replace_from-scan (suc (length text)) none text n (omega arith))
