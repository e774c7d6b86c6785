-- ===== src/Language.antt =====
-- `LanguagePolicy` of server/src/language_policy.rs: a room's terminology and the blocked words. A text
-- is the list of its characters: the code works on bytes, but in UTF-8 a needle is found at character
-- boundaries only. What `char::is_alphanumeric` says beyond ASCII is a parameter, and so is what the
-- database has stored.
pub mod Scan
pub mod Removal
mod Examples
use voice_elf.Prelude.{
  ℕ, zero, suc, ◌+◌, ◌-◌, Bool, true, false, not, ◌||◌, ◌&&◌, if◌then◌else◌, ◌==◌, leb, ltb, List,
  [], ◌∷◌, ◌++◌, map, length, take, drop, Option, none, some,
}
use voice_elf.Prelude.Int.{ℤ, ltb_ℤ}
use voice_elf.Prelude.Text.{Text, codes, text_eq, lower, is_alphanumeric, all_bytes}

pub record PolicyTerm : Type 0 where
  pub source : Text
  pub variants : List Text
  pub target : Text
  pub priority : ℤ

pub record PolicyBlock : Type 0 where
  pub word : Text
  pub replacement : Text
  pub whole_word : Bool
  pub case_sensitive : Bool

pub record LanguagePolicy : Type 0 where
  pub terms : List PolicyTerm
  pub blocked : List PolicyBlock

-- What the translator is given (server/src/backends/mod.rs).
pub record TranslationTerm : Type 0 where
  pub source : Text
  pub target : Text
  pub aliases : List Text

-- The rows of the database.
pub record TerminologyEntry : Type 0 where
  pub source_term : Text
  pub target_term : Text
  pub aliases : List Text
  pub entry_priority : ℤ

pub record BlockedWord : Type 0 where
  pub word : Text
  pub replacement : Text
  pub match_mode : Text
  pub case_sensitive : Bool

module _ {A : Type 0} (before : A → A → Bool) where
  -- `sort_by_key`, which is stable: an element goes behind those that are not after it.
  abbrev pub insert_sorted : A → List A → List A
  insert_sorted a [] = a ∷ []
  insert_sorted a (b ∷ bs) =
      let later = b ∷ insert_sorted a bs in if before b a then later else a ∷ b ∷ bs

  abbrev pub sort_from : List A → List A → List A
  sort_from sorted [] = sorted
  sort_from sorted (a ∷ rest) = sort_from (insert_sorted a sorted) rest

-- `Reverse(chars().count())` of the earlier is at most that of the later.
abbrev pub not_shorter : Text → Text → Bool
not_shorter a b = leb (length b) (length a)

-- `dedup`: equal neighbours are one.
abbrev pub dedup_after : Text → List Text → List Text
dedup_after t [] = []
dedup_after t (u ∷ us) = let rest = dedup_after u us in if text_eq t u then rest else u ∷ rest

abbrev pub dedup : List Text → List Text
dedup [] = []
dedup (t ∷ ts) = t ∷ dedup_after t ts

abbrev pub term_of : TerminologyEntry → PolicyTerm
term_of entry = record {
  source = entry.source_term;
  variants = dedup (sort_from not_shorter [] (entry.aliases ++ entry.source_term ∷ []));
  target = entry.target_term;
  priority = entry.entry_priority;
}

-- By falling priority, and by falling length of the source where priorities are equal.
abbrev pub term_before : PolicyTerm → PolicyTerm → Bool
term_before a b =
    ltb_ℤ b.priority a.priority
    || (not (ltb_ℤ a.priority b.priority) && not_shorter a.source b.source)

abbrev pub block_of : BlockedWord → PolicyBlock
block_of entry = record {
  word = entry.word;
  replacement = entry.replacement;
  whole_word = text_eq entry.match_mode (codes "word");
  case_sensitive = entry.case_sensitive;
}

-- `load`, once the database has answered.
unfoldable pub load : List TerminologyEntry → List BlockedWord → LanguagePolicy
load entries words = record {
  terms = sort_from term_before [] (map term_of entries);
  blocked = sort_from (λ a b. not_shorter a.word b.word) [] (map block_of words);
}

unfoldable pub is_ascii_word : Text → Bool
is_ascii_word = all_bytes (λ c. is_alphanumeric c || (c == b'_' || c == b'-'))

abbrev pub fold_char : Bool → ℕ → ℕ
fold_char case_sensitive c = if case_sensitive then c else lower c

-- The text that is searched: as it is, or in ASCII lower case.
abbrev pub fold_case : Bool → Text → Text
fold_case case_sensitive = map (fold_char case_sensitive)

abbrev pub starts_with : Text → Text → Bool
starts_with [] text = true
starts_with (n ∷ ns) [] = false
starts_with (n ∷ ns) (c ∷ cs) = n == c && starts_with ns cs

abbrev pub shift : Option ℕ → Option ℕ
shift none = none
shift (some i) = some (suc i)

-- `str::find`
abbrev pub find : Text → Text → Option ℕ
find needle [] = if starts_with needle [] then some 0 else none
find needle (c ∷ cs) =
    let later = shift (find needle cs) in if starts_with needle (c ∷ cs) then some 0 else later

-- `chars().next()`, and `chars().next_back()` of a text behind an earlier one.
abbrev pub first_char : Text → Option ℕ
first_char [] = none
first_char (c ∷ cs) = some c

abbrev pub last_char : Option ℕ → Text → Option ℕ
last_char previous [] = previous
last_char previous (c ∷ cs) = last_char (some c) cs

module _ (unicode_alphanumeric : ℕ → Bool) where
  unfoldable pub is_boundary : Option ℕ → Bool
  is_boundary none = true
  is_boundary (some c) = not (unicode_alphanumeric c) && not (c == b'_')

  module _ (needle replacement : Text) (case_sensitive whole_word : Bool) where
    -- Whether a match counts: after the character `before`, and with `after` behind it.
    abbrev pub at_boundary : Option ℕ → Text → Bool
    at_boundary before after =
        not whole_word || (is_boundary before && is_boundary (first_char after))

    -- What a round does with the place of the next match: `next` is the loop from the new cursor.
    unfoldable pub use_match : (Option ℕ → Text → Text) → Option ℕ → Text → Option ℕ → Text
    use_match next previous text none = text
    use_match next previous text (some relative) =
        let skipped = take relative text in
        let match_on = drop relative text in
        let before = last_char previous skipped in
        let after = drop (length needle) match_on in
        if at_boundary before after
        then skipped
          ++ (replacement ++ next (last_char before (take (length needle) match_on)) after)
        else skipped
          ++ (take 1 match_on ++ next (last_char before (take 1 match_on)) (drop 1 match_on))

    -- The loop from a cursor: the rest of the text, and the last character before it. With fuel beyond
    -- the length of the rest it ends by its own test.
    unfoldable pub replace_from : ℕ → Option ℕ → Text → Text
    replace_from zero previous text = text
    replace_from (suc fuel) previous text =
        use_match (replace_from fuel) previous text
          (find (fold_case case_sensitive needle) (fold_case case_sensitive text))

    unfoldable pub replace_matches : Text → Text
    replace_matches text =
        if length needle == 0 then text else replace_from (suc (length text)) none text

  abbrev pub replace_variants : Text → List Text → Text → Text
  replace_variants replacement [] text = text
  replace_variants replacement (v ∷ vs) text =
      replace_variants replacement vs (replace_matches v replacement false (is_ascii_word v) text)

  abbrev pub transcript_terms : List PolicyTerm → Text → Text
  transcript_terms [] text = text
  transcript_terms (t ∷ ts) text = transcript_terms ts (replace_variants t.source t.variants text)

  unfoldable pub normalize_transcript : LanguagePolicy → Text → Text
  normalize_transcript policy = transcript_terms policy.terms

  abbrev pub replace_blocked : List PolicyBlock → Text → Text
  replace_blocked [] text = text
  replace_blocked (b ∷ bs) text =
      replace_blocked bs (replace_matches b.word b.replacement b.case_sensitive b.whole_word text)

  unfoldable pub sanitize : LanguagePolicy → Text → Text
  sanitize policy = replace_blocked policy.blocked

  abbrev pub translation_targets : List PolicyTerm → Text → Text
  translation_targets [] text = text
  translation_targets (t ∷ ts) text =
      translation_targets ts (replace_variants t.target (t.variants ++ t.source ∷ []) text)

  unfoldable pub normalize_translation : LanguagePolicy → Text → Text
  normalize_translation policy text = sanitize policy (translation_targets policy.terms text)

abbrev pub translation_term : PolicyTerm → TranslationTerm
translation_term t = record { source = t.source; target = t.target; aliases = t.variants }

unfoldable pub translation_terms : LanguagePolicy → List TranslationTerm
translation_terms policy = map translation_term policy.terms
