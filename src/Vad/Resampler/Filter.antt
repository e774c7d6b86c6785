-- ===== src/Vad/Resampler/Filter.antt =====
-- The ring of the filter computes the direct sum over the latest samples.
use voice_elf.Prelude.{
  length-map, map, ==_iff, subst, ℕ, zero, suc, ◌+◌, ◌-◌, ◌%◌, ◌≤◌, ◌<◌, ◌≡◌, ◌≢◌, refl, sym, ap,
  ◌∙◌, Bool-cases, inl, inr, if◌then◌else◌, ◌==◌, ltb, List, [], ◌∷◌, length, get_or, set,
  length-set, arith,
}
use native.Mathlib.Nat.{mod_self, mod-eq_of_lt}
use voice_elf.Prelude.Float.{Float}
use voice_elf.Vad.Resampler.{
  reset_filter, AntiAliasFilter, zero_of, taps, filter_sample, filter_all,
}

module _ {R : Type 0} where
  get_or-set_self : (xs : List R) (i : ℕ) (v d : R) → i < length xs → get_or (set xs i v) i d ≡ v
  get_or-set_self [] i v d h = absurd (omega arith)
  get_or-set_self (x ∷ xs) zero v d h = refl
  get_or-set_self (x ∷ xs) (suc i) v d h = get_or-set_self xs i v d (omega arith)

  get_or-set_ne :
      (xs : List R) (i j : ℕ) (v d : R) → i ≢ j → get_or (set xs i v) j d ≡ get_or xs j d
  get_or-set_ne [] i j v d h = refl
  get_or-set_ne (x ∷ xs) zero zero v d h = absurd (h refl)
  get_or-set_ne (x ∷ xs) zero (suc j) v d h = refl
  get_or-set_ne (x ∷ xs) (suc i) zero v d h = refl
  get_or-set_ne (x ∷ xs) (suc i) (suc j) v d h = get_or-set_ne xs i j v d (λ e. h (ap suc e))

-- `m` places before `i` in a ring of `n`.
abbrev pub back : ℕ → ℕ → ℕ → ℕ
back n i m = if ltb i m then i + n - m else i - m

wrapped :
    (n cursor : ℕ) → cursor < n → (cursor + 1) % n ≡ (if cursor + 1 == n then 0 else cursor + 1)
wrapped n cursor h = elim (Bool-cases (cursor + 1 == n)) [
  | inl e ↦ rw (e, (==_iff (cursor + 1) n).0 e) (mod_self n)
  | inr e ↦ rw e (mod-eq_of_lt (ground arith))
]

next_inside : (n cursor : ℕ) → cursor < n → (if cursor + 1 == n then 0 else cursor + 1) < n
next_inside n cursor h = ground arith

shifted :
    (n cursor m : ℕ)
    → cursor < n
    → m < n
    → back n (if cursor + 1 == n then 0 else cursor + 1) (suc m) ≡ back n cursor m
shifted n cursor m h k = ground arith

module _ {R : Type 0} (f : Float R) where
  -- The sum of the coefficients with the latest samples, the newest first; before the first sample
  -- all were zero.
  abbrev pub weighted : List R → List R → R → R
  weighted [] recent sum = sum
  weighted (c ∷ cs) [] sum = weighted cs [] (f.add sum (f.mul c (zero_of f)))
  weighted (c ∷ cs) (x ∷ recent) sum = weighted cs recent (f.add sum (f.mul c x))

  pub weigh_all : List R → List R → List R → List R
  weigh_all coefficients recent [] = []
  weigh_all coefficients recent (x ∷ xs) =
      weighted coefficients (x ∷ recent) (zero_of f) ∷ weigh_all coefficients (x ∷ recent) xs

  -- The samples, the newest first.
  abbrev pub latest : List R → List R → List R
  latest recent [] = recent
  latest recent (x ∷ xs) = latest (x ∷ recent) xs

  abbrev rest_of : List R → List R
  rest_of [] = []
  rest_of (x ∷ xs) = xs

  get_or-tail :
      (recent : List R) (m : ℕ)
      → get_or recent (suc m) (zero_of f) ≡ get_or (rest_of recent) m (zero_of f)
  get_or-tail [] m = refl
  get_or-tail (x ∷ recent) m = refl

  weighted-tail :
      (c : R) (cs recent : List R) (sum : R)
      → weighted (c ∷ cs) recent sum
        ≡ weighted cs (rest_of recent) (f.add sum (f.mul c (get_or recent 0 (zero_of f))))
  weighted-tail c cs [] sum = refl
  weighted-tail c cs (x ∷ recent) sum = refl

  taps-weighted :
      (cs history recent : List R) (i : ℕ) (sum : R)
      → i < length history
      → length cs ≤ length history
      → ((m : ℕ)
          → m < length cs
          → get_or history (back (length history) i m) (zero_of f) ≡ get_or recent m (zero_of f))
      → taps f cs history i sum ≡ weighted cs recent sum
  unfolding taps
  taps-weighted [] history recent i sum h n same = refl
  taps-weighted (c ∷ cs) history recent i sum h n same =
      let i' = if i == 0 then length history - 1 else i - 1 in
      let first : get_or history i (zero_of f) ≡ get_or recent 0 (zero_of f) =
        ap (λ k. get_or history k (zero_of f)) (ground arith) ∙ same 0 (omega arith) in
      taps-weighted cs history (rest_of recent) i' _ (ground arith) (omega arith) (λ m lt.
        ap (λ k. get_or history k (zero_of f)) (ground arith)
        ∙ same (suc m) (omega arith)
        ∙ get_or-tail recent m)
      ∙ ap (λ x. weighted cs (rest_of recent) (f.add sum (f.mul c x))) first
      ∙ sym (weighted-tail c cs recent sum)

  -- The ring is as long as the coefficients, and holds the latest samples, the newest before the
  -- cursor.
  pub record Holds (a : AntiAliasFilter R) (recent : List R) : Type 0 where
    pub size : length a.history ≡ length a.coefficients
    pub inside : a.cursor < length a.history
    pub samples :
        (m : ℕ)
        → m < length a.history
        → get_or a.history (back (length a.history) a.cursor (suc m)) (zero_of f)
          ≡ get_or recent m (zero_of f)

  -- With a new sample at the cursor.
  samples-set :
      (a : AntiAliasFilter R) (recent : List R) (x : R)
      → Holds a recent
      → (m : ℕ) → m < length a.history
      → get_or (set a.history a.cursor x) (back (length a.history) a.cursor m) (zero_of f)
        ≡ get_or (x ∷ recent) m (zero_of f)
  samples-set a recent x h zero lt =
      ap (λ k. get_or (set a.history a.cursor x) k (zero_of f)) (ground arith)
      ∙ get_or-set_self a.history a.cursor x (zero_of f) h.inside
  samples-set a recent x h (suc m) lt =
      get_or-set_ne a.history a.cursor _ x (zero_of f) (elsewhere h.inside)
      ∙ h.samples m (omega arith)
    where
      elsewhere : a.cursor < length a.history → a.cursor ≢ back (length a.history) a.cursor (suc m)
      elsewhere inside e = ground (arith, lt)

  filter_sample-Holds :
      (a : AntiAliasFilter R) (recent : List R) (x : R)
      → Holds a recent
      → Holds (filter_sample f a x).0 (x ∷ recent)
        × ((filter_sample f a x).1 ≡ weighted a.coefficients (x ∷ recent) (zero_of f))
  unfolding filter_sample
  filter_sample-Holds a recent x h =
      let n = length a.history in
      let size : length (set a.history a.cursor x) ≡ n = length-set a.history a.cursor x in
      let next : (a.cursor + 1) % n ≡ (if a.cursor + 1 == n then 0 else a.cursor + 1) =
        wrapped n a.cursor h.inside in
      (
        record {
          size = size ∙ h.size;
          inside = rw (size, next) (next_inside n a.cursor h.inside);
          samples = λ m lt.
              rw (size, next)
                (ap (λ k. get_or (set a.history a.cursor x) k (zero_of f))
                    (shifted n a.cursor m h.inside (subst (λ k. m < k) size lt))
                  ∙ samples-set a recent x h m (subst (λ k. m < k) size lt));
        },
        taps-weighted a.coefficients (set a.history a.cursor x) (x ∷ recent) a.cursor (zero_of f)
            (subst (λ k. a.cursor < k) (sym size) h.inside) (omega (arith, size, h.size))
            (λ m lt. rw size (samples-set a recent x h m (subst (λ k. m < k) (sym h.size) lt))),
      )

  coefficients_kept :
      (a : AntiAliasFilter R) (x : R) → (filter_sample f a x).0.coefficients ≡ a.coefficients
  unfolding filter_sample
  coefficients_kept a x = refl

  -- While the ring is as long as the coefficients and holds the latest samples, the newest before the
  -- cursor, each sample that comes in gives the sum of the coefficients with the latest samples, in
  -- the order of the code's additions, and the ring holds the latest samples afterwards.
  pub filter_all-weigh_all :
      (a : AntiAliasFilter R) (recent input : List R)
      → Holds a recent
      → ((filter_all f a input).1 ≡ weigh_all a.coefficients recent input)
        × Holds (filter_all f a input).0 (latest recent input)
  unfolding filter_all weigh_all
  filter_all-weigh_all a recent [] h = (refl, h)
  filter_all-weigh_all a recent (x ∷ xs) h =
      let (h', e) = filter_sample-Holds a recent x h in
      let (es, h'') = filter_all-weigh_all (filter_sample f a x).0 (x ∷ recent) xs h' in
      (
        ap (λ y. y ∷ (filter_all f (filter_sample f a x).0 xs).1) e
            ∙ ap (λ ys. weighted a.coefficients (x ∷ recent) (zero_of f) ∷ ys)
                (es ∙ ap (λ cs. weigh_all cs (x ∷ recent) xs) (coefficients_kept a x)),
        h'',
      )

  get_or-silent : (xs : List R) (k : ℕ) → get_or (map (λ x. zero_of f) xs) k (zero_of f) ≡ zero_of f
  get_or-silent [] k = refl
  get_or-silent (x ∷ xs) zero = refl
  get_or-silent (x ∷ xs) (suc k) = get_or-silent xs k

  -- A filter that has been reset holds no samples.
  pub reset_filter-Holds :
      (a : AntiAliasFilter R)
      → length a.history ≡ length a.coefficients
      → 0 < length a.history
      → Holds (reset_filter f a) []
  unfolding reset_filter
  reset_filter-Holds a e h = record {
    size = length-map a.history (λ x. zero_of f) ∙ e;
    inside = omega (arith, length-map a.history (λ x. zero_of f));
    samples = λ m lt. get_or-silent a.history _;
  }
