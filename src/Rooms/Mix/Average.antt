-- ===== src/Rooms/Mix/Average.antt =====
-- What `mix_frames` computes: frames of the right size, the average, and never a clipped one.
use native.Mathlib.Nat.{div-le_of_le-mul, zero-add}
use voice_elf.Prelude.{
  get_or, leb, if◌then◌else◌, ◌<◌, ◌-◌, Bool-cases, subst, ℕ, zero, suc, ◌+◌, ◌*◌, ◌/◌, ◌≤◌, ◌≡◌,
  ◌⊎◌, inl, inr, refl, sym, ap, ◌∙◌, max, List, [], ◌∷◌, map, length, length-map, arith,
}
use voice_elf.Prelude.Int.{ℤ, pos, negsuc, pos_part, neg_part, ◌+ℤ◌, int_laws, sub_ℕ, ◌-ℤ◌}
use voice_elf.Audio.Pcm.{frame_samples, InRange, AllInRange}
use voice_elf.Rooms.Mix.{
  at, indices, wrap_i32, column_sum, div_trunc, negated, clamp_i16, mix_sample, mix_frames,
}

length-indices : (from n : ℕ) → length (indices from n) ≡ n
length-indices from zero = refl
length-indices from (suc n) = ap suc (length-indices (suc from) n)

pub length-mix_frames : (frames : List (List ℤ)) → length (mix_frames frames) ≡ frame_samples
unfolding mix_frames
length-mix_frames frames =
    length-map (indices 0 frame_samples) (mix_sample frames) ∙ length-indices 0 frame_samples

-- Every frame is made of i16 samples.
abbrev pub FramesInRange : List (List ℤ) → Type 0
FramesInRange [] = Unit {0}
FramesInRange (frame ∷ rest) = AllInRange frame × FramesInRange rest

at-InRange : (frame : List ℤ) (index : ℕ) → AllInRange frame → InRange (at frame index)
at-InRange [] index h = omega arith
at-InRange (x ∷ xs) zero h = h.0
at-InRange (x ∷ xs) (suc index) h = at-InRange xs index h.1

-- The parts of an i16.
parts-InRange : (x : ℤ) → InRange x → (pos_part x ≤ 32767) × (neg_part x ≤ 32768)
parts-InRange (pos n) h = omega arith
parts-InRange (negsuc n) h = omega arith

one_part : (x : ℤ) → (pos_part x ≡ 0) ⊎ (neg_part x ≡ 0)
one_part (pos n) = inr refl
one_part (negsuc n) = inl refl

-- What is above zero in a list of samples, and what is below.
abbrev pub above : List ℤ → ℕ
above [] = 0
above (x ∷ xs) = pos_part x + above xs

abbrev pub below : List ℤ → ℕ
below [] = 0
below (x ∷ xs) = neg_part x + below xs

-- The sum of the samples divided by their number, rounded towards zero.
abbrev pub average : List ℤ → ℤ
average xs =
    if leb (below xs) (above xs)
    then pos ((above xs - below xs) / max (length xs) 1)
    else pos 0 -ℤ pos ((below xs - above xs) / max (length xs) 1)

-- What each speaker says at an index.
abbrev pub column : ℕ → List (List ℤ) → List ℤ
column index [] = []
column index (frame ∷ rest) = get_or frame index (pos 0) ∷ column index rest

wrap_fits : (x : ℤ) → pos_part x < 2147483648 → neg_part x ≤ 2147483648 → wrap_i32 x ≡ x
unfolding wrap_i32
wrap_fits (pos n) a b = ground arith
wrap_fits (negsuc n) a b = ground arith

zero_add_ℤ : (x : ℤ) → pos 0 +ℤ x ≡ x
unfolding ◌+ℤ◌
zero_add_ℤ x = ground arith

regrouped :
    (sum x : ℤ) (a b : ℕ) → sum +ℤ x +ℤ sub_ℕ a b ≡ sum +ℤ sub_ℕ (pos_part x + a) (neg_part x + b)
unfolding ◌+ℤ◌
regrouped sum x a b = ground arith

-- The sum does not wrap, since there is room for the samples that are left.
column_sum_exact :
    (sum : ℤ) (frames : List (List ℤ)) (index : ℕ)
    → FramesInRange frames
    → pos_part sum + 32768 * length frames < 2147483648
    → neg_part sum + 32768 * length frames < 2147483648
    → column_sum sum frames index
      ≡ sum +ℤ sub_ℕ (above (column index frames)) (below (column index frames))
unfolding column_sum ◌+ℤ◌
column_sum_exact sum [] index h p n = ground arith
column_sum_exact sum (frame ∷ rest) index h p n =
    let x = at frame index in
    let a = parts-InRange x (at-InRange frame index h.0) in
    let fits : wrap_i32 (sum +ℤ x) ≡ sum +ℤ x =
      wrap_fits (sum +ℤ x) (omega (int_laws, a, one_part (sum +ℤ x)))
        (omega (int_laws, a, one_part (sum +ℤ x))) in
    ap (λ s. column_sum s rest index) fits
    ∙ column_sum_exact (sum +ℤ x) rest index h.1 (omega (int_laws, a, one_part (sum +ℤ x)))
        (omega (int_laws, a, one_part (sum +ℤ x)))
    ∙ regrouped sum x (above (column index rest)) (below (column index rest))

column_range :
    (frames : List (List ℤ)) (index : ℕ)
    → FramesInRange frames
    → (above (column index frames) ≤ length frames * 32767)
      × (below (column index frames) ≤ length frames * 32768)
      × (length (column index frames) ≡ length frames)
column_range [] index h = (omega arith, omega arith, refl)
column_range (frame ∷ rest) index h =
    let a = parts-InRange (at frame index) (at-InRange frame index h.0) in
    let b = column_range rest index h.1 in
    (omega (arith, a, b.0), omega (arith, a, b.1), omega (arith, b.2))

negated_sub : (q : ℕ) → negated q ≡ pos 0 -ℤ pos q
unfolding ◌-ℤ◌
negated_sub zero = ground arith
negated_sub (suc q) = ground arith

div_trunc-average :
    (xs : List ℤ) → div_trunc (sub_ℕ (above xs) (below xs)) (pos (max (length xs) 1)) ≡ average xs
unfolding div_trunc
div_trunc-average xs = elim (Bool-cases (leb (below xs) (above xs))) [
  | inl e ↦ rw e refl
  | inr e ↦
      let whole : suc (below xs - above xs - 1) ≡ below xs - above xs = ground arith in
      rw (e, whole) (negated_sub ((below xs - above xs) / max (length xs) 1))
]

clamp_fits : (x : ℤ) → pos_part x ≤ 32767 → neg_part x ≤ 32768 → clamp_i16 x ≡ x
unfolding clamp_i16
clamp_fits x a b = ground arith

average_range :
    (xs : List ℤ)
    → above xs ≤ length xs * 32767
    → below xs ≤ length xs * 32768
    → (pos_part (average xs) ≤ 32767) × (neg_part (average xs) ≤ 32768)
unfolding ◌-ℤ◌
average_range xs a b =
    let d = max (length xs) 1 in
    let up : (above xs - below xs) / d ≤ 32767 = div-le_of_le-mul d (omega arith) in
    let down : (below xs - above xs) / d ≤ 32768 = div-le_of_le-mul d (omega arith) in
    elim (Bool-cases (leb (below xs) (above xs))) [
      | inl e ↦ rw e (up, omega arith)
      | inr e ↦ rw e (ground (arith, up, down), ground (arith, up, down))
    ]

mix_sample-average :
    (frames : List (List ℤ)) (index : ℕ)
    → FramesInRange frames
    → length frames ≤ 65535
    → mix_sample frames index ≡ average (column index frames)
unfolding mix_sample
mix_sample-average frames index h few =
    let xs = column index frames in
    let (up, down, n) = column_range frames index h in
    let sum : column_sum (pos 0) frames index ≡ sub_ℕ (above xs) (below xs) =
      column_sum_exact (pos 0) frames index h (omega arith) (omega arith)
      ∙ zero_add_ℤ (sub_ℕ (above xs) (below xs)) in
    let divisor : wrap_i32 (pos (max (length frames) 1)) ≡ pos (max (length xs) 1) =
      wrap_fits (pos (max (length frames) 1)) (omega arith) (omega arith)
      ∙ ap (λ (k : ℕ). pos (max k 1)) (sym n) in
    let r = average_range xs (omega arith) (omega arith) in
    ap clamp_i16 (rw (sum, divisor) refl ∙ div_trunc-average xs) ∙ clamp_fits (average xs) r.0 r.1

at-map-indices :
    (f : ℕ → ℤ) (from n index : ℕ)
    → index < n
    → at (map f (indices from n)) index ≡ f (from + index)
at-map-indices f from zero index h = absurd (omega arith)
at-map-indices f from (suc n) zero h = ap f (omega arith)
at-map-indices f from (suc n) (suc index) h =
    at-map-indices f (suc from) n index (omega arith) ∙ ap f (omega arith)

-- Of at most 65,535 frames of i16 samples, each of the 512 samples of the mix is the sum of the
-- frames' samples at its index divided by their number, rounded towards zero: nothing wraps or is
-- clipped.
pub mix_frames-average :
    (frames : List (List ℤ)) (index : ℕ)
    → FramesInRange frames
    → length frames ≤ 65535
    → index < 512
    → get_or (mix_frames frames) index (pos 0) ≡ average (column index frames)
unfolding mix_frames
mix_frames-average frames index h few i =
    at-map-indices (mix_sample frames) 0 512 index i
    ∙ ap (mix_sample frames) (zero-add index)
    ∙ mix_sample-average frames index h few

map-indices :
    (f : ℕ → ℤ) (xs : List ℤ) (from : ℕ)
    → ((i : ℕ) → f (from + i) ≡ at xs i)
    → map f (indices from (length xs)) ≡ xs
map-indices f [] from h = refl
map-indices f (x ∷ xs) from h =
    let head : f from ≡ x = subst (λ (k : ℕ). f k ≡ x) (omega arith) (h 0) in
    let tail : map f (indices (suc from) (length xs)) ≡ xs =
      map-indices f xs (suc from)
        (λ i. subst (λ (k : ℕ). f k ≡ at xs i) (omega arith) (h (suc i))) in
    rw (head, tail) refl

average_one : (x : ℤ) → average (x ∷ []) ≡ x
unfolding ◌-ℤ◌
average_one (pos n) = ground arith
average_one (negsuc n) = ground arith

one_speaker :
    (frame : List ℤ) (index : ℕ) → AllInRange frame → mix_sample (frame ∷ []) index ≡ at frame index
one_speaker frame index h =
    mix_sample-average (frame ∷ []) index (h, tt) (omega arith) ∙ average_one (at frame index)

-- A speaker who is alone is heard unchanged.
pub mix_frames_alone :
    (frame : List ℤ)
    → length frame ≡ frame_samples
    → AllInRange frame
    → mix_frames (frame ∷ []) ≡ frame
unfolding mix_frames
mix_frames_alone frame n h =
    ap (λ (k : ℕ). map (mix_sample (frame ∷ [])) (indices 0 k)) (sym n)
    ∙ map-indices (mix_sample (frame ∷ [])) frame 0
        (λ i. one_speaker frame (0 + i) h ∙ ap (at frame) (zero-add i))
