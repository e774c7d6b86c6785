-- ===== src/Control/Order.antt =====
-- Commands of server/src/control.rs by their numbers, and those after a number.
use voice_elf.Prelude.{
  ℕ, ◌+◌, ◌≤◌, ◌<◌, ◌≡◌, refl, sym, false, Bool-cases, inl, inr, ltb, List, [], ◌∷◌, ◌++◌, length,
  subst, arith,
}
use voice_elf.Control.{RuntimeCommand, tail_of, later_than, last_sequence}

-- The numbers rise, from above `low` to below `high`.
abbrev pub Rising : ℕ → ℕ → List RuntimeCommand → Type 0
Rising low high [] = low < high
Rising low high (c ∷ cs) = (low < c.sequence) × Rising c.sequence high cs

-- The number of the oldest command that is not queued.
abbrev pub oldest : ℕ → List RuntimeCommand → ℕ
oldest next [] = next
oldest next (c ∷ cs) = c.sequence

later_than-all :
    (s low high : ℕ) (cs : List RuntimeCommand)
    → Rising low high cs
    → s ≤ low
    → later_than s cs ≡ cs
later_than-all s low high [] h m = refl
later_than-all s low high (c ∷ cs) h m = ground (arith, later_than-all s c.sequence high cs h.1)

pub later_than-append :
    (s : ℕ) (xs ys : List RuntimeCommand)
    → later_than s (xs ++ ys) ≡ later_than s xs ++ later_than s ys
later_than-append s [] ys = refl
later_than-append s (x ∷ xs) ys = ground (arith, later_than-append s xs ys)

pub Rising-append :
    (low high : ℕ) (cs : List RuntimeCommand) (c : RuntimeCommand)
    → Rising low high cs
    → c.sequence ≡ high
    → Rising low (high + 1) (cs ++ c ∷ [])
Rising-append low high [] c h e = (omega arith, omega arith)
Rising-append low high (x ∷ cs) c h e = (h.0, Rising-append x.sequence high cs c h.1 e)

pub Rising-tail :
    (low high : ℕ) (cs : List RuntimeCommand) → Rising low high cs → Rising low high (tail_of cs)
Rising-tail low high [] h = h
Rising-tail low high (c ∷ []) h = omega arith
Rising-tail low high (c ∷ d ∷ cs) h = (omega arith, h.1.1)

length-later_than : (s : ℕ) (cs : List RuntimeCommand) → length (later_than s cs) ≤ length cs
length-later_than s [] = omega arith
length-later_than s (c ∷ cs) = ground (arith, length-later_than s cs)

-- The command that gives way has been sent, if not all of them wait.
pub later_than-tail :
    (s low high : ℕ) (cs : List RuntimeCommand)
    → Rising low high cs
    → length (later_than s cs) < length cs
    → later_than s (tail_of cs) ≡ later_than s cs
later_than-tail s low high [] h m = absurd (omega arith)
later_than-tail s low high (c ∷ cs) h m = elim (Bool-cases (ltb s c.sequence)) [
  | inr sent ↦ rw sent refl
  | inl waits ↦ absurd (ground (arith, m, later_than-all s c.sequence high cs h.1))
]

le-last_sequence :
    (s low : ℕ) (cs : List RuntimeCommand) → s ≤ low → s ≤ last_sequence low (later_than s cs)
le-last_sequence s low [] h = h
le-last_sequence s low (c ∷ cs) h = elim (Bool-cases (ltb s c.sequence)) [
  | inl e ↦ rw e (le-last_sequence s c.sequence cs (ground arith))
  | inr e ↦ rw e (le-last_sequence s low cs h)
]

last_sequence-le :
    (low high : ℕ) (cs : List RuntimeCommand) → Rising low high cs → low ≤ last_sequence low cs
last_sequence-le low high [] h = omega arith
last_sequence-le low high (c ∷ cs) h = omega (arith, last_sequence-le c.sequence high cs h.1)

last_sequence-lt :
    (low high : ℕ) (cs : List RuntimeCommand) → Rising low high cs → last_sequence low cs < high
last_sequence-lt low high [] h = h
last_sequence-lt low high (c ∷ cs) h = last_sequence-lt c.sequence high cs h.1

none_later :
    (t low high : ℕ) (cs : List RuntimeCommand)
    → Rising low high cs
    → last_sequence low cs ≤ t
    → later_than t cs ≡ []
none_later t low high [] h m = refl
none_later t low high (c ∷ cs) h m =
    ground (arith, none_later t c.sequence high cs h.1 m, last_sequence-le c.sequence high cs h.1)

-- After a round nothing waits.
pub last-later_than :
    (s low high : ℕ) (cs : List RuntimeCommand)
    → Rising low high cs
    → s < high
    → (later_than (last_sequence s (later_than s cs)) cs ≡ [])
      × (last_sequence s (later_than s cs) < high)
last-later_than s low high [] h m = (refl, m)
last-later_than s low high (c ∷ cs) h m = elim (Bool-cases (ltb s c.sequence)) [
  | inl e ↦
      let all = later_than-all s c.sequence high cs h.1 (ground arith) in
      let same : later_than s (c ∷ cs) ≡ c ∷ cs = rw (e, all) refl in
      subst (λ l. (later_than (last_sequence s l) (c ∷ cs) ≡ []) × (last_sequence s l < high))
        (sym same)
        (
          none_later (last_sequence c.sequence cs) low high (c ∷ cs) h (omega arith),
          last_sequence-lt c.sequence high cs h.1,
        )
  | inr e ↦
      let rest = last-later_than s c.sequence high cs h.1 m in
      let above = le-last_sequence s s cs (omega arith) in
      let t = last_sequence s (later_than s cs) in
      let same : later_than s (c ∷ cs) ≡ later_than s cs = rw e refl in
      let old : ltb t c.sequence ≡ false = ground (arith, above) in
      subst (λ l. (later_than (last_sequence s l) (c ∷ cs) ≡ []) × (last_sequence s l < high))
        (sym same) (rw old rest.0, rest.1)
]

pub below_oldest :
    (low high : ℕ) (cs : List RuntimeCommand) → Rising low high cs → low < oldest high cs
below_oldest low high [] h = h
below_oldest low high (c ∷ cs) h = h.0

pub Rising-low :
    (low low' high : ℕ) (cs : List RuntimeCommand)
    → Rising low high cs
    → low' < oldest high cs
    → Rising low' high cs
Rising-low low low' high [] h m = m
Rising-low low low' high (c ∷ cs) h m = (m, h.1)

pub Rising-high :
    (low high high' : ℕ) (cs : List RuntimeCommand)
    → Rising low high cs
    → high ≤ high'
    → Rising low high' cs
Rising-high low high high' [] h m = omega arith
Rising-high low high high' (c ∷ cs) h m = (h.0, Rising-high c.sequence high high' cs h.1 m)

pub oldest-append :
    (n : ℕ) (cs : List RuntimeCommand) (c : RuntimeCommand)
    → c.sequence ≡ n
    → oldest (n + 1) (cs ++ c ∷ []) ≡ oldest n cs
oldest-append n [] c e = e
oldest-append n (d ∷ cs) c e = refl
