-- ===== src/Pipeline/Workers/Trace.antt =====
-- Steps that write actions down and may fail: the `Result` of the workers' functions with `?`.
use voice_elf.Prelude.{List, [], ◌∷◌, ◌++◌, Bool, true, false}

pub data Result (C A : Type 0) : Type 0 where
  ok : A → Result C A
  err : C → Result C A

-- `B` is the type of an action, `C` that of an error.
abbrev pub M : Type 0 → Type 0 → Type 0 → Type 0
M B C A = List B × Result C A

module _ {B C : Type 0} where
  abbrev pub pure : {A : Type 0} → A → M B C A
  pure a = ([], ok a)

  abbrev pub fail : {A : Type 0} → C → M B C A
  fail c = ([], err c)

  abbrev pub emit : B → M B C (Unit {0})
  emit b = (b ∷ [], ok tt)

  abbrev pub guard : Bool → C → M B C (Unit {0})
  guard true c = ([], ok tt)
  guard false c = ([], err c)

  infixl 5 ◌>>=◌ ◌>>◌
  abbrev pub ◌>>=◌ : {A A' : Type 0} → M B C A → (A → M B C A') → M B C A'
  (bs, ok a) >>= f = let r = f a in (bs ++ r.0, r.1)
  (bs, err c) >>= f = (bs, err c)

  abbrev pub ◌>>◌ : {A' : Type 0} → M B C (Unit {0}) → M B C A' → M B C A'
  m >> k = m >>= λ _. k
