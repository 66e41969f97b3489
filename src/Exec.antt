-- ===== src/Exec.antt =====
-- Code that changes a state and may raise an exception: what was written before the exception
-- stays written. `none` is the exception.
use rastir.Base.{Option, none, some, Bool, true, false}

abbrev pub Exec : Type 0 → Type 0 → Type 0
Exec S A = S → Option A × S

-- Whether it went through.
abbrev pub finished : {A : Type 0} → Option A → Bool
finished none = false
finished (some a) = true

module _ {S A : Type 0} where
  abbrev pub pure : A → Exec S A
  pure a s = (some a, s)

  abbrev pub raise : Exec S A
  raise s = (none, s)

  abbrev pub lift : Option A → Exec S A
  lift o s = (o, s)

  abbrev pub gets : (S → A) → Exec S A
  gets f s = (some (f s), s)

module _ {S : Type 0} where
  abbrev pub modify : (S → S) → Exec S (Unit {0})
  modify f s = (some tt, f s)

  abbrev pub when : Bool → Exec S (Unit {0}) → Exec S (Unit {0})
  when true m = m
  when false m = pure tt

module _ {S A B : Type 0} where
  abbrev pub continue : Option A → (A → Exec S B) → Exec S B
  continue (some a) f s = f a s
  continue none f s = (none, s)

  infixl 10 ◌>>=◌ ◌>>◌
  abbrev pub ◌>>=◌ : Exec S A → (A → Exec S B) → Exec S B
  ◌>>=◌ code next before = let (result, between) = code before in continue result next between

  abbrev pub ◌>>◌ : Exec S A → Exec S B → Exec S B
  first >> second = first >>= λ _. second
