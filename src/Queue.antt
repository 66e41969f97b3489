-- ===== src/Queue.antt =====
-- Python's `queue.Queue` and `asyncio.Queue`, as src/rastir uses them: a first-in first-out buffer
-- with a bound, where a bound of 0 means none. Only the calls that do not wait are here.
pub mod Window
use rastir.Base.{
  ℕ, Bool, ◌&&◌, Option, none, some, List, [], ◌∷◌, ◌++◌, length, ltb, leb, if◌then◌else◌,
}

pub record Queue {ℓ} (A : Type ℓ) : Type ℓ where
  pub maxsize : ℕ
  pub items : List A

module _ {ℓ} {A : Type ℓ} where
  unfoldable pub empty : ℕ → Queue A
  empty maxsize = record { maxsize = maxsize; items = [] }

  abbrev pub qsize : Queue A → ℕ
  qsize q = length q.items

  unfoldable pub full : Queue A → Bool
  full q = ltb 0 q.maxsize && leb q.maxsize (length q.items)

  -- `none` is the exception `Full`.
  unfoldable pub put_nowait : A → Queue A → Option (Queue A)
  unfolding full
  put_nowait a q = if full q then none else some (record q { items = q.items ++ a ∷ [] })

  -- `none` is the exception `Empty`.
  unfoldable pub get_nowait : Queue A → Option (A × Queue A)
  get_nowait q = elim q.items [ [] ↦ none | a ∷ rest ↦ some (a, record q { items = rest }) ]
