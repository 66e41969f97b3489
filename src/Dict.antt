-- ===== src/Dict.antt =====
-- Python's `dict` and `collections.OrderedDict` with text keys, as the modules of the server use
-- them: an association list in insertion order.
pub mod Laws
pub mod Measure
use rastir.Base.{
  ℕ, ◌+◌, String, Bool, true, false, ◌≡◌, Option, none, some, List, [], ◌∷◌, ◌++◌, str_eq,
  if◌then◌else◌,
}

abbrev pub Dict {ℓ} : Type ℓ → Type ℓ
Dict V = List (String × V)

abbrev pub is_some {ℓ} : {A : Type ℓ} → Option A → Bool
is_some none = false
is_some (some a) = true

module _ {ℓ} {V : Type ℓ} where
  -- `d.get(k)`
  unfoldable pub get : String → Dict V → Option V
  get k [] = none
  get k ((j, v) ∷ d) = if str_eq j k then some v else get k d

  -- `k in d`
  unfoldable pub has : String → Dict V → Bool
  unfolding get
  has k d = is_some (get k d)

  -- `d[k] = v`: in place for an old key, at the end for a new one.
  unfoldable pub put : String → V → Dict V → Dict V
  put k v [] = (k, v) ∷ []
  put k v ((j, w) ∷ d) = if str_eq j k then (j, v) ∷ d else (j, w) ∷ put k v d

  -- `d.pop(k, None)`, without the value
  unfoldable pub remove : String → Dict V → Dict V
  remove k [] = []
  remove k ((j, v) ∷ d) = let rest = remove k d in if str_eq j k then rest else (j, v) ∷ rest

  move_entry : Option V → String → Dict V → Dict V
  move_entry none k d = d
  move_entry (some v) k d = remove k d ++ (k, v) ∷ []

  -- `d.move_to_end(k)` for a key that is there
  unfoldable pub move_to_end : String → Dict V → Dict V
  unfolding move_entry
  move_to_end k d = move_entry (get k d) k d

  -- The keys in order.
  abbrev pub keys : Dict V → List String
  keys [] = []
  keys ((k, v) ∷ d) = k ∷ keys d

  -- No key twice: what Python's tables guarantee.
  abbrev pub Distinct : Dict V → Type 0
  Distinct [] = Unit
  Distinct ((k, v) ∷ d) = (has k d ≡ false) × Distinct d

  -- The sum of a measure of the values.
  abbrev pub total : (V → ℕ) → Dict V → ℕ
  total w [] = 0
  total w ((k, v) ∷ d) = w v + total w d
