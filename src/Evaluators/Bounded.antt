-- ===== src/Evaluators/Bounded.antt =====
-- The registry never holds more types than its bound.
use rastir.Base.{
  ◌+◌, ◌≤◌, String, ◌≡◌, false, none, some, [], ◌∷◌, arith, length, str_eq, if◌then◌else◌,
}
use rastir.Dict
use rastir.Dict.{Dict}
use rastir.Dict.Laws.{get-put}
use rastir.Evaluators.{Evaluator, EvaluatorRegistry, register, get}

length-put :
    (k : String) (v : Evaluator) (d : Dict Evaluator)
    → length (Dict.put k v d) ≡ (if Dict.has k d then length d else length d + 1)
unfolding Dict.put Dict.has Dict.get
length-put k v [] = omega arith
length-put k v ((j, w) ∷ d) = ground (arith, length-put k v d)

-- From a registry within its bound: a registration that goes through stays within it, finds the new
-- evaluator under its name and leaves the others; it is refused exactly for a new name at the bound.
pub register-bounded :
    (e : Evaluator) (r : EvaluatorRegistry)
    → length r.evaluators ≤ r.max_types
    → ((r' : EvaluatorRegistry)
        → register e r ≡ some r'
        → (length r'.evaluators ≤ r.max_types)
          × ((name : String) → get name r' ≡ (if str_eq e.name name then some e else get name r)))
      × (register e r ≡ none
          → (Dict.has e.name r.evaluators ≡ false) × (length r.evaluators ≡ r.max_types))
unfolding register get
register-bounded e r h = (
  λ r' s. (
    ground (arith, length-put e.name e r.evaluators),
    λ name. ground (arith, get-put e.name name e r.evaluators),
  ),
  λ s. ground arith,
)
