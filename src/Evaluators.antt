-- ===== src/Evaluators.antt =====
-- `EvaluatorRegistry` of src/rastir/server/evaluators/registry.py, and what the worker reads of an
-- evaluator: its name and the attributes of its judge, empty where it has none.
pub mod Bounded
use rastir.Base.{
  ℕ, ◌≤◌, String, Bool, true, false, Option, none, some, List, [], ◌∷◌, length, leb, if◌then◌else◌,
}
use rastir.Dict
use rastir.Dict.{Dict, keys}

pub record Evaluator : Type 0 where
  pub name : String
  pub evaluator_model : String
  pub evaluator_provider : String

pub record EvaluatorRegistry : Type 0 where
  pub evaluators : Dict Evaluator
  pub max_types : ℕ

unfoldable pub init : ℕ → EvaluatorRegistry
init max_types = record { evaluators = []; max_types = max_types }

abbrev pub stored : Evaluator → EvaluatorRegistry → EvaluatorRegistry
stored e r = record r { evaluators = Dict.put e.name e r.evaluators }

-- `none` is the exception `ValueError`.
unfoldable pub register : Evaluator → EvaluatorRegistry → Option EvaluatorRegistry
register e r =
    if Dict.has e.name r.evaluators
    then some (stored e r)
    else (if leb r.max_types (length r.evaluators) then none else some (stored e r))

unfoldable pub get : String → EvaluatorRegistry → Option Evaluator
get name r = Dict.get name r.evaluators

unfoldable pub list_types : EvaluatorRegistry → List String
list_types r = keys r.evaluators
