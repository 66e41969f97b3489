-- ===== src/Tests/Adapters.antt =====
-- The adapters on a response inside a framework's wrapper; `true` is the wrapped one.
use rastir.Base.{ℕ, ◌≡◌, refl, Bool, true, false, not, none, some, List, [], ◌∷◌, arith}
use rastir.Adapters.{
  Adapter, AdapterResult, base_adapter, nothing, ensure_sorted, resolve_with, unwrap, unwrap_once,
  extract, merge_framework, fill_attrs, update_attrs, capture,
}
use rastir.Adapters.Sorting.{
  Call, registered, resolved, Descending, of_priority, run, all_registered, ensure_sorted-run,
}
use rastir.Adapters.Choice.{Resolved, resolve_with-Resolved}

abbrev empty : AdapterResult Bool
empty = record {
  unwrapped_result = none;
  model = none;
  provider = none;
  tokens_input = none;
  tokens_output = none;
  finish_reason = none;
  extra_attributes = [];
}

abbrev framework : Adapter Bool
framework = record base_adapter {
  name = "wrapper";
  kind = "framework";
  priority = 200;
  can_handle = λ x. x;
  transform = λ x. some (record empty { unwrapped_result = some false; tokens_input = some 3 });
}

abbrev provider : Adapter Bool
provider = record base_adapter {
  name = "provider";
  kind = "provider";
  priority = 150;
  can_handle = λ x. not x;
  transform = λ x. some (record empty { model = some "m"; provider = some "p" });
}

abbrev fallback : Adapter Bool
fallback = record base_adapter {
  name = "fallback";
  kind = "fallback";
  priority = 0;
  can_handle = λ x. true;
  transform = λ x. some empty;
}

abbrev calls : List (Call Bool)
calls = registered fallback ∷ registered provider ∷ resolved true ∷ registered framework ∷ []

ensure_sorted-run_example :
    Descending (ensure_sorted (run calls (record { adapters = []; is_sorted = false }))).adapters
    × ((n : ℕ)
        → of_priority n
            (ensure_sorted (run calls (record { adapters = []; is_sorted = false }))).adapters
          ≡ of_priority n (all_registered calls))
ensure_sorted-run_example = ensure_sorted-run calls

abbrev adapters : List (Adapter Bool)
adapters = framework ∷ provider ∷ fallback ∷ []

abbrev result : AdapterResult Bool
result = record empty { model = some "m"; provider = some "p"; tokens_input = some 3 }

resolved_lem : resolve_with adapters true ≡ some result
unfolding resolve_with unwrap unwrap_once extract merge_framework fill_attrs update_attrs capture
resolved_lem = refl

resolve_with-Resolved_example :
    Resolved adapters (unwrap 5 adapters true nothing).0 (unwrap 5 adapters true nothing).1 result
resolve_with-Resolved_example =
    resolve_with-Resolved adapters true result
      ((omega arith, (omega arith, tt)), ((omega arith, tt), (tt, tt))) resolved_lem
