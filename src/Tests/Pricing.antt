-- ===== src/Tests/Pricing.antt =====
-- Loading of prices on a concrete input.
use rastir.Base.{arith, String, ◌≡◌, refl, false, some, none, List, [], ◌∷◌}
use rastir.Pricing.{ProviderData, number, missing, load_dict, calculate_cost, key}
use rastir.Pricing.Loading.{
  last_entry, last_model, readable_data, readable_models, calculate_cost-load_dict,
}

abbrev same : String → String
same s = s

abbrev prices : List (String × ProviderData)
prices =
    ("openai", some (("gpt", some (number 5, number 7)) ∷ ("old", some (number 1, missing)) ∷ []))
    ∷ ("other", none)
    ∷ []

calculate_cost-load_dict_example :
    ((load_dict same prices []).0 ≡ some tt)
    × (calculate_cost same "openai" "gpt" 2 3 (load_dict same prices []).1 ≡ (31, false))
unfolding readable_data readable_models last_entry last_model key
calculate_cost-load_dict_example =
    calculate_cost-load_dict same prices [] "openai" "gpt" 2 3 (ground arith)
      ((ground arith), ((ground arith), tt)) refl
