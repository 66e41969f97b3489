-- ===== src/Pricing.antt =====
-- `PricingRegistry` of src/rastir/pricing.py. Prices are whole units of 1e-6 dollars for a million
-- tokens, costs whole units of 1e-12 dollars, so that the cost is exact where the code has floats.
-- Python's `str.lower` is the parameter `lower`. The file and the environment variable are read and
-- parsed outside; what the JSON texts hold is passed as values.
pub mod Loading
use Prim.Native.String.{◌++◌ as append}
use rastir.Base.{ℕ, ◌+◌, ◌*◌, String, Bool, true, false, Option, none, some, List, [], ◌∷◌}
use rastir.Dict
use rastir.Dict.{Dict}
use rastir.Exec.{Exec, pure, raise, modify, ◌>>=◌, ◌>>◌}

pub record PricingEntry : Type 0 where
  pub input_price : ℕ
  pub output_price : ℕ

-- A price in the data: absent or null, a number, or a value that `float` refuses.
pub data Price : Type 0 where
  missing : Price
  number : ℕ → Price
  unreadable : Price

-- What stands under a model, and what stands under a provider: `none` is no dictionary.
abbrev pub ModelData : Type 0
ModelData = Option (Price × Price)

abbrev pub ProviderData : Type 0
ProviderData = Option (List (String × ModelData))

abbrev pub Registry : Type 0
Registry = Dict PricingEntry

-- the cost and `pricing_missing`
abbrev pub cost_of : ℕ → ℕ → Option PricingEntry → ℕ × Bool
cost_of tokens_in tokens_out none = (0, true)
cost_of tokens_in tokens_out (some e) =
    (tokens_in * e.input_price + tokens_out * e.output_price, false)

module _ (lower : String → String) where
  -- `_key`
  unfoldable pub key : String → String → String
  key provider model = append (lower provider) (append ":" (lower model))

  unfoldable pub register : String → String → ℕ → ℕ → Registry → Registry
  unfolding key
  register provider model input_price output_price entries =
      Dict.put (key provider model)
        (record { input_price = input_price; output_price = output_price }) entries

  unfoldable pub lookup : String → String → Registry → Option PricingEntry
  unfolding key
  lookup provider model entries = Dict.get (key provider model) entries

  unfoldable pub calculate_cost : String → String → ℕ → ℕ → Registry → ℕ × Bool
  unfolding lookup
  calculate_cost provider model tokens_in tokens_out entries =
      cost_of tokens_in tokens_out (lookup provider model entries)

  -- one model of `_load_dict`: skipped, refused by `float`, or written
  unfoldable pub load_model : String → String → ModelData → Exec Registry (Unit {0})
  unfolding register
  load_model provider model none = pure tt
  load_model provider model (some (missing, out)) = pure tt
  load_model provider model (some (number n, missing)) = pure tt
  load_model provider model (some (unreadable, missing)) = pure tt
  load_model provider model (some (number n, number m)) = modify (register provider model n m)
  load_model provider model (some (number n, unreadable)) = raise
  load_model provider model (some (unreadable, number m)) = raise
  load_model provider model (some (unreadable, unreadable)) = raise

  unfoldable pub load_models : String → List (String × ModelData) → Exec Registry (Unit {0})
  load_models provider [] = pure tt
  load_models provider ((model, prices) ∷ rest) = do
    load_model provider model prices
    load_models provider rest

  unfoldable pub load_provider : String → ProviderData → Exec Registry (Unit {0})
  unfolding load_models
  load_provider provider none = pure tt
  load_provider provider (some models) = load_models provider models

  -- `_load_dict`
  unfoldable pub load_dict : List (String × ProviderData) → Exec Registry (Unit {0})
  load_dict [] = pure tt
  load_dict ((provider, models) ∷ rest) = do load_provider provider models; load_dict rest

-- JSON data that is there: `none` is data that cannot be read. A price that `float` refuses is a
-- text here, so that the exception is a ValueError, which the constructor does not catch.
abbrev pub Source : Type 0
Source = Option (Option (List (String × ProviderData)))

abbrev pub load_env : (String → String) → Source → Exec Registry (Unit {0})
load_env lower none = pure tt
load_env lower (some none) = pure tt
load_env lower (some (some given)) = load_dict lower given

-- `load_file`, where a file is named
abbrev pub load_file : (String → String) → Source → Exec Registry (Unit {0})
load_file lower none = pure tt
load_file lower (some none) = raise
load_file lower (some (some given)) = load_dict lower given

-- the constructor without inline entries: the environment variable, then the file
unfoldable pub init : (String → String) → Source → Source → Exec Registry (Unit {0})
unfolding load_dict
init lower from_env from_file = do load_env lower from_env; load_file lower from_file
