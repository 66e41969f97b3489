-- ===== src/Pricing/Loading.antt =====
-- What the registry answers after loading.
use Prim.Native.Char.{Char, code}
use Prim.Native.String.{◌++◌ as append}
use Prim.Native.String.append.{nil as append-nil, cons as append-cons}
use rastir.Base.{
  sym, ◌∙◌, eq_iff, Bool-cases, inl, inr, ℕ, String, ◌≡◌, refl, ap, Bool, true, false, ◌&&◌, Option,
  none, some, List, [], ◌∷◌, arith, str_eq, if◌then◌else◌,
}
use rastir.Dict
use rastir.Dict.{Dict}
use rastir.Dict.Laws.{get-put}
use rastir.Text.Parts.{Lacks}
use rastir.Pricing.{
  PricingEntry, missing, number, unreadable, ModelData, ProviderData, Registry, key, lookup,
  cost_of, calculate_cost, register, load_model, load_models, load_provider, load_dict,
}

-- Does the pair have two readable prices?
abbrev pub valid : ModelData → Option PricingEntry
valid (some (number n, number m)) = some (record { input_price = n; output_price = m })
valid _ = none

-- `float` refuses no price.
abbrev pub readable : ModelData → Bool
readable (some (number n, unreadable)) = false
readable (some (unreadable, number m)) = false
readable (some (unreadable, unreadable)) = false
readable _ = true

tail_injective : {c d : Char} {s t : String} → String.◌∷◌ c s ≡ String.◌∷◌ d t → s ≡ t
tail_injective e = cc

head_injective : {c d : Char} {s t : String} → String.◌∷◌ c s ≡ String.◌∷◌ d t → c ≡ d
head_injective e = cc

colon_lem : (b : String) → append ":" b ≡ String.◌∷◌ ":" b
colon_lem b = append-cons ":" "" b ∙ ap (String.◌∷◌ ":") (append-nil b)

-- The first colon ends the provider.
joined_injective :
    (a a' b b' : String)
    → Lacks b':' a
    → Lacks b':' a'
    → append a (String.◌∷◌ ":" b) ≡ append a' (String.◌∷◌ ":" b')
    → (a ≡ a') × (b ≡ b')
joined_injective String.[] String.[] b b' h h' e =
    (refl, tail_injective (sym (append-nil _) ∙ e ∙ append-nil _))
joined_injective String.[] (String.◌∷◌ c a') b b' h (h', hs') e =
    absurd (h' (ap code (sym (head_injective (sym (append-nil _) ∙ e ∙ append-cons c a' _)))))
joined_injective (String.◌∷◌ c a) String.[] b b' (h, hs) h' e =
    absurd (h (ap code (head_injective (sym (append-cons c a _) ∙ e ∙ append-nil _))))
joined_injective (String.◌∷◌ c a) (String.◌∷◌ d a') b b' (h, hs) (h', hs') e =
    let same = sym (append-cons c a _) ∙ e ∙ append-cons d a' _ in
    let (rest, other) = joined_injective a a' b b' hs hs' (tail_injective same) in
    (rw (head_injective same, rest) refl, other)

-- The later entry, or else the earlier one.
abbrev pub later_or : Option PricingEntry → Option PricingEntry → Option PricingEntry
later_or none earlier = earlier
later_or (some e) earlier = some e

differ : false ≡ true → ⊥
differ e = cc

chosen :
    (b : Bool) (e : PricingEntry) (earlier : Option PricingEntry)
    → (if b then some e else earlier) ≡ later_or (if b then some e else none) earlier
chosen true e earlier = refl
chosen false e earlier = refl

module _ (lower : String → String) where
  -- The same provider and the same model, but for the case of letters.
  abbrev pub same_names : String → String → String → String → Bool
  same_names provider model p m =
      str_eq (lower provider) (lower p) && str_eq (lower model) (lower m)

  -- The last valid entry for the model `m` of `p` in the data of one provider.
  unfoldable pub last_model :
      String → String → String → List (String × ModelData) → Option PricingEntry
  last_model p m provider [] = none
  last_model p m provider ((model, prices) ∷ rest) =
      later_or (last_model p m provider rest)
        (if same_names provider model p m then valid prices else none)

  abbrev pub last_of_provider : String → String → String → ProviderData → Option PricingEntry
  last_of_provider p m provider none = none
  last_of_provider p m provider (some models) = last_model p m provider models

  -- The last valid entry in the whole data.
  unfoldable pub last_entry : String → String → List (String × ProviderData) → Option PricingEntry
  last_entry p m [] = none
  last_entry p m ((provider, models) ∷ rest) =
      later_or (last_entry p m rest) (last_of_provider p m provider models)

  -- No provider of the data has a colon in its name.
  abbrev pub WithoutColon : List (String × ProviderData) → Type 0
  WithoutColon [] = Unit
  WithoutColon ((provider, models) ∷ rest) = Lacks b':' (lower provider) × WithoutColon rest

  key-same_names :
      (provider model p m : String)
      → Lacks b':' (lower provider)
      → Lacks b':' (lower p)
      → str_eq (key lower provider model) (key lower p m) ≡ same_names provider model p m
  unfolding key
  key-same_names provider model p m h h' =
      let a = lower provider in
      let b = lower model in
      let a' = lower p in
      let b' = lower m in
      let to = λ (e : append a (append ":" b) ≡ append a' (append ":" b')).
        joined_injective a a' b b' h h'
          (ap (append a) (sym (colon_lem b)) ∙ e ∙ ap (append a') (colon_lem b')) in
      elim (Bool-cases (str_eq (append a (append ":" b)) (append a' (append ":" b')))) [
        | inl e ↦
            let (same, same') = to ((eq_iff _ _).0 e) in
            ground (arith, e, same, same', eq_iff a a', eq_iff b b')
        | inr e ↦ elim (Bool-cases (str_eq a a' && str_eq b b')) [
          | inr f ↦ e ∙ sym f
          | inl f ↦
              let same : a ≡ a' = ground (arith, f, eq_iff a a') in
              let same' : b ≡ b' = ground (arith, f, eq_iff b b') in
              absurd (
                differ (
                  sym e
                  ∙ (eq_iff _ _).1 (
                      ap (λ t. append t (append ":" b)) same
                      ∙ ap (λ t. append a' (append ":" t)) same')))
        ]
      ]

  unfoldable pub readable_models : List (String × ModelData) → Bool
  readable_models [] = true
  readable_models ((model, prices) ∷ rest) = readable prices && readable_models rest

  abbrev pub readable_provider : ProviderData → Bool
  readable_provider none = true
  readable_provider (some models) = readable_models models

  unfoldable pub readable_data : List (String × ProviderData) → Bool
  readable_data [] = true
  readable_data ((provider, models) ∷ rest) = readable_provider models && readable_data rest

  module _ (p m : String) (plain : Lacks b':' (lower p)) where
    load_model_lem :
        (provider model : String) (prices : ModelData) (entries : Registry)
        → Lacks b':' (lower provider)
        → readable prices ≡ true
        → ((load_model lower provider model prices entries).0 ≡ some tt)
          × (Dict.get (key lower p m) (load_model lower provider model prices entries).1
              ≡ later_or
                  (if same_names provider model p m then valid prices else none)
                  (Dict.get (key lower p m) entries))
    unfolding load_model register
    load_model_lem provider model none entries colon h = ground arith
    load_model_lem provider model (some (missing, out)) entries colon h = ground arith
    load_model_lem provider model (some (number n, missing)) entries colon h = ground arith
    load_model_lem provider model (some (unreadable, missing)) entries colon h = ground arith
    load_model_lem provider model (some (number n, number k)) entries colon h =
        let e : PricingEntry = record { input_price = n; output_price = k } in
        (
          refl,
          get-put (key lower provider model) (key lower p m) e entries
              ∙ ap (λ (b : Bool). if b then some e else Dict.get (key lower p m) entries)
                  (key-same_names provider model p m colon plain)
              ∙ chosen (same_names provider model p m) e (Dict.get (key lower p m) entries),
        )
    load_model_lem provider model (some (number n, unreadable)) entries colon h =
        absurd (ground arith)
    load_model_lem provider model (some (unreadable, number k)) entries colon h =
        absurd (ground arith)
    load_model_lem provider model (some (unreadable, unreadable)) entries colon h =
        absurd (ground arith)

    load_models_lem :
        (provider : String) (models : List (String × ModelData)) (entries : Registry)
        → Lacks b':' (lower provider)
        → readable_models models ≡ true
        → ((load_models lower provider models entries).0 ≡ some tt)
          × (Dict.get (key lower p m) (load_models lower provider models entries).1
              ≡ later_or (last_model p m provider models) (Dict.get (key lower p m) entries))
    unfolding load_models last_model readable_models
    load_models_lem provider [] entries colon h = (refl, refl)
    load_models_lem provider ((model, prices) ∷ rest) entries colon h = ground (
      arith,
      load_model_lem provider model prices entries colon,
      load_models_lem provider rest (load_model lower provider model prices entries).1 colon,
    )

    load_dict_lem :
        (given : List (String × ProviderData)) (entries : Registry)
        → WithoutColon given
        → readable_data given ≡ true
        → ((load_dict lower given entries).0 ≡ some tt)
          × (Dict.get (key lower p m) (load_dict lower given entries).1
              ≡ later_or (last_entry p m given) (Dict.get (key lower p m) entries))
    unfolding load_dict load_provider last_entry readable_data
    load_dict_lem [] entries colons h = (refl, refl)
    load_dict_lem ((provider, none) ∷ rest) entries (colon, colons) h =
        ground (arith, load_dict_lem rest entries colons)
    load_dict_lem ((provider, some models) ∷ rest) entries (colon, colons) h = ground (
      arith,
      load_models_lem provider models entries colon,
      load_dict_lem rest (load_models lower provider models entries).1 colons,
    )

  -- Loading data in which `float` refuses no price goes through, and from then on the cost of a call
  -- is that of the last entry with both prices that the data has for the model under its provider,
  -- both in lower case, or that of before where the data has none. No provider, of the call or in
  -- the data, has a colon in its name.
  pub calculate_cost-load_dict :
      (given : List (String × ProviderData)) (entries : Registry) (provider model : String)
      (tokens_in tokens_out : ℕ)
      → Lacks b':' (lower provider)
      → WithoutColon given
      → readable_data given ≡ true
      → ((load_dict lower given entries).0 ≡ some tt)
        × (calculate_cost lower provider model tokens_in tokens_out
              (load_dict lower given entries).1
            ≡ cost_of tokens_in tokens_out
                (later_or (last_entry provider model given) (lookup lower provider model entries)))
  unfolding calculate_cost lookup
  calculate_cost-load_dict given entries provider model tokens_in tokens_out plain colons h =
      let (done, got) = load_dict_lem provider model plain given entries colons h in
      (done, ap (cost_of tokens_in tokens_out) got)
