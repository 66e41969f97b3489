-- ===== src/Adapters/Choice.antt =====
-- Which adapter of src/rastir/adapters/registry.py answers, and what the framework's metadata add.
use rastir.Base.{
  ◌≤◌, String, ◌≡◌, refl, ap, subst, inl, inr, ◌⊎◌, none, some, List, [], ◌∷◌, ◌++◌, arith, All,
  eq_iff, Option-cases,
}
use rastir.Dict
use rastir.Dict.{Dict}
use rastir.Dict.Laws.{get-put}
use rastir.Span.{Value}
use rastir.Adapters.{
  Adapter, AdapterResult, Framework, nothing, max_unwrap, or_else, offer, extract, fill_attrs,
  merge_framework, unwrap, resolve_with,
}
use rastir.Adapters.Sorting.{Descending}

-- The result's own attributes win over the framework's.
get-fill_attrs :
    (k : String) (attrs extra : Dict Value)
    → Dict.get k (fill_attrs attrs extra) ≡ or_else (Dict.get k extra) (Dict.get k attrs)
unfolding fill_attrs Dict.get Dict.has
get-fill_attrs k [] extra = ground arith
get-fill_attrs k ((j, v) ∷ attrs) extra = ground (
  arith,
  eq_iff j k,
  get-fill_attrs k attrs extra,
  get-fill_attrs k attrs (Dict.put j v extra),
  get-put j k v extra,
)

module _ {Obj : Type 0} where
  -- The first adapter of a kind that gives a result.
  pub record Chosen (kind : String) (l : List (Adapter Obj)) (x : Obj) (ar : AdapterResult Obj)
      : Type 0 where
    pub before : List (Adapter Obj)
    pub adapter : Adapter Obj
    pub behind : List (Adapter Obj)
    pub place : l ≡ before ++ adapter ∷ behind
    pub none_before : All (λ b. offer kind x b ≡ none) before
    pub offered : offer kind x adapter ≡ some ar
    pub none_higher : All (λ b. b.priority ≤ adapter.priority) behind

  extract-Chosen :
      (kind : String) (l : List (Adapter Obj)) (x : Obj) (ar : AdapterResult Obj)
      → Descending l
      → extract kind l x ≡ some ar
      → Chosen kind l x ar
  unfolding extract
  extract-Chosen kind [] x ar d h = absurd (ground (arith, h))
  extract-Chosen kind (a ∷ l) x ar d h = elim (Option-cases (offer kind x a)) [
    | inr (ar', e) ↦ record {
      before = [];
      adapter = a;
      behind = l;
      place = refl;
      none_before = tt;
      offered = ground (arith, e, h);
      none_higher = d.0;
    }
    | inl e ↦
        let rest = extract-Chosen kind l x ar d.1 (ground (arith, e, h)) in
        record {
          before = a ∷ rest.before;
          adapter = rest.adapter;
          behind = rest.behind;
          place = ap (◌∷◌ a) rest.place;
          none_before = (e, rest.none_before);
          offered = rest.offered;
          none_higher = rest.none_higher;
        }
  ]

  extract-none :
      (kind : String) (l : List (Adapter Obj)) (x : Obj)
      → extract kind l x ≡ none
      → All (λ b. offer kind x b ≡ none) l
  unfolding extract
  extract-none kind [] x h = tt
  extract-none kind (a ∷ l) x h = elim (Option-cases (offer kind x a)) [
    | inr (ar, e) ↦ absurd (ground (arith, e, h))
    | inl e ↦ (e, extract-none kind l x (ground (arith, e, h)))
  ]

  -- What a result is made of.
  pub record Resolved (l : List (Adapter Obj)) (x : Obj) (f : Framework) (res : AdapterResult Obj)
      : Type 0 where
    pub found : AdapterResult Obj
    pub from :
        Chosen "provider" l x found
        ⊎ (All (λ b. offer "provider" x b ≡ none) l × Chosen "fallback" l x found)
    pub attributes :
        (k : String)
        → Dict.get k res.extra_attributes
          ≡ or_else (Dict.get k found.extra_attributes) (Dict.get k f.attrs)
    pub tokens_input : res.tokens_input ≡ or_else found.tokens_input f.tokens_input
    pub tokens_output : res.tokens_output ≡ or_else found.tokens_output f.tokens_output
    pub provider : res.provider ≡ found.provider

  merged :
      (l : List (Adapter Obj)) (x : Obj) (f : Framework) (found : AdapterResult Obj)
      → Chosen "provider" l x found
        ⊎ (All (λ b. offer "provider" x b ≡ none) l × Chosen "fallback" l x found)
      → Resolved l x f (merge_framework f found)
  unfolding merge_framework
  merged l x f found from = record {
    found = found;
    from = from;
    attributes = λ k. get-fill_attrs k f.attrs found.extra_attributes;
    tokens_input = refl;
    tokens_output = refl;
    provider = refl;
  }

  -- With the adapters in descending priority, a result is that of the first provider adapter that handles
  -- the unwrapped object without raising, and no such adapter behind it has a higher priority; only
  -- if there is none, it is that of the first fallback adapter that does not raise. Its own tokens
  -- and attributes win over the framework's, which fill the gaps; its provider stays.
  pub resolve_with-Resolved :
      (l : List (Adapter Obj)) (x : Obj) (res : AdapterResult Obj)
      → Descending l
      → resolve_with l x ≡ some res
      → Resolved l (unwrap max_unwrap l x nothing).0 (unwrap max_unwrap l x nothing).1 res
  unfolding resolve_with
  resolve_with-Resolved l x res d h =
      let inner = (unwrap max_unwrap l x nothing).0 in
      let f = (unwrap max_unwrap l x nothing).1 in
      elim (Option-cases (extract "provider" l inner)) [
        | inr (found, e) ↦
            subst (Resolved l inner f) (ground (arith, e, h))
              (merged l inner f found (inl (extract-Chosen "provider" l inner found d e)))
        | inl e ↦ elim (Option-cases (extract "fallback" l inner)) [
          | inl g ↦ absurd (ground (arith, e, g, h))
          | inr (found, g) ↦ subst (Resolved l inner f) (ground (arith, e, g, h)) (
              merged l inner f found (
                inr
                  (extract-none "provider" l inner e, extract-Chosen "fallback" l inner found d g)))
        ]
      ]
