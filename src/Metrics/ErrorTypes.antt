-- ===== src/Metrics/ErrorTypes.antt =====
-- The error categories of src/rastir/server/metrics.py.
use rastir.Base.{
  String, ◌≡◌, refl, Bool, true, false, ◌&&◌, ◌||◌, Option, none, some, List, [], ◌∷◌, arith,
  str_eq, if◌then◌else◌,
}
use rastir.Dict
use rastir.Dict.{Dict}
use rastir.Text.{codes, lower, occurs}
use rastir.Span.{Span}
use rastir.Metrics.{
  is_seen, error_type_map, error_type_by_substring, category_of, raw_error_type,
  normalise_error_type,
}

-- `_VALID_ERROR_TYPES`
abbrev pub valid_error_types : List String
valid_error_types =
    "timeout" ∷ "rate_limit" ∷ "validation_error" ∷ "provider_error" ∷ "internal_error" ∷ "unknown"
    ∷ []

-- Is every value of the table in the list?
values_in : List String → Dict String → Bool
values_in allowed [] = true
values_in allowed ((k, v) ∷ d) = is_seen v allowed && values_in allowed d

get-values_in :
    (allowed : List String) (k v : String) (d : Dict String)
    → values_in allowed d ≡ true
    → Dict.get k d ≡ some v
    → is_seen v allowed ≡ true
unfolding values_in Dict.get
get-values_in allowed k v [] h e = absurd (ground arith)
get-values_in allowed k v ((j, w) ∷ d) h e = ground (arith, get-values_in allowed k v d)

by_substring-valid : (raw : String) → is_seen (error_type_by_substring raw) valid_error_types ≡ true
unfolding error_type_by_substring is_seen
by_substring-valid raw =
    let low = lower (codes raw) in
    by_tests (occurs (codes "timeout") low)
      (occurs (codes "ratelimit") low || occurs (codes "rate_limit") low)
      (occurs (codes "validation") low)
  where
    by_tests :
        (a b c : Bool)
        → is_seen
            (if a
              then "timeout"
              else (if b then "rate_limit" else (if c then "validation_error" else "unknown")))
            valid_error_types
          ≡ true
    by_tests true b c = refl
    by_tests false true c = refl
    by_tests false false true = refl
    by_tests false false false = refl

map-valid : values_in valid_error_types error_type_map ≡ true
unfolding values_in is_seen
map-valid = refl

category_of-valid :
    (o : Option String) (raw : String)
    → Dict.get raw error_type_map ≡ o
    → is_seen (category_of o raw) valid_error_types ≡ true
unfolding category_of
category_of-valid none raw e = by_substring-valid raw
category_of-valid (some category) raw e =
    get-values_in valid_error_types raw category error_type_map map-valid e

-- Whatever events a span carries, its error type is one of the six fixed categories.
pub normalise_error_type-valid :
    (span : Span) → is_seen (normalise_error_type span) valid_error_types ≡ true
unfolding normalise_error_type is_seen
normalise_error_type-valid span = by_raw (str_eq (raw_error_type span.events) "")
  where
    by_raw :
        (b : Bool)
        → is_seen
            (if b
              then "unknown"
              else category_of
                  (Dict.get (raw_error_type span.events) error_type_map)
                  (raw_error_type span.events))
            valid_error_types
          ≡ true
    by_raw true = refl
    by_raw false = category_of-valid _ (raw_error_type span.events) refl
