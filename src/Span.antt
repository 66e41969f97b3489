-- ===== src/Span.antt =====
-- The span dictionaries of the telemetry payload (`SpanRecord.to_dict` in src/rastir/spans.py writes
-- them, src/rastir/server reads them). A key that the payload may leave out is an `Option`; an
-- absent `attributes` reads as the empty dictionary, as in the code. Times
-- and durations are whole ticks of one nanosecond, where the payload has fractions.
use rastir.Base.{ℕ, String, Bool, true, false, not, Option, some, List, [], ◌∷◌, str_eq, ◌==◌}
use rastir.Dict.{Dict}

-- The JSON values that attributes take. Numbers are whole; a rate or a cost is in millionths.
pub data Value : Type 0 where
  null : Value
  flag : Bool → Value
  num : ℕ → Value
  text : String → Value
  texts : List String → Value

-- Python's truth of a value.
abbrev pub truthy : Value → Bool
truthy null = false
truthy (flag b) = b
truthy (num n) = not (n == 0)
truthy (text s) = not (str_eq s "")
truthy (texts []) = false
truthy (texts (s ∷ r)) = true

-- One of the `events`, with the parts that the server reads.
pub record Event : Type 0 where
  pub name : Option String
  pub exception_type : Option String
  pub exception_message : Option String

pub record Span : Type 0 where
  pub trace_id : Option String
  pub span_id : Option String
  pub parent_id : Option String
  pub name : Option String
  pub span_type : Option String
  pub status : Option String
  pub service : Option String
  pub start_time : Option ℕ
  pub end_time : Option ℕ
  pub duration_ms : Option ℕ
  pub start_time_unix_nano : Option ℕ
  pub attributes : Dict Value
  pub events : List Event

-- `span["attributes"].get(k) == s` for a text `s`
abbrev pub is_text : String → Option Value → Bool
is_text s (some (text t)) = str_eq t s
is_text s _ = false
