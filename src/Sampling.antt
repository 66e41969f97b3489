-- ===== src/Sampling.antt =====
-- `_should_store` of src/rastir/server/ingestion.py. The rate is in millionths. `draw` is the
-- number, in millionths, that `random.random()` gives if it is asked.
pub mod Decision
use rastir.Base.{
  ℕ, ◌-◌, ◌*◌, ◌/◌, String, Bool, true, false, Option, none, some, ltb, leb, str_eq, if◌then◌else◌,
}
use rastir.Base.Integers.{ℤ, pos, negsuc}
use rastir.Text.{text_length, text_drop}
use rastir.Text.Hex.{int16}
use rastir.Span.{Span}

-- `trace_id[-8:]`
unfoldable pub last_eight : String → String
unfolding text_length text_drop
last_eight trace_id = text_drop (text_length trace_id - 8) trace_id

-- `int(rate * 0xFFFFFFFF)`
abbrev pub threshold : ℕ → ℕ
threshold rate = rate * 0xFFFFFFFF / 1000000

abbrev pub at_most : ℕ → Option ℤ → Option Bool
at_most t none = none
at_most t (some (negsuc n)) = some true
at_most t (some (pos n)) = some (leb n t)

-- the decision of a trace with the id, or of one span without
unfoldable pub decide : ℕ → Option String → ℕ → Option Bool
decide rate none draw = some (ltb draw rate)
decide rate (some trace_id) draw =
    if str_eq trace_id ""
    then some (ltb draw rate)
    else at_most (threshold rate) (int16 (last_eight trace_id))

-- `none` is an exception.
unfoldable pub should_store : ℕ → Span → ℕ → Option Bool
unfolding decide
should_store rate span draw =
    if leb 1000000 rate
    then some true
    else (if leb rate 0 then some false else decide rate span.trace_id draw)
