-- ===== src/SpanRecord/Errors.antt =====
-- An exception on the client and the category that the server counts it under.
use rastir.Base.{String, ◌≡◌, ◌≢◌, refl, false, some, [], arith, str_eq, eq_iff}
use rastir.Dict
use rastir.SpanRecord.{SpanRecord, record_error, to_dict}
use rastir.Metrics.{error_type_map, raw_error_type, category_of, normalise_error_type}

-- A span without earlier events that records an exception is sent with the status ERROR, and the
-- server counts it under the category of the exception's type, whatever its message: the one of
-- the table, or the one by the substrings of the name.
pub normalise_error_type-record_error :
    (error_type error_message : String) (s : SpanRecord)
    → s.events ≡ []
    → error_type ≢ ""
    → ((to_dict (record_error error_type error_message s)).status ≡ some "ERROR")
      × (normalise_error_type (to_dict (record_error error_type error_message s))
          ≡ category_of (Dict.get error_type error_type_map) error_type)
unfolding to_dict record_error normalise_error_type raw_error_type
normalise_error_type-record_error error_type error_message s none_yet named =
    let named' : str_eq error_type "" ≡ false = ground (arith, eq_iff error_type "") in
    simp (none_yet, named') (refl, refl)
