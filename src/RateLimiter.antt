-- ===== src/RateLimiter.antt =====
-- `_WindowCounter` and `RateLimiter` of src/rastir/server/rate_limiter.py. The clock is read in
-- whole ticks, in which the window is counted too; `defaultdict` makes a fresh counter for an
-- unknown key. Of the Prometheus counter only its two values are kept.
pub mod Windows
use rastir.Base.{
  ℕ, ◌+◌, ◌*◌, ◌/◌, ◌^◌, String, Bool, true, false, not, Option, none, some, [], leb, ◌==◌,
  if◌then◌else◌,
}
use rastir.Dict
use rastir.Dict.{Dict}

pub record WindowCounter : Type 0 where
  pub limit : ℕ
  pub window : ℕ
  pub current : ℕ
  pub count : ℕ

-- 60 seconds in ticks of a nanosecond
abbrev pub default_window : ℕ
default_window = 60 * 10 ^ 9

unfoldable pub fresh : ℕ → WindowCounter
fresh limit = record { limit = limit; window = default_window; current = 0; count = 0 }

-- the rotation into the bucket of `now`
unfoldable pub rotate : ℕ → WindowCounter → WindowCounter
rotate now c =
    let bucket = now / c.window in
    if bucket == c.current then c else record c { current = bucket; count = 0 }

unfoldable pub allow : ℕ → WindowCounter → Bool × WindowCounter
unfolding rotate
allow now c =
    let c' = rotate now c in (leb (c'.count + 1) c'.limit, record c' { count = c'.count + 1 })

pub record RateLimiter : Type 0 where
  pub per_ip_rpm : ℕ
  pub per_service_rpm : ℕ
  pub ip_counters : Dict WindowCounter
  pub service_counters : Dict WindowCounter
  pub rate_limited_ip : ℕ
  pub rate_limited_service : ℕ

unfoldable pub init : ℕ → ℕ → RateLimiter
init per_ip_rpm per_service_rpm = record {
  per_ip_rpm = per_ip_rpm;
  per_service_rpm = per_service_rpm;
  ip_counters = [];
  service_counters = [];
  rate_limited_ip = 0;
  rate_limited_service = 0;
}

-- `counters[key]` of a `defaultdict`
abbrev pub counter_of : ℕ → Option WindowCounter → WindowCounter
counter_of limit none = fresh limit
counter_of limit (some c) = c

-- The dimension that blocked a request.
pub data Dimension : Type 0 where
  ip service : Dimension

-- the first guard: the address is counted
unfoldable pub count_ip : String → ℕ → RateLimiter → Bool × RateLimiter
count_ip client_ip now r =
    let (ok, c) = allow now (counter_of r.per_ip_rpm (Dict.get client_ip r.ip_counters)) in
    (ok, record r { ip_counters = Dict.put client_ip c r.ip_counters })

-- the second guard: the service is counted
unfoldable pub count_service : String → ℕ → RateLimiter → Bool × RateLimiter
count_service name now r =
    let (ok, c) = allow now (counter_of r.per_service_rpm (Dict.get name r.service_counters)) in
    (ok, record r { service_counters = Dict.put name c r.service_counters })

-- `check`; the clock is read once for the address and once for the service.
unfoldable pub check : String → String → ℕ → ℕ → RateLimiter → Option Dimension × RateLimiter
unfolding count_ip count_service
check client_ip name now later r =
    let (ip_ok, r1) = count_ip client_ip now r in
    let (service_ok, r2) = count_service name later r1 in
    if not ip_ok
    then (some ip, record r1 { rate_limited_ip = r1.rate_limited_ip + 1 })
    else (if not service_ok
        then (some service, record r2 { rate_limited_service = r2.rate_limited_service + 1 })
        else (none, r2))
