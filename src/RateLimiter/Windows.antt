-- ===== src/RateLimiter/Windows.antt =====
-- What the fixed windows guarantee.
use rastir.Base.{
  ℕ, suc, ◌+◌, ◌-◌, ◌/◌, min, String, ◌≡◌, ◌≢◌, ◌∙◌, refl, sym, subst, Bool, true, false, Option,
  some, List, [], ◌∷◌, ◌++◌, arith, length, str_eq, eq_iff, All, if◌then◌else◌,
}
use rastir.Dict
use rastir.Dict.{Dict}
use rastir.Dict.Laws.{get-put}
use rastir.RateLimiter.{
  WindowCounter, rotate, allow, RateLimiter, counter_of, Dimension, ip, count_ip, count_service,
  check,
}

-- The answers of one counter to requests at the given times.
unfoldable pub answers : List ℕ → WindowCounter → List Bool
answers [] c = []
answers (now ∷ nows) c = let (ok, c') = allow now c in ok ∷ answers nows c'

-- How many were allowed.
unfoldable pub allowed : List Bool → ℕ
allowed [] = 0
allowed (true ∷ bs) = suc (allowed bs)
allowed (false ∷ bs) = allowed bs

-- The counter after them.
unfoldable pub after : List ℕ → WindowCounter → WindowCounter
after [] c = c
after (now ∷ nows) c = after nows (allow now c).1

module _ (c : WindowCounter) (bucket : ℕ) where
  rotate_within : (now : ℕ) → now / c.window ≡ bucket → c.current ≡ bucket → rotate now c ≡ c
  unfolding rotate
  rotate_within now h e = ground arith

  rotate_into :
      (now : ℕ)
      → now / c.window ≡ bucket
      → c.current ≢ bucket
      → rotate now c ≡ record c { current = bucket; count = 0 }
  unfolding rotate
  rotate_into now h e = ground arith

-- In one window a counter allows exactly the first `limit` requests, however many come.
allowed_within :
    (nows : List ℕ) (c : WindowCounter) (bucket : ℕ)
    → All (λ now. now / c.window ≡ bucket) nows
    → c.current ≡ bucket
    → allowed (answers nows c) ≡ min (length nows) (c.limit - c.count)
unfolding answers allowed allow
allowed_within [] c bucket h e = omega arith
allowed_within (now ∷ nows) c bucket h e =
    rw (rotate_within c bucket now h.0 e)
      (ground (arith, allowed_within nows (record c { count = c.count + 1 }) bucket h.1 e))

-- The first request of a later window finds a reset counter.
allowed_next :
    (now : ℕ) (nows : List ℕ) (c : WindowCounter) (bucket : ℕ)
    → All (λ t. t / c.window ≡ bucket) (now ∷ nows)
    → c.current ≢ bucket
    → allowed (answers (now ∷ nows) c) ≡ min (length (now ∷ nows)) c.limit
unfolding answers allowed allow
allowed_next now nows c bucket h e = rw (rotate_into c bucket now h.0 e) (
    ground
      (arith, allowed_within nows (record c { current = bucket; count = 0 + 1 }) bucket h.1 refl))

after_frame :
    (nows : List ℕ) (c : WindowCounter) (bucket : ℕ)
    → All (λ now. now / c.window ≡ bucket) nows
    → c.current ≡ bucket
    → ((after nows c).limit ≡ c.limit)
      × ((after nows c).window ≡ c.window)
      × ((after nows c).current ≡ bucket)
unfolding after allow
after_frame [] c bucket h e = (refl, refl, e)
after_frame (now ∷ nows) c bucket h e = ground (
  arith,
  rotate_within c bucket now h.0 e,
  after_frame nows (record c { count = c.count + 1 }) bucket h.1 e,
)

answers-append :
    (xs ys : List ℕ) (c : WindowCounter)
    → allowed (answers (xs ++ ys) c) ≡ allowed (answers xs c) + allowed (answers ys (after xs c))
unfolding answers allowed after
answers-append [] ys c = omega arith
answers-append (x ∷ xs) ys c = ground (arith, answers-append xs ys (allow x c).1)

-- Of requests in the counter's current window, followed by requests in one other window, a counter
-- allows as many as its limit has left, and then as many as its whole limit.
pub allowed-answers :
    (xs : List ℕ) (y : ℕ) (ys : List ℕ) (c : WindowCounter) (bucket : ℕ)
    → All (λ t. t / c.window ≡ c.current) xs
    → All (λ t. t / c.window ≡ bucket) (y ∷ ys)
    → c.current ≢ bucket
    → allowed (answers (xs ++ y ∷ ys) c)
      ≡ min (length xs) (c.limit - c.count) + min (length (y ∷ ys)) c.limit
allowed-answers xs y ys c bucket hx hy e =
    let (same_limit, same_window, same_bucket) = after_frame xs c c.current hx refl in
    let later : All (λ t. t / (after xs c).window ≡ bucket) (y ∷ ys) =
      subst (λ w. All (λ t. t / w ≡ bucket) (y ∷ ys)) (sym same_window) hy in
    let other : (after xs c).current ≢ bucket = rw same_bucket e in
    answers-append xs (y ∷ ys) c
    ∙ (rw (
      allowed_within xs c c.current hx refl,
      allowed_next y ys (after xs c) bucket later other,
      same_limit,
    ))

pub record Request : Type 0 where
  pub client_ip : String
  pub name : String
  pub now : ℕ
  pub later : ℕ

abbrev pub run : Request → RateLimiter → Option Dimension × RateLimiter
run q r = check q.client_ip q.name q.now q.later r

-- The limiter let the address pass.
abbrev pub passed_ip : Option Dimension → Bool
passed_ip (some ip) = false
passed_ip _ = true

-- For each request of one client in a stream of requests, whether its address passed.
unfoldable pub passes : String → List Request → RateLimiter → List Bool
passes client [] r = []
passes client (q ∷ qs) r =
    let (d, r') = run q r in
    let rest = passes client qs r' in if str_eq q.client_ip client then passed_ip d ∷ rest else rest

-- When that client asked.
unfoldable pub times : String → List Request → List ℕ
times client [] = []
times client (q ∷ qs) =
    let rest = times client qs in if str_eq q.client_ip client then q.now ∷ rest else rest

check_ip :
    (q : Request) (r : RateLimiter) (client : String)
    → ((run q r).1.per_ip_rpm ≡ r.per_ip_rpm)
      × (Dict.get client (run q r).1.ip_counters ≡ (
          if str_eq q.client_ip client
          then some (allow q.now (counter_of r.per_ip_rpm (Dict.get q.client_ip r.ip_counters))).1
          else Dict.get client r.ip_counters))
      × (passed_ip (run q r).0
          ≡ (allow q.now (counter_of r.per_ip_rpm (Dict.get q.client_ip r.ip_counters))).0)
unfolding check count_ip count_service
check_ip q r client = ground (
  arith,
  get-put q.client_ip client
      (allow q.now (counter_of r.per_ip_rpm (Dict.get q.client_ip r.ip_counters))).1 r.ip_counters,
)

-- Whatever the other traffic, each client is answered as by a counter of its own: a request is
-- blocked for its address exactly when that counter refuses it.
pub passes-answers :
    (client : String) (qs : List Request) (r : RateLimiter)
    → passes client qs r
      ≡ answers (times client qs) (counter_of r.per_ip_rpm (Dict.get client r.ip_counters))
unfolding passes times answers
passes-answers client [] r = refl
passes-answers client (q ∷ qs) r =
    ground
      (arith, check_ip q r client, passes-answers client qs (run q r).1, eq_iff q.client_ip client)

-- A request changes the counters of its own address and service alone, and one that is blocked for
-- its address uses up nothing of its service.
pub check_isolated :
    (client_ip name : String) (now later : ℕ) (r : RateLimiter) (j : String)
    → (j ≢ client_ip
        → Dict.get j (check client_ip name now later r).1.ip_counters ≡ Dict.get j r.ip_counters)
      × (j ≢ name
          → Dict.get j (check client_ip name now later r).1.service_counters
            ≡ Dict.get j r.service_counters)
      × ((check client_ip name now later r).0 ≡ some ip
          → (check client_ip name now later r).1.service_counters ≡ r.service_counters)
unfolding check count_ip count_service
check_isolated client_ip name now later r j = ground (
  arith,
  get-put client_ip j (allow now (counter_of r.per_ip_rpm (Dict.get client_ip r.ip_counters))).1
      r.ip_counters,
  get-put name j (allow later (counter_of r.per_service_rpm (Dict.get name r.service_counters))).1
      r.service_counters,
  eq_iff client_ip j,
  eq_iff name j,
)
