-- ===== src/Platform/RateLimit.antt =====
-- pkg/ratelimit/ratelimit.go and middleware.go: a limit on the requests of a key in a fixed window
-- of time, counted in Redis. The commands of Redis are parameters, and what its documentation says
-- of them is `Laws`. The key of a request, which is its user's or its address, is given.
pub mod Window
mod Examples
use microservices_base_platf.Prelude.{
  ℕ, suc, ◌+◌, ◌-◌, ◌/◌, ◌<◌, ◌≡◌, ◌≢◌, String, Bool, true, false, Option, none, some, List, [],
  ◌∷◌, leb, ◌==◌, str_eq, if◌then◌else◌, ℤ, pos, negsuc,
}
use microservices_base_platf.Platform.Errors.{AppError, too_many_requests}

abbrev pub Key : Type 0
Key = String

-- The commands that the script calls, and the passing of some seconds.
pub record Redis (S : Type 0) : Type 0 where
  pub incr : Key → S → ℕ × S
  pub expire : Key → ℕ → S → S
  pub ttl : Key → S → ℤ
  pub pause : ℕ → S → S

-- A key that has not expired has a number and the seconds that it has left, if it is to expire.
pub record Laws {S : Type 0} (redis : Redis S) : Type 0 where
  pub counter : Key → S → Option (ℕ × Option ℕ)
  pub incr_new :
      (k : Key) (s : S)
      → counter k s ≡ none
      → ((redis.incr k s).0 ≡ 1) × (counter k (redis.incr k s).1 ≡ some (1, none))
  pub incr_more :
      (k : Key) (s : S) (n : ℕ) (t : Option ℕ)
      → counter k s ≡ some (n, t)
      → ((redis.incr k s).0 ≡ suc n) × (counter k (redis.incr k s).1 ≡ some (suc n, t))
  pub incr_other : (j k : Key) (s : S) → j ≢ k → counter j (redis.incr k s).1 ≡ counter j s
  pub expire_set :
      (k : Key) (d : ℕ) (s : S) (n : ℕ) (t : Option ℕ)
      → 0 < d
      → counter k s ≡ some (n, t)
      → counter k (redis.expire k d s) ≡ some (n, some d)
  pub expire_other :
      (j k : Key) (d : ℕ) (s : S) → j ≢ k → counter j (redis.expire k d s) ≡ counter j s
  pub ttl_left :
      (k : Key) (s : S) (n t : ℕ) → counter k s ≡ some (n, some t) → redis.ttl k s ≡ pos t
  pub pause_none :
      (k : Key) (d : ℕ) (s : S) → counter k s ≡ none → counter k (redis.pause d s) ≡ none
  pub pause_left :
      (k : Key) (d : ℕ) (s : S) (n t : ℕ)
      → d < t
      → counter k s ≡ some (n, some t)
      → counter k (redis.pause d s) ≡ some (n, some (t - d))

-- `Window` is in nanoseconds.
pub record Config : Type 0 where
  pub limit : ℕ
  pub window : ℕ

-- `ResetIn` in seconds.
pub record Result : Type 0 where
  pub allowed : Bool
  pub remaining : ℕ
  pub reset_in : ℕ

abbrev pub second : ℕ
second = 1000000000

abbrev pub window_secs : Config → ℕ
window_secs cfg = cfg.window / second

abbrev pub or_window : Config → ℤ → ℕ
or_window cfg (pos n) = n
or_window cfg (negsuc n) = window_secs cfg

abbrev pub result_of : Config → ℕ → ℤ → Result
result_of cfg current ttl = record {
  allowed = leb current cfg.limit;
  remaining = cfg.limit - current;
  reset_in = or_window cfg ttl;
}

-- The headers of a reply, each a number.
pub record Headers : Type 0 where
  pub limit : ℕ
  pub remaining : ℕ
  pub reset : ℕ
  pub retry_after : Option ℕ

-- A request goes on to its handler, with headers or, if Redis failed, without; or it is refused.
pub data Reply : Type 0 where
  passed : Option Headers → Reply
  refused : AppError → Headers → Reply

abbrev pub headers_of : Config → Result → Headers
headers_of cfg r = record {
  limit = cfg.limit;
  remaining = r.remaining;
  reset = r.reset_in;
  retry_after = none;
}

abbrev pub reply_by : Config → Bool → Result → Reply
reply_by cfg true r = passed (some (headers_of cfg r))
reply_by cfg false r =
    refused too_many_requests (record (headers_of cfg r) { retry_after = some r.reset_in })

abbrev pub reply_to : Config → Option Result → Reply
reply_to cfg none = passed none
reply_to cfg (some r) = reply_by cfg r.allowed r

-- What happens to the limiter: a request of a key, with the error that its script meets, or a pause.
pub data Event : Type 0 where
  request : Key → Option String → Event
  waits : ℕ → Event

module _ {S : Type 0} (redis : Redis S) (cfg : Config) where
  abbrev pub expire_if : Bool → Key → S → S
  expire_if false k s = s
  expire_if true k s = redis.expire k (window_secs cfg) s

  abbrev pub read_back : Key → ℕ → S → (ℕ × ℤ) × S
  read_back k current s = ((current, redis.ttl k s), s)

  abbrev pub counted : Key → ℕ × S → (ℕ × ℤ) × S
  counted k (current, s) = read_back k current (expire_if (current == 1) k s)

  -- `luaFixedWindow`, which Redis runs in one step.
  abbrev pub lua_fixed_window : Key → S → (ℕ × ℤ) × S
  lua_fixed_window k s = counted k (redis.incr k s)

  abbrev pub results : (ℕ × ℤ) × S → Option Result × S
  results ((current, ttl), s) = (some (result_of cfg current ttl), s)

  -- `allow`; no result is an error.
  unfoldable pub allow : Option String → Key → S → Option Result × S
  allow (some e) k s = (none, s)
  allow none k s = results (lua_fixed_window k s)

  -- `GinMiddlewareWithConfig`.
  unfoldable pub gin_middleware : Option String → Key → S → Reply × S
  unfolding allow
  gin_middleware e k s = let (r, s') = allow e k s in (reply_to cfg r, s')

  abbrev pub note :
      Bool → Option String × Reply → List (Option String × Reply) → List (Option String × Reply)
  note true r rs = r ∷ rs
  note false r rs = rs

  -- The replies to the requests of one key, each with the error of its script, among all events.
  pub replies_to : Key → List Event → S → List (Option String × Reply)
  unfolding gin_middleware
  replies_to k [] s = []
  replies_to k (waits d ∷ events) s = replies_to k events (redis.pause d s)
  replies_to k (request j e ∷ events) s =
      note (str_eq j k) (e, (gin_middleware e j s).0) (replies_to k events (gin_middleware e j s).1)
