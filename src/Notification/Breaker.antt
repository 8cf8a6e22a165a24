-- ===== src/Notification/Breaker.antt =====
-- services/notification/internal/worker/circuit_breaker.go. `execute` is generic in the state that
-- the guarded operation acts on and in its errors. The clock is read before the operation (`now`)
-- and after it (`later`); `failureCount` and `maxFailures` are not negative.
pub mod Laws
mod Examples
use microservices_base_platf.Prelude.{
  ℕ, suc, ◌+◌, ◌-◌, Option, none, some, List, [], ◌∷◌, ltb, leb, if◌then◌else◌,
}

pub data CircuitBreakerState : Type 0 where
  closed opened half_open : CircuitBreakerState

pub record CircuitBreaker : Type 0 where
  pub state : CircuitBreakerState
  pub failure_count : ℕ
  pub open_duration : ℕ
  pub last_failure_time : ℕ
  pub max_failures : ℕ

unfoldable pub new_circuit_breaker : ℕ → ℕ → CircuitBreaker
new_circuit_breaker max_failures open_duration = record {
  state = closed;
  failure_count = 0;
  open_duration = open_duration;
  last_failure_time = 0;
  max_failures = max_failures;
}

-- `ErrCircuitBreakerOpen`, or the error of the operation.
pub data ExecuteError (E : Type 0) : Type 0 where
  circuit_breaker_open : ExecuteError E
  operation_failed : E → ExecuteError E

module _ {S E : Type 0} where
  -- The last lines of the half-open case, given what the operation returned.
  after_probe : CircuitBreaker → ℕ → Option E × S → CircuitBreaker × Option (ExecuteError E) × S
  after_probe cb later (some e, s) =
      (record cb { state = opened; last_failure_time = later }, some (operation_failed e), s)
  after_probe cb later (none, s) = (record cb { state = closed; failure_count = 0 }, none, s)

  -- The last lines of the closed case.
  after_call : CircuitBreaker → ℕ → Option E × S → CircuitBreaker × Option (ExecuteError E) × S
  after_call cb later (some e, s) =
      let failed = record cb { failure_count = cb.failure_count + 1 } in
      (
        (if leb cb.max_failures (cb.failure_count + 1)
            then record failed { state = opened; last_failure_time = later }
            else failed),
        some (operation_failed e),
        s,
      )
  after_call cb later (none, s) = (record cb { failure_count = 0 }, none, s)

  dispatch :
      CircuitBreakerState
      → CircuitBreaker
      → ℕ
      → ℕ
      → (S → Option E × S)
      → S
      → CircuitBreaker × Option (ExecuteError E) × S
  unfolding after_probe after_call
  -- An open breaker that has cooled down becomes half-open and falls out of the `switch`.
  dispatch opened cb now later operation s =
      if ltb cb.open_duration (now - cb.last_failure_time)
      then (record cb { state = half_open }, none, s)
      else (cb, some circuit_breaker_open, s)
  dispatch half_open cb now later operation s = after_probe cb later (operation s)
  dispatch closed cb now later operation s = after_call cb later (operation s)

  unfoldable pub execute :
      CircuitBreaker → ℕ → ℕ → (S → Option E × S) → S → CircuitBreaker × Option (ExecuteError E) × S
  unfolding dispatch
  execute cb now later operation s = dispatch cb.state cb now later operation s

-- A call, by its two clock readings and by what its operation returns when it is run.
pub record Call (E : Type 0) : Type 0 where
  pub now : ℕ
  pub later : ℕ
  pub failure : Option E

-- What a call runs: the state counts how often an operation was run.
abbrev pub counted : {E : Type 0} → Call E → ℕ → Option E × ℕ
counted c n = (c.failure, suc n)

-- A sequence of calls.
pub run : {E : Type 0} → CircuitBreaker → ℕ → List (Call E) → CircuitBreaker × ℕ
run cb count [] = (cb, count)
run cb count (c ∷ calls) =
    let (cb', _, count') = execute cb c.now c.later (counted c) count in run cb' count' calls
