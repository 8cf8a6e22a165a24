-- ===== src/Notification/Breaker/Examples.antt =====
-- The circuit breaker at concrete inputs.
use microservices_base_platf.Prelude.{ℕ, ◌+◌, ◌≡◌, Option, refl, some, [], ◌∷◌, String, arith}
use microservices_base_platf.Notification.Breaker.{
  CircuitBreaker, ExecuteError, Call, opened, new_circuit_breaker, execute, counted, run,
}
use microservices_base_platf.Notification.Breaker.Laws.{IsValid, run-IsValid}

abbrev failing : ℕ → Call String
failing t = record { now = t; later = t + 1; failure = some "timeout" }

abbrev tripped : CircuitBreaker
tripped = record {
  state = opened;
  failure_count = 2;
  open_duration = 30;
  last_failure_time = 100;
  max_failures = 2;
}

two_failures : (run (new_circuit_breaker 2 30) 0 (failing 1 ∷ failing 5 ∷ [])).0.state ≡ opened
unfolding run new_circuit_breaker execute
two_failures = refl

probe_skips : (run tripped 0 (failing 140 ∷ [])).1 ≡ 0
unfolding run execute
probe_skips = refl

abbrev outcome : CircuitBreaker × Option (ExecuteError String) × ℕ
outcome = execute tripped 140 140 (counted (failing 140)) 0

run-IsValid_example : IsValid (run (new_circuit_breaker 2 30) 0 (failing 1 ∷ failing 5 ∷ [])).0
run-IsValid_example = run-IsValid 2 30 (failing 1 ∷ failing 5 ∷ []) (omega arith)
