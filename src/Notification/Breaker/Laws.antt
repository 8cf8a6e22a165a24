-- ===== src/Notification/Breaker/Laws.antt =====
-- What a caller of the circuit breaker can rely on.
use microservices_base_platf.Prelude.{
  ℕ, suc, ◌+◌, ◌-◌, ◌≤◌, ◌<◌, ◌≡◌, refl, ◌≢◌, ◌⊎◌, ◌↔◌, inl, inr, Option, none, some, List, [], ◌∷◌,
  length, All, ◌==◌, if◌then◌else◌, Bool-cases, arith,
}
use microservices_base_platf.Notification.Breaker.{
  CircuitBreaker, closed, opened, half_open, circuit_breaker_open, new_circuit_breaker, execute,
  Call, counted, run,
}

-- What holds between two calls: a closed breaker has failed less than `max_failures` times in a
-- row, and any other breaker has failed that often.
pub record IsValid (cb : CircuitBreaker) : Type 0 where
  pub below : cb.state ≡ closed → cb.failure_count < cb.max_failures
  pub reached : cb.state ≢ closed → cb.max_failures ≤ cb.failure_count
  pub positive : 0 < cb.max_failures

new_circuit_breaker-IsValid :
    (max_failures open_duration : ℕ)
    → 0 < max_failures
    → IsValid (new_circuit_breaker max_failures open_duration)
unfolding new_circuit_breaker
new_circuit_breaker-IsValid m d h = ground arith

abbrev pub IsHot : CircuitBreaker → ℕ → Type 0
IsHot cb now = now - cb.last_failure_time ≤ cb.open_duration

module _ {S E : Type 0} (cb : CircuitBreaker) (now later : ℕ) (operation : S → Option E × S)
    (s : S) where
  execute-IsValid : IsValid cb → IsValid (execute cb now later operation s).0
  unfolding execute
  execute-IsValid v = ground arith

  -- `execute` returns no error exactly when the operation ran and succeeded, or when the breaker
  -- is open and has been so for longer than `open_duration`; in the second case the operation is
  -- not run, its state stays as it was, and the breaker is half-open.
  execute_success : ((execute cb now later operation s).1 ≡ none) ↔ (
      ((cb.state ≢ opened)
        × ((operation s).0 ≡ none)
        × ((execute cb now later operation s).2 ≡ (operation s).1)
        × ((execute cb now later operation s).0.state ≡ closed))
      ⊎ ((cb.state ≡ opened)
          × (cb.open_duration < now - cb.last_failure_time)
          × ((execute cb now later operation s).2 ≡ s)
          × ((execute cb now later operation s).0.state ≡ half_open)))
  unfolding execute
  execute_success = (ground arith, ground arith)

  execute_hot :
      cb.state ≡ opened
      → IsHot cb now
      → execute cb now later operation s ≡ (cb, some circuit_breaker_open, s)
  unfolding execute
  execute_hot o h = ground arith

module _ {E : Type 0} where
  run_from-IsValid :
      (cb : CircuitBreaker) (n : ℕ) (calls : List (Call E))
      → IsValid cb
      → IsValid (run cb n calls).0
  unfolding run
  run_from-IsValid cb n [] v = v
  run_from-IsValid cb n (c ∷ calls) v =
      let t = execute cb c.now c.later (counted c) n in
      run_from-IsValid t.0 t.2 calls (execute-IsValid cb c.now c.later (counted c) n v)

  -- After any sequence of calls on a new breaker whose `max_failures` is positive, the breaker is
  -- closed only with fewer than `max_failures` failures on its count, and open or half-open only
  -- with at least that many.
  pub run-IsValid :
      (max_failures open_duration : ℕ) (calls : List (Call E))
      → 0 < max_failures
      → IsValid (run (new_circuit_breaker max_failures open_duration) 0 calls).0
  run-IsValid m d calls h =
      run_from-IsValid (new_circuit_breaker m d) 0 calls (new_circuit_breaker-IsValid m d h)

  -- While an open breaker is hot, calls return at once: any sequence of calls, each made before
  -- the open duration is over, leaves the breaker as it is and runs no operation.
  hot_absorbs :
      (cb : CircuitBreaker) (n : ℕ) (calls : List (Call E))
      → cb.state ≡ opened
      → All (λ c. IsHot cb c.now) calls
      → run cb n calls ≡ (cb, n)
  unfolding run
  hot_absorbs cb n [] o h = refl
  hot_absorbs cb n (c ∷ calls) o h =
      rw (execute_hot cb c.now c.later (counted c) n o h.0) (hot_absorbs cb n calls o h.1)

  execute_counts :
      (cb : CircuitBreaker) (c : Call E) (n : ℕ)
      → cb.state ≡ closed
      → c.failure ≢ none
      → cb.failure_count + 1 < cb.max_failures
      → let t = execute cb c.now c.later (counted c) n in
        (t.0.state ≡ closed)
        × (t.0.failure_count ≡ cb.failure_count + 1)
        × (t.0.max_failures ≡ cb.max_failures)
        × (t.2 ≡ suc n)
  unfolding execute
  execute_counts cb c n o f m = ground arith

  execute_trips :
      (cb : CircuitBreaker) (c : Call E) (n : ℕ)
      → cb.state ≡ closed
      → c.failure ≢ none
      → cb.failure_count + 1 ≡ cb.max_failures
      → let t = execute cb c.now c.later (counted c) n in (t.0.state ≡ opened) × (t.2 ≡ suc n)
  unfolding execute
  execute_trips cb c n o f m = ground arith

  -- Operations that fail in a row are counted: a closed breaker runs each of them up to the one
  -- that fills its count to `max_failures`; it is open after that one, and closed before it.
  failures_trip :
      (cb : CircuitBreaker) (n : ℕ) (calls : List (Call E))
      → cb.state ≡ closed
      → cb.failure_count < cb.max_failures
      → cb.failure_count + length calls ≤ cb.max_failures
      → All (λ c. c.failure ≢ none) calls
      → ((run cb n calls).0.state
          ≡ (if cb.failure_count + length calls == cb.max_failures then opened else closed))
        × ((run cb n calls).1 ≡ n + length calls)
  unfolding run
  failures_trip cb n [] o b l f = ground arith
  failures_trip cb n (c ∷ []) o b l f =
      elim (Bool-cases (cb.failure_count + 1 == cb.max_failures)) [
        | inl e ↦ ground (arith, execute_trips cb c n o f.0)
        | inr e ↦ ground (arith, execute_counts cb c n o f.0)
      ]
  failures_trip cb n (c ∷ d ∷ calls) o b l f =
      let t = execute cb c.now c.later (counted c) n in
      ground (arith, execute_counts cb c n o f.0, failures_trip t.0 t.2 (d ∷ calls))
