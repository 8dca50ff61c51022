-- ===== src/Ai/Breaker.antt =====
-- internal/ai/circuitbreaker.go: the circuit breaker in front of the AI provider.
-- A method returns the new breaker beside its result and the transition that the callback
-- `onStateChange` is called with after the lock is released. Instants and durations are
-- nanoseconds, and the clock's reading is an argument of the methods that call `nowFunc`.
pub mod Diagram
pub mod Trip
pub mod Probe
mod Tests
use kube_assist_operator.Prelude.{
  ℕ, ◌+◌, Bool, true, false, ◌&&◌, ◌||◌, not, Option, none, some, List, [], ◌∷◌, leb, if◌then◌else◌,
}

pub data CircuitState : Type 0 where
  closed open_circuit half_open : CircuitState

abbrev pub is_half_open : CircuitState → Bool
is_half_open half_open = true
is_half_open _ = false

abbrev pub same_state : CircuitState → CircuitState → Bool
same_state closed closed = true
same_state open_circuit open_circuit = true
same_state half_open half_open = true
same_state _ _ = false

-- `observed` says whether `onStateChange` is set.
pub record CircuitBreaker : Type 0 where
  pub state : CircuitState
  pub consecutive_failures : ℕ
  pub failure_threshold : ℕ
  pub reset_timeout : ℕ
  pub last_failure_time : ℕ
  pub observed : Bool

pub record StateTransition : Type 0 where
  pub from : CircuitState
  pub to : CircuitState

unfoldable pub new_circuit_breaker : ℕ → ℕ → Bool → CircuitBreaker
new_circuit_breaker threshold timeout observed = record {
  state = closed;
  consecutive_failures = 0;
  failure_threshold = threshold;
  reset_timeout = timeout;
  last_failure_time = 0;
  observed = observed;
}

-- `setStateLocked`
unfoldable pub set_state : CircuitState → CircuitBreaker → CircuitBreaker × Option StateTransition
set_state new cb = (
  record cb { state = new },
  if cb.observed && not (same_state cb.state new)
      then some (record { from = cb.state; to = new })
      else none,
)

-- The `switch` of `Allow`. `nowFunc().Sub(lastFailureTime) >= resetTimeout` is written without
-- a difference, so that a clock that went back is not cut off at 0.
allow_in : CircuitState → CircuitBreaker → ℕ → Bool × CircuitBreaker × Option StateTransition
unfolding set_state
allow_in closed cb now = (true, cb, none)
allow_in open_circuit cb now =
    if leb (cb.reset_timeout + cb.last_failure_time) now
    then (let (cb', t) = set_state half_open cb in (true, cb', t))
    else (false, cb, none)
allow_in half_open cb now = (false, cb, none)

unfoldable pub allow : CircuitBreaker → ℕ → Bool × CircuitBreaker × Option StateTransition
unfolding allow_in
allow cb now = allow_in cb.state cb now

unfoldable pub record_success : CircuitBreaker → CircuitBreaker × Option StateTransition
unfolding set_state
record_success cb =
    let cb' = record cb { consecutive_failures = 0 } in
    if is_half_open cb'.state then set_state closed cb' else (cb', none)

unfoldable pub record_failure : CircuitBreaker → ℕ → CircuitBreaker × Option StateTransition
unfolding set_state
record_failure cb now =
    let cb' = record cb {
      consecutive_failures = cb.consecutive_failures + 1;
      last_failure_time = now;
    } in
    if is_half_open cb'.state || leb cb'.failure_threshold cb'.consecutive_failures
    then set_state open_circuit cb'
    else (cb', none)

unfoldable pub record_rate_limit : CircuitBreaker → ℕ → CircuitBreaker
record_rate_limit cb now = record cb { last_failure_time = now }

-- The calls that a client makes, each with the clock's reading when it runs.
pub data Call : Type 0 where
  ask : ℕ → Call
  succeeded : Call
  failed : ℕ → Call
  rate_limited : ℕ → Call

-- The state after a call, what `Allow` answered if it was one, and the transition notified.
unfoldable pub call : CircuitBreaker → Call → CircuitBreaker × Option Bool × Option StateTransition
unfolding allow record_success record_failure record_rate_limit
call cb (ask now) = let (ok, cb', t) = allow cb now in (cb', some ok, t)
call cb succeeded = let (cb', t) = record_success cb in (cb', none, t)
call cb (failed now) = let (cb', t) = record_failure cb now in (cb', none, t)
call cb (rate_limited now) = (record_rate_limit cb now, none, none)

unfoldable pub run : CircuitBreaker → List Call → CircuitBreaker
run cb [] = cb
run cb (c ∷ cs) = run (call cb c).0 cs
