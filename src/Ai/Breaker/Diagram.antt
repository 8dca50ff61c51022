-- ===== src/Ai/Breaker/Diagram.antt =====
-- Which transitions a circuit breaker can make, and that its observer hears of each one.
use kube_assist_operator.Prelude.{ℕ, ◌+◌, ◌≤◌, ◌≡◌, refl, true, false, ◌⊎◌, inl, none, some, arith}
use kube_assist_operator.Ai.Breaker.{
  CircuitState, closed, open_circuit, half_open, CircuitBreaker, Call, ask, succeeded, failed,
  rate_limited, call,
}

-- The edges of the diagram, each with the call that takes it and its condition.
pub data Edge (cb : CircuitBreaker) : Call → CircuitState → CircuitState → Type 0 where
  trip :
      (now : ℕ)
      → cb.failure_threshold ≤ cb.consecutive_failures + 1
      → Edge cb (failed now) closed open_circuit
  probe :
      (now : ℕ)
      → cb.reset_timeout + cb.last_failure_time ≤ now
      → Edge cb (ask now) open_circuit half_open
  recover : Edge cb succeeded half_open closed
  relapse : (now : ℕ) → Edge cb (failed now) half_open open_circuit

-- A call either keeps the state and notifies nobody, or follows an edge of the diagram and, if the
-- breaker is observed, notifies exactly that change.
pub call-Edge :
    (cb : CircuitBreaker) (c : Call)
    → let (cb', answer, t) = call cb c in
      ((cb'.state ≡ cb.state) × (t ≡ none))
      ⊎ (Edge cb c cb.state cb'.state
          × (cb.observed ≡ true → t ≡ some (record { from = cb.state; to = cb'.state }))
          × (cb.observed ≡ false → t ≡ none))
unfolding call
call-Edge cb (ask now) = grind (arith, probe)
call-Edge cb succeeded = grind (arith, recover)
call-Edge cb (failed now) = grind (arith, trip, relapse)
call-Edge cb (rate_limited now) = inl (refl, refl)
