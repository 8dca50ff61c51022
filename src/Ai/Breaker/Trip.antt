-- ===== src/Ai/Breaker/Trip.antt =====
-- When a circuit breaker trips: the counter of consecutive failures against the threshold.
use kube_assist_operator.Prelude.{
  ℕ, ◌+◌, ◌<◌, ◌≡◌, Bool, List, [], ◌∷◌, arith, length, map, leb, if◌then◌else◌,
}
use kube_assist_operator.Ai.Breaker.{
  closed, open_circuit, CircuitBreaker, new_circuit_breaker, Call, ask, succeeded, failed,
  rate_limited, call, run,
}

-- A closed breaker has not reached its threshold.
pub record IsArmed (cb : CircuitBreaker) : Type 0 where
  pub below : cb.state ≡ closed → cb.consecutive_failures < cb.failure_threshold

pub new_circuit_breaker-IsArmed :
    (threshold timeout : ℕ) (observed : Bool)
    → 0 < threshold
    → IsArmed (new_circuit_breaker threshold timeout observed)
unfolding new_circuit_breaker
new_circuit_breaker-IsArmed threshold timeout observed h = ground arith

pub call-IsArmed :
    {cb : CircuitBreaker} (c : Call)
    → 0 < cb.failure_threshold
    → IsArmed cb
    → IsArmed (call cb c).0 × ((call cb c).0.failure_threshold ≡ cb.failure_threshold)
unfolding call
call-IsArmed (ask now) p v = ground arith
call-IsArmed succeeded p v = ground arith
call-IsArmed (failed now) p v = ground arith
call-IsArmed (rate_limited now) p v = ground arith

-- With a positive threshold no sequence of calls leaves a breaker closed that has counted as many
-- consecutive failures as its threshold allows.
pub run-IsArmed :
    (calls : List Call) {cb : CircuitBreaker}
    → 0 < cb.failure_threshold
    → IsArmed cb
    → IsArmed (run cb calls)
unfolding run
run-IsArmed [] p v = v
run-IsArmed (c ∷ cs) {cb} p v =
    let (v', same) = call-IsArmed c p v in run-IsArmed cs (omega arith) v'

-- A run of `now`s, each of which a failed call reports.
abbrev pub failures : List ℕ → List Call
failures = map failed

failures-open :
    (times : List ℕ) (cb : CircuitBreaker)
    → cb.state ≡ open_circuit
    → (run cb (failures times)).state ≡ open_circuit
unfolding run
failures-open [] cb o = o
failures-open (now ∷ times) cb o =
    failures-open times (call cb (failed now)).0 (unfold call in ground arith)

-- A closed breaker below its threshold opens exactly when failures in a row make its count reach
-- the threshold, and stays closed while they do not.
pub run-failures :
    (times : List ℕ) (cb : CircuitBreaker)
    → cb.state ≡ closed
    → cb.consecutive_failures < cb.failure_threshold
    → (run cb (failures times)).state ≡ (
        if leb cb.failure_threshold (cb.consecutive_failures + length times)
        then open_circuit
        else closed)
unfolding run call
run-failures [] cb c h = ground arith
run-failures (now ∷ times) cb c h =
    let cb' = (call cb (failed now)).0 in
    ground (arith, run-failures times cb', failures-open times cb')
