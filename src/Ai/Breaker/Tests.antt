-- ===== src/Ai/Breaker/Tests.antt =====
-- A circuit breaker with threshold 2 and a timeout of 100 at work.
use kube_assist_operator.Prelude.{◌≤◌, ◌≡◌, ◌⊎◌, refl, true, false, none, some, [], ◌∷◌, arith}
use kube_assist_operator.Ai.Breaker.{
  closed, open_circuit, half_open, CircuitBreaker, ask, succeeded, failed, rate_limited, call, run,
  new_circuit_breaker, allow,
}
use kube_assist_operator.Ai.Breaker.Diagram.{Edge, call-Edge}
use kube_assist_operator.Ai.Breaker.Trip.{IsArmed, run-IsArmed, failures, run-failures}
use kube_assist_operator.Ai.Breaker.Probe.{admitted, half_open_waits, open_one_probe}

abbrev fresh : CircuitBreaker
fresh = record {
  state = closed;
  consecutive_failures = 0;
  failure_threshold = 2;
  reset_timeout = 100;
  last_failure_time = 0;
  observed = true;
}

abbrev tripped : CircuitBreaker
tripped = record fresh { state = open_circuit; consecutive_failures = 2; last_failure_time = 50 }

abbrev probing : CircuitBreaker
probing = record tripped { state = half_open }

fresh-new : new_circuit_breaker 2 100 true ≡ fresh
unfolding new_circuit_breaker
fresh-new = refl

trips_on_second : run fresh (failed 40 ∷ failed 50 ∷ []) ≡ tripped
unfolding run call
trips_on_second = refl

too_early : allow tripped 149 ≡ (false, tripped, none)
unfolding allow
too_early = refl

in_time : allow tripped 150 ≡ (true, probing, some (record { from = open_circuit; to = half_open }))
unfolding allow
in_time = refl

call-Edge_example :
    let (cb', answer, t) = call tripped (ask 150) in
    ((cb'.state ≡ open_circuit) × (t ≡ none))
    ⊎ (Edge tripped (ask 150) open_circuit cb'.state
        × (true ≡ true → t ≡ some (record { from = open_circuit; to = cb'.state }))
        × (true ≡ false → t ≡ none))
call-Edge_example = call-Edge tripped (ask 150)

run-IsArmed_example : IsArmed (run fresh (failed 40 ∷ succeeded ∷ failed 50 ∷ ask 51 ∷ []))
run-IsArmed_example =
    run-IsArmed (failed 40 ∷ succeeded ∷ failed 50 ∷ ask 51 ∷ []) (omega arith)
      (record { below = λ e. omega arith })

run-failures_example : (run fresh (failures (40 ∷ 50 ∷ 60 ∷ []))).state ≡ open_circuit
run-failures_example = run-failures (40 ∷ 50 ∷ 60 ∷ []) fresh refl (omega arith)

half_open_waits_example :
    ((run probing (rate_limited 200 ∷ ask 900 ∷ ask 5000 ∷ [])).state ≡ half_open)
    × (admitted probing (rate_limited 200 ∷ ask 900 ∷ ask 5000 ∷ []) ≡ 0)
half_open_waits_example =
    half_open_waits (rate_limited 200 ∷ ask 900 ∷ ask 5000 ∷ []) probing refl (tt, (tt, (tt, tt)))

open_one_probe_example : admitted tripped (ask 149 ∷ ask 150 ∷ ask 151 ∷ []) ≤ 1
open_one_probe_example =
    open_one_probe (ask 149 ∷ ask 150 ∷ ask 151 ∷ []) tripped (λ e. ground arith)
      (tt, (tt, (tt, tt)))
