-- ===== src/Ai/Breaker/Probe.antt =====
-- The half-open state: one probe for each opening, and what ends it.
use kube_assist_operator.Prelude.{
  ℕ, suc, ◌≤◌, ◌≡◌, ◌≢◌, refl, true, false, none, some, List, [], ◌∷◌, arith, All,
}
use kube_assist_operator.Ai.Breaker.{
  closed, half_open, CircuitBreaker, Call, ask, succeeded, failed, rate_limited, call, run, allow,
}

-- How often `Allow` says yes along a sequence of calls.
unfoldable pub admitted : CircuitBreaker → List Call → ℕ
admitted cb [] = 0
admitted cb (c ∷ cs) =
    let (cb', answer, t) = call cb c in
    let rest = admitted cb' cs in
    elim answer [ none ↦ rest | some ok ↦ elim ok [ true ↦ suc rest | false ↦ rest ] ]

-- A call that does not report the outcome of a request.
abbrev pub IsPending : Call → Type 0
IsPending (ask now) = Unit
IsPending succeeded = ⊥
IsPending (failed now) = ⊥
IsPending (rate_limited now) = Unit

-- While half-open and no outcome is recorded, `Allow` refuses every call, whatever the clock says
-- and however often a rate limit is recorded: only an outcome leaves the state.
pub half_open_waits :
    (calls : List Call) (cb : CircuitBreaker)
    → cb.state ≡ half_open
    → All IsPending calls
    → ((run cb calls).state ≡ half_open) × (admitted cb calls ≡ 0)
unfolding run admitted call
half_open_waits [] cb h p = (h, refl)
half_open_waits (ask now ∷ cs) cb h p = ground (arith, half_open_waits cs cb h p.1)
half_open_waits (succeeded ∷ cs) cb h p = absurd p.0
half_open_waits (failed now ∷ cs) cb h p = absurd p.0
half_open_waits (rate_limited now ∷ cs) cb h p =
    half_open_waits cs (record cb { last_failure_time = now }) h p.1

-- An opened circuit admits at most one call until the outcome of a call is recorded.
pub open_one_probe :
    (calls : List Call) (cb : CircuitBreaker)
    → cb.state ≢ closed
    → All IsPending calls
    → admitted cb calls ≤ 1
unfolding admitted call
open_one_probe [] cb h p = omega arith
open_one_probe (ask now ∷ cs) cb h p =
    ground (arith, open_one_probe cs cb h p.1, half_open_waits cs (allow cb now).1)
open_one_probe (succeeded ∷ cs) cb h p = absurd p.0
open_one_probe (failed now ∷ cs) cb h p = absurd p.0
open_one_probe (rate_limited now ∷ cs) cb h p =
    open_one_probe cs (record cb { last_failure_time = now }) h p.1
