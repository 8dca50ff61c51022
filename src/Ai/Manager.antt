-- ===== src/Ai/Manager.antt =====
-- internal/ai/manager.go: `Analyze`, which puts the cache, the budget and the circuit breaker in
-- front of the provider. The provider is code of another service: what it answers is a parameter
-- of a call, and so are the clock's readings. The provider's name and the digest of a request are
-- parameters too.
pub mod Spent
pub mod Stuck
mod Tests
use kube_assist_operator.Prelude.{
  ℕ, ◌+◌, ◌-◌, ◌*◌, max, Bool, true, false, Option, none, some, List, String, ltb, if◌then◌else◌,
}
use kube_assist_operator.Ai.Breaker.{
  CircuitBreaker, allow, record_success, record_failure, record_rate_limit,
}
use kube_assist_operator.Ai.Budget.{
  Budget, Verdict, allowed, exceeded, index_out_of_range, try_consume, release_unused, record_usage,
}
use kube_assist_operator.Ai.Cache.{Cache, get, put}

-- `AnalysisResponse`: the tokens it took, and the rest.
pub record AnalysisResponse (R : Type 0) : Type 0 where
  pub tokens_used : ℕ
  pub body : R

-- `calls` counts the calls of `provider.Analyze`; the code keeps no such count.
pub record Manager (P R : Type 0) : Type 0 where
  pub provider : Option P
  pub explain_provider : Option P
  pub enabled : Bool
  pub budget : Option Budget
  pub cache : Option (Cache (AnalysisResponse R))
  pub cb : Option CircuitBreaker
  pub calls : ℕ

-- What `provider.Analyze` returns: a response, which may be nil, a `rateLimitError`, or another
-- error.
pub data Reply (R : Type 0) : Type 0 where
  gave : Option (AnalysisResponse R) → Reply R
  rate_limit : Reply R
  fails : Reply R

-- One call: what the provider replies to the first and to the second attempt, whether the context
-- ends while the call waits between them, and the clock's readings.
pub record Attempt (P Q R : Type 0) : Type 0 where
  pub first : P → Q → Reply R
  pub second : P → Q → Reply R
  pub ctx_done : Bool
  pub looked_up : ℕ
  pub reserved : ℕ
  pub asked : ℕ
  pub limited : ℕ
  pub failed : ℕ
  pub settled : ℕ
  pub stored : ℕ

-- `cached` and `answered` are the responses without an error; a panic is a result of its own.
pub data Outcome (R : Type 0) : Type 0 where
  cached : AnalysisResponse R → Outcome R
  answered : AnalysisResponse R → Outcome R
  not_configured : Outcome R
  over_budget : String → ℕ → ℕ → Outcome R
  circuit_open_error : Outcome R
  ctx_error : Outcome R
  analysis_failed : Outcome R
  panicked : Outcome R

abbrev pub on_breaker :
    (CircuitBreaker → CircuitBreaker) → Option CircuitBreaker → Option CircuitBreaker
on_breaker f none = none
on_breaker f (some cb) = some (f cb)

-- `m.cb.Allow()`, and `true` without a breaker.
unfoldable pub admit : Option CircuitBreaker → ℕ → Bool × Option CircuitBreaker
unfolding allow
admit none now = (true, none)
admit (some cb) now = let (ok, cb', t) = allow cb now in (ok, some cb')

-- The adjustment by the tokens used; `none` is a panic.
unfoldable pub settle : Option Budget → ℕ → ℕ → ℕ → Option (Option Budget)
unfolding release_unused record_usage
settle b now estimated used =
    if ltb used estimated
    then some (release_unused b (estimated - used))
    else (if ltb estimated used then record_usage b now (used - estimated) else some b)

-- A call of the provider.
abbrev pub called : {P R : Type 0} → Manager P R → Manager P R
called m = record m { calls = m.calls + 1 }

module _ {P R : Type 0} where
  -- What follows a reply without an error.
  unfoldable pub succeed :
      Manager P R → String → ℕ → ℕ → ℕ → Option (AnalysisResponse R) → Manager P R × Outcome R
  unfolding record_success settle put
  succeed m key estimated settled stored none =
      (record m { cb = on_breaker (λ cb. (record_success cb).0) m.cb }, panicked)
  succeed m key estimated settled stored (some r) =
      let m' = record m { cb = on_breaker (λ cb. (record_success cb).0) m.cb } in
      elim (settle m'.budget settled estimated r.tokens_used) [
        | none ↦ (m', panicked)
        | some b ↦ (record m' { budget = b; cache = put m'.cache stored key (some r) }, answered r)
      ]

  -- What follows an error; the breaker hears of it if it is not a rate limit.
  unfoldable pub give_up : Manager P R → ℕ → ℕ → Bool → Manager P R × Outcome R
  unfolding record_failure release_unused
  give_up m estimated failed limited = (
    record m {
      cb = if limited then m.cb else on_breaker (λ cb. (record_failure cb failed).0) m.cb;
      budget = release_unused m.budget estimated;
    },
    analysis_failed,
  )

  -- The second attempt, after a rate limit.
  unfoldable pub retry :
      {Q : Type 0} → Manager P R → Attempt P Q R → String → ℕ → Reply R → Manager P R × Outcome R
  unfolding succeed give_up
  retry m a key estimated (gave r) = succeed m key estimated a.settled a.stored r
  retry m a key estimated rate_limit = give_up m estimated a.failed true
  retry m a key estimated fails = give_up m estimated a.failed false

  -- From the first call of the provider on.
  unfoldable pub ask_provider :
      {Q : Type 0}
      → Manager P R
      → Attempt P Q R
      → P
      → Q
      → String
      → ℕ
      → Reply R
      → Manager P R × Outcome R
  unfolding succeed give_up retry record_rate_limit
  ask_provider m a p q key estimated (gave r) = succeed m key estimated a.settled a.stored r
  ask_provider m a p q key estimated fails = give_up m estimated a.failed false
  ask_provider m a p q key estimated rate_limit =
      let m' = record m { cb = on_breaker (λ cb. record_rate_limit cb a.limited) m.cb } in
      if a.ctx_done then (m', ctx_error) else retry (called m') a key estimated (a.second p q)

  -- From the admission by the breaker on.
  unfoldable pub guarded :
      {Q : Type 0} → Manager P R → Attempt P Q R → P → Q → String → ℕ → Manager P R × Outcome R
  unfolding admit ask_provider
  guarded m a p q key estimated =
      let (ok, cb) = admit m.cb a.asked in
      let m' = record m { cb = cb } in
      if ok
      then ask_provider (called m') a p q key estimated (a.first p q)
      else (m', circuit_open_error)

  -- From the reservation on.
  unfoldable pub reserve :
      {Q : Type 0} → Manager P R → Attempt P Q R → P → Q → String → ℕ → Manager P R × Outcome R
  unfolding guarded try_consume
  reserve m a p q key estimated =
      let (b, verdict) = try_consume m.budget a.reserved estimated in
      let m' = record m { budget = b } in
      elim verdict [
        | allowed ↦ guarded m' a p q key estimated
        | exceeded name used limit ↦ (m', over_budget name used limit)
        | index_out_of_range ↦ (m', panicked)
      ]

-- Two thousand tokens for each issue, five hundred at least.
abbrev pub estimate : ℕ → ℕ
estimate issues = max (issues * 2000) 500

module _ {P Q R : Type 0} (name : P → String) (digest : Q → String → String)
    (explain_mode : Q → Bool) (issue_count : Q → ℕ) where
  unfoldable pub choose : Manager P R → Q → Option P
  choose m q =
      if explain_mode q
      then elim (m.explain_provider) [ none ↦ m.provider | some p ↦ some p ]
      else m.provider

  unfoldable pub analyze : Manager P R → Attempt P Q R → Q → Manager P R × Outcome R
  unfolding choose get reserve
  analyze m a q = elim (choose m q) [
    | none ↦ (m, not_configured)
    | some p ↦
        let key = digest q (name p) in
        let (c, hit) = get m.cache a.looked_up key in
        let m' = record m { cache = c } in
        elim hit [
          | some r ↦ (m', cached r)
          | none ↦ reserve m' a p q key (estimate (issue_count q))
        ]
  ]
