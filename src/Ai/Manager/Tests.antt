-- ===== src/Ai/Manager/Tests.antt =====
-- A manager whose requests are the numbers of their issues and whose provider is its name.
use kube_assist_operator.Prelude.{
  ℕ, ◌≡◌, refl, true, false, Option, none, some, [], ◌∷◌, String, arith,
}
use kube_assist_operator.Ai.Breaker.{CircuitBreaker, half_open}
use kube_assist_operator.Ai.Budget.{Budget, get_usage}
use kube_assist_operator.Ai.Manager.{
  Manager, Attempt, gave, rate_limit, Outcome, answered, analyze, estimate,
}
use kube_assist_operator.Ai.Manager.Spent.{Accounts, analyze-Accounts}
use kube_assist_operator.Ai.Manager.Stuck.{IsStuck, analyses, analyses-IsStuck}

abbrev daily : Budget
daily = record {
  windows = record { name = "daily"; duration = 100; limit = 9000 } ∷ [];
  usage = record { tokens = 1000; started_at = 0 } ∷ [];
}

abbrev probing : CircuitBreaker
probing = record {
  state = half_open;
  consecutive_failures = 5;
  failure_threshold = 5;
  reset_timeout = 30;
  last_failure_time = 1;
  observed = true;
}

abbrev manager : Option CircuitBreaker → Manager String String
manager cb = record {
  provider = some "anthropic";
  explain_provider = none;
  enabled = true;
  budget = some daily;
  cache = none;
  cb = cb;
  calls = 0;
}

-- The first attempt is rate limited, the second one takes 700 tokens.
abbrev attempt : Attempt String ℕ String
attempt = record {
  first = λ p q. rate_limit;
  second = λ p q. gave (some (record { tokens_used = 700; body = p }));
  ctx_done = false;
  looked_up = 6;
  reserved = 7;
  asked = 7;
  limited = 7;
  failed = 7;
  settled = 7;
  stored = 7;
}

abbrev ask : Manager String String → Manager String String × Outcome String
ask m = analyze (λ p. p) (λ q n. n) (λ q. false) (λ q. q) m attempt 2

after_retry :
    ((ask (manager none)).1 ≡ answered (record { tokens_used = 700; body = "anthropic" }))
    × ((ask (manager none)).0.calls ≡ 2)
unfolding analyze
after_retry = (refl, refl)

analyze-Accounts_example : Accounts daily 7 (estimate 2) (ask (manager none))
analyze-Accounts_example =
    analyze-Accounts (λ p. p) (λ q n. n) (λ q. false) (λ q. q) daily 7 (manager none) attempt 2 refl
      (omega arith, tt) refl refl refl

-- The breaker refuses, and the reservation of 4000 tokens stays.
refused_reserves :
    get_usage (ask (manager (some probing))).0.budget 7
    ≡ some (record { name = "daily"; limit = 9000; used = 5000 } ∷ [])
unfolding analyze get_usage
refused_reserves = refl

analyses-IsStuck_example : IsStuck probing 0 (
    analyses
      (λ p. p)
      (λ q n. n)
      (λ q. false)
      (λ q. q)
      (manager (some probing))
      ((attempt, 1) ∷ (attempt, 2) ∷ []))
analyses-IsStuck_example =
    analyses-IsStuck (λ p. p) (λ q n. n) (λ q. false) (λ q. q) probing (manager (some probing))
      ((attempt, 1) ∷ (attempt, 2) ∷ []) refl refl
