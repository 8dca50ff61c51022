-- ===== src/Ai/Budget/Tests.antt =====
-- A budget of an hourly and a daily window at work.
use kube_assist_operator.Prelude.{◌≡◌, ◌≢◌, ◌↔◌, refl, some, List, [], ◌∷◌, arith, map}
use kube_assist_operator.Ai.Budget.{
  BudgetWindow, Budget, allowed, exceeded, check_allowance, try_consume, release_unused,
  record_usage, get_usage,
}
use kube_assist_operator.Ai.Budget.Verdicts.{Admits, try_consume_verdict}
use kube_assist_operator.Ai.Budget.Limits.{
  WithinLimits, try_consume-WithinLimits, try_consume-expired,
}
use kube_assist_operator.Ai.Budget.Settle.{
  add_report, try_consume-release_unused, try_consume-record_usage,
}

abbrev hour : BudgetWindow
hour = record { name = "hourly"; duration = 3600; limit = 3000 }

abbrev day : BudgetWindow
day = record { name = "daily"; duration = 86400; limit = 10000 }

abbrev windows : List BudgetWindow
windows = hour ∷ day ∷ []

-- At instant 5000 the hourly window is over and the daily one is not.
abbrev budget : Budget
budget = record {
  windows = windows;
  usage =
      record { tokens = 2500; started_at = 1000 }
      ∷ record { tokens = 2500; started_at = 1000 }
      ∷ [];
}

abbrev charged : Budget
charged = record budget {
  usage =
      record { tokens = 2000; started_at = 5000 }
      ∷ record { tokens = 4500; started_at = 1000 }
      ∷ [];
}

refuses_when_running :
    try_consume (some budget) 2000 2000 ≡ (some budget, exceeded "hourly" 2500 3000)
unfolding try_consume
refuses_when_running = refl

resets_when_over : try_consume (some budget) 5000 2000 ≡ (some charged, allowed)
unfolding try_consume
resets_when_over = refl

releases :
    release_unused (some charged) 3000
    ≡ some (record budget {
      usage =
          record { tokens = 0; started_at = 5000 }
          ∷ record { tokens = 1500; started_at = 1000 }
          ∷ [];
    })
unfolding release_unused
releases = refl

try_consume_verdict_example :
    ((try_consume (some budget) 2000 2000).1 ≡ check_allowance (some budget) 2000 2000)
    × (((try_consume (some budget) 2000 2000).1 ≡ allowed) ↔ Admits (some budget) 2000 2000)
    × ((try_consume (some budget) 2000 2000).1 ≢ allowed
        → (try_consume (some budget) 2000 2000).0 ≡ some budget)
try_consume_verdict_example = try_consume_verdict (some budget) 2000 2000 refl

try_consume-WithinLimits_example : WithinLimits (try_consume (some budget) 5000 2000).0
try_consume-WithinLimits_example =
    try_consume-WithinLimits (some budget) 5000 2000 refl (omega arith) (omega arith)

-- A day later an estimate of 50000 passes limits of 3000 and 10000.
try_consume-expired_example : try_consume (some budget) 100000 50000 ≡ (
  some
      (record budget { usage = map (λ _. record { tokens = 50000; started_at = 100000 }) windows }),
  allowed,
)
try_consume-expired_example = try_consume-expired budget 100000 50000 refl (refl, (refl, tt))

try_consume-release_unused_example :
    get_usage (release_unused (try_consume (some budget) 5000 2000).0 1200) 5000
    ≡ add_report 800 (get_usage (some budget) 5000)
unfolding check_allowance
try_consume-release_unused_example =
    try_consume-release_unused budget 5000 2000 1200 refl (omega arith) (omega arith) refl

try_consume-record_usage_example :
    (b' : Budget) × (record_usage (try_consume (some budget) 5000 2000).0 5000 300 ≡ some (some b'))
    × (get_usage (some b') 5000 ≡ add_report 2300 (get_usage (some budget) 5000))
unfolding check_allowance
try_consume-record_usage_example =
    try_consume-record_usage budget 5000 2000 300 refl (omega arith) refl
