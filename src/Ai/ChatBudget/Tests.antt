-- ===== src/Ai/ChatBudget/Tests.antt =====
-- Two threads that race for the last tokens of a chat budget.
use kube_assist_operator.Prelude.{◌+◌, ◌≡◌, refl, List, [], ◌∷◌, arith}
use kube_assist_operator.Ai.ChatBudget.{
  try_chat_consume, idle, ChatBudget, silent, granted, refused, Action, arrive, step, act, run,
}
use kube_assist_operator.Ai.ChatBudget.Bounded.{
  added, removed, run-accounts, IsBounded, run-IsBounded,
}

abbrev budget : ChatBudget
budget = record { used = 0; max = 100; threads = λ _. idle }

-- Both load 0; the second compare-and-swap fails, loads again, and is refused.
abbrev race : List Action
race =
    arrive 1 (try_chat_consume 60)
    ∷ arrive 2 (try_chat_consume 60)
    ∷ step 1
    ∷ step 2
    ∷ step 1
    ∷ step 2
    ∷ step 2
    ∷ step 2
    ∷ []

race_outcomes :
    (run budget race).1
    ≡ silent ∷ silent ∷ silent ∷ silent ∷ granted 60 ∷ silent ∷ silent ∷ refused 60 ∷ []
unfolding run act
race_outcomes = refl

run-accounts_example : let (cb', os) = run budget race in cb'.used + removed os ≡ 0 + added os
run-accounts_example = run-accounts race budget

run-IsBounded_example : IsBounded (run budget race).0
run-IsBounded_example =
    run-IsBounded race budget (tt, (tt, (tt, (tt, (tt, (tt, (tt, (tt, tt))))))))
      (record { within = omega arith; careful = λ t. tt })
