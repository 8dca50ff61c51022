-- ===== src/Ai/Agent/Spent.antt =====
-- internal/ai/agent.go with the two budgets of internal/ai/budget.go: what a turn takes from them.
use kube_assist_operator.Prelude.{ℕ, ◌+◌, ◌≤◌, ◌≡◌, ◌⊎◌, Bool, Option, none, some, List, String}
use kube_assist_operator.Prelude.Numbers.{pos}
use kube_assist_operator.Ai.Budget.{Budget}
use kube_assist_operator.Ai.ChatBudget.{ChatBudget}
use kube_assist_operator.Ai.Agent.{ChatMessage}
use kube_assist_operator.Ai.Agent.Turn.{Ledger, Reply, run_turn}
use kube_assist_operator.Ai.Agent.Grows.{Grows}
use kube_assist_operator.Ai.Agent.Accounts.{IsFair}
use kube_assist_operator.Ai.Agent.Calls.{run_turn-Grows}
use kube_assist_operator.Ai.Agent.Session.{IsOpen, session_ledger, session_ledger-IsLedger}
use kube_assist_operator.Ai.Agent.Aggregate.{aggregate_ledger, aggregate_ledger-IsLedger}

-- A budget that is set counts `n` more; one that is not set stays so.
abbrev pub Spends : {B : Type 0} → Ledger B → Option B → Option B → ℕ → Type 0
Spends L none none n = Unit
Spends L (some b) (some b') n = L.counted b' ≡ L.counted b + n
Spends L none (some b') n = ⊥
Spends L (some b) none n = ⊥

-- No reading of the clock has been taken.
abbrev pub at_start : Option Budget → Option (Budget × ℕ)
at_start none = none
at_start (some b) = some (b, 0)

abbrev pub AllOpen : {B : Type 0} → (B → Type 0) → Option B → Type 0
AllOpen O none = Unit
AllOpen O (some b) = O b

spends :
    {B : Type 0} (L : Ledger B) (O : B → Type 0) (o o' : Option B) (n : ℕ)
    → AllOpen O o
    → Grows L O o o' n
    → Spends L o o' n
unfolding Grows
spends L O none none n live g = tt
spends L O (some b) (some b') n live g = (g live).1
spends L O none (some b') n live g = g
spends L O (some b) none n live g = g

-- Where the provider tells no negative use, a turn takes from the aggregate budget, and from each window of
-- the session's budget that does not end during the turn, exactly the tokens that it returns as
-- used, however it ends; a budget that is not set stays so; and it calls the provider at most as
-- many times as there are iterations.
pub run_turn-Spends :
    (byte_length : String → ℕ) (max_tokens : ℕ) (ended : ℕ → Bool)
    (ask : ℕ → List ChatMessage → Reply) (executor : String → String → String ⊎ String)
    (provider : String) (max_iterations : ℕ) (clock : ℕ → ℕ) (i : ℕ) (session : Option Budget)
    (aggregate : Option ChatBudget) (messages : List ChatMessage)
    → ((j : ℕ) (msgs : List ChatMessage) → IsFair (ask j msgs))
    → AllOpen (IsOpen clock i) (at_start session)
    → let turn =
        (run_turn
          (session_ledger clock i)
          aggregate_ledger
          byte_length
          max_tokens
          ended
          ask
          executor
          provider
          max_iterations
          (at_start session)
          aggregate
          messages).0 in
      (n : ℕ) × (turn.total ≡ pos n)
      × Spends (session_ledger clock i) (at_start session) turn.session n
      × Spends aggregate_ledger aggregate turn.aggregate n
      × (turn.asked ≤ max_iterations)
run_turn-Spends byte_length max_tokens ended ask executor provider max_iterations clock i session
      aggregate messages fair live =
    let (n, total, taken, charged, asked) =
      run_turn-Grows (session_ledger clock i) (IsOpen clock i) aggregate_ledger (λ cb. Unit)
        (session_ledger-IsLedger clock i) aggregate_ledger-IsLedger byte_length max_tokens ended ask
        executor fair provider max_iterations (at_start session) aggregate messages in
    (
      n,
      total,
      spends (session_ledger clock i) (IsOpen clock i) (at_start session) _ n live taken,
      spends aggregate_ledger (λ cb. Unit) aggregate _ n (always aggregate) charged,
      asked,
    )
  where
    always : (o : Option ChatBudget) → AllOpen (λ cb. Unit) o
    always none = tt
    always (some cb) = tt
