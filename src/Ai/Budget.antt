-- ===== src/Ai/Budget.antt =====
-- internal/ai/budget.go, `Budget`: token limits over several time windows.
-- `windows` and `usage` are the two parallel slices of the code; a loop that would read past the
-- end of `usage` panics, which is a verdict of its own. Instants and durations are nanoseconds,
-- the clock's reading is an argument. Token counts are kept below the width of an int: the limits
-- of a configuration and the estimates are far smaller.
pub mod Verdicts
pub mod Limits
pub mod Settle
mod Tests
use kube_assist_operator.Prelude.{
  ℕ, ◌+◌, ◌-◌, Bool, true, false, ◌||◌, Option, none, some, List, [], ◌∷◌, map, String, leb, ltb,
  eqb, if◌then◌else◌,
}

pub record BudgetWindow : Type 0 where
  pub name : String
  pub duration : ℕ
  pub limit : ℕ

-- `windowUsage`
pub record Usage : Type 0 where
  pub tokens : ℕ
  pub started_at : ℕ

pub record Budget : Type 0 where
  pub windows : List BudgetWindow
  pub usage : List Usage

-- `WindowUsage`, a line of the report.
pub record WindowUsage : Type 0 where
  pub name : String
  pub limit : ℕ
  pub used : ℕ

-- The error that a check returns; `exceeded` is ErrBudgetExceeded with its message's values.
pub data Verdict : Type 0 where
  allowed : Verdict
  exceeded : String → ℕ → ℕ → Verdict
  index_out_of_range : Verdict

-- `NewBudget`: no windows, no budget.
unfoldable pub new_budget : List BudgetWindow → ℕ → Option Budget
new_budget [] now = none
new_budget (w ∷ ws) now = some (record {
  windows = w ∷ ws;
  usage = map (λ _. record { tokens = 0; started_at = now }) (w ∷ ws);
})

-- `now.Sub(u.startedAt) >= w.Duration`
abbrev pub expired : ℕ → BudgetWindow → Usage → Bool
expired now w u = leb (w.duration + u.started_at) now

-- The loop of `CheckAllowance`, and the first pass of `TryConsume`.
unfoldable pub check_windows : ℕ → ℕ → List BudgetWindow → List Usage → Verdict
check_windows now estimated [] us = allowed
check_windows now estimated (w ∷ ws) [] = index_out_of_range
check_windows now estimated (w ∷ ws) (u ∷ us) =
    let rest = check_windows now estimated ws us in
    if expired now w u
    then rest
    else (if ltb w.limit (u.tokens + estimated) then exceeded w.name u.tokens w.limit else rest)

unfoldable pub check_allowance : Option Budget → ℕ → ℕ → Verdict
unfolding check_windows
check_allowance none now estimated = allowed
check_allowance (some b) now estimated = check_windows now estimated b.windows b.usage

-- The loop body of `RecordUsage` and of the second pass of `TryConsume`.
unfoldable pub charge : ℕ → ℕ → BudgetWindow → Usage → Usage
charge now amount w u =
    let u' = if expired now w u then record { tokens = 0; started_at = now } else u in
    record u' { tokens = u'.tokens + amount }

-- The loop of `RecordUsage` and the second pass of `TryConsume`.
unfoldable pub charge_windows : ℕ → ℕ → List BudgetWindow → List Usage → Option (List Usage)
unfolding charge
charge_windows now amount [] us = some us
charge_windows now amount (w ∷ ws) [] = none
charge_windows now amount (w ∷ ws) (u ∷ us) = elim (charge_windows now amount ws us) [
  | none ↦ none
  | some rest ↦ some (charge now amount w u ∷ rest)
]

unfoldable pub try_consume : Option Budget → ℕ → ℕ → Option Budget × Verdict
unfolding check_windows charge_windows
try_consume none now estimated = (none, allowed)
try_consume (some b) now estimated = elim (check_windows now estimated b.windows b.usage) [
  | allowed ↦ elim (charge_windows now estimated b.windows b.usage) [
    | none ↦ (some b, index_out_of_range)
    | some us ↦ (some (record b { usage = us }), allowed)
  ]
  | exceeded n u l ↦ (some b, exceeded n u l)
  | index_out_of_range ↦ (some b, index_out_of_range)
]

-- `b.usage[i].tokens -= tokens`, then 0 where that is negative: the difference on ℕ.
unfoldable pub release_usage : ℕ → List Usage → List Usage
release_usage amount [] = []
release_usage amount (u ∷ us) = record u { tokens = u.tokens - amount } ∷ release_usage amount us

unfoldable pub release_unused : Option Budget → ℕ → Option Budget
unfolding release_usage
release_unused none amount = none
release_unused (some b) amount =
    if eqb amount 0 then some b else some (record b { usage = release_usage amount b.usage })

-- `none` inside is a panic.
unfoldable pub record_usage : Option Budget → ℕ → ℕ → Option (Option Budget)
unfolding charge_windows
record_usage none now amount = some none
record_usage (some b) now amount = elim (charge_windows now amount b.windows b.usage) [
  | none ↦ none
  | some us ↦ some (some (record b { usage = us }))
]

abbrev pub live_tokens : ℕ → BudgetWindow → Usage → ℕ
live_tokens now w u = if expired now w u then 0 else u.tokens

-- The loop of `GetUsage`.
unfoldable pub report_windows : ℕ → List BudgetWindow → List Usage → Option (List WindowUsage)
report_windows now [] us = some []
report_windows now (w ∷ ws) [] = none
report_windows now (w ∷ ws) (u ∷ us) = elim (report_windows now ws us) [
  | none ↦ none
  | some rest ↦ some (record { name = w.name; limit = w.limit; used = live_tokens now w u } ∷ rest)
]

unfoldable pub get_usage : Option Budget → ℕ → Option (List WindowUsage)
unfolding report_windows
get_usage none now = some []
get_usage (some b) now = report_windows now b.windows b.usage
