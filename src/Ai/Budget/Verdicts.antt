-- ===== src/Ai/Budget/Verdicts.antt =====
-- When a request is admitted: the verdict of the check, against the room in each window.
use kube_assist_operator.Prelude.{
  ℕ, suc, ◌+◌, ◌≤◌, ◌≡◌, ◌≢◌, ◌↔◌, ◌⊎◌, inl, inr, refl, ap, false, Option, none, some, List, [],
  ◌∷◌, arith, length, map,
}
use kube_assist_operator.Ai.Budget.{
  BudgetWindow, Usage, Budget, Verdict, allowed, exceeded, index_out_of_range, new_budget,
  check_windows, check_allowance, charge_windows, charge, try_consume, expired,
}

-- The two slices have one length, so that no loop reads past an end.
abbrev pub IsValid : Option Budget → Type 0
IsValid none = Unit
IsValid (some b) = length b.usage ≡ length b.windows

pub new_budget-IsValid : (ws : List BudgetWindow) (now : ℕ) → IsValid (new_budget ws now)
unfolding new_budget
new_budget-IsValid [] now = tt
new_budget-IsValid (w ∷ ws) now = ap suc (length-usage ws)
  where
    length-usage :
        (ws : List BudgetWindow)
        → length (map {B = Usage} (λ _. record { tokens = 0; started_at = now }) ws) ≡ length ws
    length-usage [] = refl
    length-usage (w ∷ ws) = ap suc (length-usage ws)

-- With valid slices the second pass does not panic, and keeps the length.
pub charge_windows_total :
    (now amount : ℕ) (ws : List BudgetWindow) (us : List Usage)
    → length us ≡ length ws
    → (us' : List Usage) × (charge_windows now amount ws us ≡ some us') × (length us' ≡ length ws)
unfolding charge_windows
charge_windows_total now amount [] us h = (us, refl, h)
charge_windows_total now amount (w ∷ ws) [] h = absurd (omega arith)
charge_windows_total now amount (w ∷ ws) (u ∷ us) h =
    let (us', e, l) = charge_windows_total now amount ws us (omega arith) in
    (charge now amount w u ∷ us', ground arith, ground arith)

-- Each window of a report has room for the estimate, or shows no use at all.
abbrev pub HasRoom : ℕ → ℕ → List BudgetWindow → List Usage → Type 0
HasRoom now estimated [] us = Unit
HasRoom now estimated (w ∷ ws) [] = ⊥
HasRoom now estimated (w ∷ ws) (u ∷ us) =
    (expired now w u ≡ false → u.tokens + estimated ≤ w.limit) × HasRoom now estimated ws us

check_windows→HasRoom :
    (now estimated : ℕ) (ws : List BudgetWindow) (us : List Usage)
    → check_windows now estimated ws us ≡ allowed
    → HasRoom now estimated ws us
unfolding check_windows
check_windows→HasRoom now estimated [] us h = tt
check_windows→HasRoom now estimated (w ∷ ws) [] h = ground arith
check_windows→HasRoom now estimated (w ∷ ws) (u ∷ us) h =
    (ground arith, check_windows→HasRoom now estimated ws us (ground arith))

HasRoom→check_windows :
    (now estimated : ℕ) (ws : List BudgetWindow) (us : List Usage)
    → HasRoom now estimated ws us
    → check_windows now estimated ws us ≡ allowed
unfolding check_windows
HasRoom→check_windows now estimated [] us h = refl
HasRoom→check_windows now estimated (w ∷ ws) [] h = absurd h
HasRoom→check_windows now estimated (w ∷ ws) (u ∷ us) h =
    let (room, rest) = h in ground (arith, HasRoom→check_windows now estimated ws us rest)

-- The windows of a budget that is set have room for the estimate.
abbrev pub Admits : Option Budget → ℕ → ℕ → Type 0
Admits none now estimated = Unit
Admits (some b) now estimated = HasRoom now estimated b.windows b.usage

-- `CheckAllowance` and `TryConsume` give the same verdict at the same instant. `TryConsume` admits
-- an estimate exactly when no window that is still running would exceed its limit by it, and a
-- request that it does not admit leaves the budget as it was.
pub try_consume_verdict :
    (b : Option Budget) (now estimated : ℕ)
    → IsValid b
    → ((try_consume b now estimated).1 ≡ check_allowance b now estimated)
      × (((try_consume b now estimated).1 ≡ allowed) ↔ Admits b now estimated)
      × ((try_consume b now estimated).1 ≢ allowed → (try_consume b now estimated).0 ≡ b)
unfolding try_consume check_allowance
try_consume_verdict none now estimated v = (refl, (λ _. tt, λ _. refl), λ n. refl)
try_consume_verdict (some b) now estimated v =
    let (us', e, l) = charge_windows_total now estimated b.windows b.usage v in
    (
      ground arith,
      (
        λ h. check_windows→HasRoom now estimated b.windows b.usage (ground arith),
        λ r. ground (arith, HasRoom→check_windows now estimated b.windows b.usage r),
      ),
      λ n. ground arith,
    )

pub Verdict-cases : (v : Verdict) → (v ≡ allowed) ⊎ (v ≢ allowed)
Verdict-cases allowed = inl refl
Verdict-cases (exceeded n u l) = inr (λ e. cc)
Verdict-cases index_out_of_range = inr (λ e. cc)
