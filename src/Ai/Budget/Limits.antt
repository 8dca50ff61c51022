-- ===== src/Ai/Budget/Limits.antt =====
-- What a limit guarantees, and where it does not hold.
use kube_assist_operator.Prelude.{
  ℕ, ◌≤◌, ◌≡◌, ◌≢◌, refl, sym, inl, inr, true, Option, none, some, List, [], ◌∷◌, arith, All,
  length, map,
}
use mathlib.Core.Path.{subst}
use kube_assist_operator.Ai.Budget.{
  check_allowance, BudgetWindow, Usage, Budget, allowed, check_windows, charge_windows, try_consume,
  expired,
}
use kube_assist_operator.Ai.Budget.Verdicts.{
  IsValid, Verdict-cases, try_consume_verdict, charge_windows_total,
}

-- No counter is above its window's limit.
abbrev pub Within : List BudgetWindow → List Usage → Type 0
Within [] us = Unit
Within (w ∷ ws) [] = Unit
Within (w ∷ ws) (u ∷ us) = (u.tokens ≤ w.limit) × Within ws us

abbrev pub WithinLimits : Option Budget → Type 0
WithinLimits none = Unit
WithinLimits (some b) = Within b.windows b.usage

-- An estimate that fits into each empty window.
abbrev pub Fits : ℕ → Option Budget → Type 0
Fits estimated none = Unit
Fits estimated (some b) = All (λ w. estimated ≤ w.limit) b.windows

charge_windows-Within :
    (now estimated : ℕ) (ws : List BudgetWindow) (us us' : List Usage)
    → All (λ w. estimated ≤ w.limit) ws
    → Within ws us
    → check_windows now estimated ws us ≡ allowed
    → charge_windows now estimated ws us ≡ some us'
    → Within ws us'
unfolding check_windows charge_windows
charge_windows-Within now estimated [] us us' f v h e = tt
charge_windows-Within now estimated (w ∷ ws) [] us' f v h e = ground arith
charge_windows-Within now estimated (w ∷ ws) (u ∷ us) [] f v h e = ground arith
charge_windows-Within now estimated (w ∷ ws) (u ∷ us) (u' ∷ us') f v h e =
    let (fw, fws) = f in
    let (vu, vus) = v in
    (
      ground arith,
      charge_windows-Within now estimated ws us us' fws vus (ground arith) (ground arith),
    )

-- `TryConsume` keeps every counter within its limit, whatever it answers, provided that the
-- estimate on its own fits into each window.
pub try_consume-WithinLimits :
    (b : Option Budget) (now estimated : ℕ)
    → IsValid b
    → Fits estimated b
    → WithinLimits b
    → WithinLimits (try_consume b now estimated).0
unfolding try_consume
try_consume-WithinLimits none now estimated v f h = tt
try_consume-WithinLimits (some b) now estimated v f h =
    let (us', e, l) = charge_windows_total now estimated b.windows b.usage v in
    elim (Verdict-cases (check_windows now estimated b.windows b.usage)) [
      | inl a ↦
          rw (a, e, try_consume) (charge_windows-Within now estimated b.windows b.usage us' f h a e)
      | inr n ↦
          subst WithinLimits (sym ((try_consume_verdict (some b) now estimated v).2 (refused n))) h
    ]
  where
    refused :
        check_windows now estimated b.windows b.usage ≢ allowed
        → (try_consume (some b) now estimated).1 ≢ allowed
    refused n = rw (try_consume_verdict (some b) now estimated v).0 (unfold check_allowance in n)

-- Every window's time is over.
abbrev pub AllExpired : ℕ → List BudgetWindow → List Usage → Type 0
AllExpired now [] us = Unit
AllExpired now (w ∷ ws) [] = Unit
AllExpired now (w ∷ ws) (u ∷ us) = (expired now w u ≡ true) × AllExpired now ws us

check_windows-expired :
    (now estimated : ℕ) (ws : List BudgetWindow) (us : List Usage)
    → length us ≡ length ws
    → AllExpired now ws us
    → check_windows now estimated ws us ≡ allowed
unfolding check_windows
check_windows-expired now estimated [] us l h = refl
check_windows-expired now estimated (w ∷ ws) [] l h = absurd (omega arith)
check_windows-expired now estimated (w ∷ ws) (u ∷ us) l h =
    let (hw, hws) = h in ground (arith, check_windows-expired now estimated ws us (omega arith) hws)

charge_windows-expired :
    (now estimated : ℕ) (ws : List BudgetWindow) (us : List Usage)
    → length us ≡ length ws
    → AllExpired now ws us
    → charge_windows now estimated ws us
      ≡ some (map (λ _. record { tokens = estimated; started_at = now }) ws)
unfolding charge_windows
charge_windows-expired now estimated [] [] l h = refl
charge_windows-expired now estimated [] (u ∷ us) l h = absurd (omega arith)
charge_windows-expired now estimated (w ∷ ws) [] l h = absurd (omega arith)
charge_windows-expired now estimated (w ∷ ws) (u ∷ us) l h =
    let (hw, hws) = h in
    ground (arith, charge_windows-expired now estimated ws us (omega arith) hws)

-- When the time of every window is over, `TryConsume` admits any estimate, above the limits too,
-- and charges it to each window.
pub try_consume-expired :
    (b : Budget) (now estimated : ℕ)
    → IsValid (some b)
    → AllExpired now b.windows b.usage
    → try_consume (some b) now estimated ≡ (
      some (record b {
        usage = map (λ _. record { tokens = estimated; started_at = now }) b.windows;
      }),
      allowed,
    )
unfolding try_consume
try_consume-expired b now estimated v x = ground (
  arith,
  check_windows-expired now estimated b.windows b.usage v x,
  charge_windows-expired now estimated b.windows b.usage v x,
)
