-- ===== src/Ai/Agent/Session.antt =====
-- internal/ai/budget.go, `Budget`, as the session budget of internal/ai/agent.go. A call that reads the
-- clock takes the next of its readings, so that a budget stands with the number of readings taken.
-- What is counted is the use of the window `i`, as it is stored.
use kube_assist_operator.Prelude.{
  ℕ, zero, suc, ◌+◌, ◌-◌, ◌<◌, ◌≡◌, ◌⊎◌, inl, inr, arith, refl, ap, ◌∙◌, Option, none, some, List,
  [], String, ◌∷◌, eqb, eqb_iff, length, Bool-cases,
}
use kube_assist_operator.Ai.Budget.{
  BudgetWindow, Usage, Budget, Verdict, allowed, exceeded, index_out_of_range, charge,
  charge_windows, check_windows, try_consume, release_usage, release_unused, record_usage,
}
use kube_assist_operator.Ai.Budget.Verdicts.{IsValid, charge_windows_total}
use kube_assist_operator.Ai.Agent.Turn.{Ledger}
use kube_assist_operator.Ai.Agent.Grows.{IsLedger}

abbrev pub used_at : ℕ → List Usage → ℕ
used_at i [] = 0
used_at zero (u ∷ us) = u.tokens
used_at (suc i) (u ∷ us) = used_at i us

-- The window `i` is there, and no reading of the clock reaches its end.
abbrev pub Lasts : (ℕ → ℕ) → ℕ → List BudgetWindow → List Usage → Type 0
Lasts clock i [] us = ⊥
Lasts clock i (w ∷ ws) [] = ⊥
Lasts clock zero (w ∷ ws) (u ∷ us) = (k : ℕ) → clock k < w.duration + u.started_at
Lasts clock (suc i) (w ∷ ws) (u ∷ us) = Lasts clock i ws us

-- The slices are as long as each other, and the window lasts for the turn.
abbrev pub IsOpen : (ℕ → ℕ) → ℕ → Budget × ℕ → Type 0
IsOpen clock i (b, k) = IsValid (some b) × Lasts clock i b.windows b.usage

-- The budget after a call, with the reading taken; a panic of the second pass ends like a refusal.
abbrev admitted : ℕ → Option Budget → Verdict → Option (Budget × ℕ)
admitted k (some b) allowed = some (b, suc k)
admitted k (some b) _ = none
admitted k none v = none

-- A panic, of slices that are not valid, leaves the budget.
abbrev recorded : Budget → ℕ → Option (Option Budget) → Budget × ℕ
recorded b k (some (some b')) = (b', suc k)
recorded b k _ = (b, suc k)

abbrev released : Budget → ℕ → Option Budget → Budget × ℕ
released b k (some b') = (b', k)
released b k none = (b, k)

unfoldable pub session_ledger : (ℕ → ℕ) → ℕ → Ledger (Budget × ℕ)
unfolding try_consume release_unused record_usage
session_ledger clock i = record {
  try_consume = λ s n. let (b', v) = try_consume (some s.0) (clock s.1) n in admitted s.1 b' v;
  release_unused = λ s n. released s.0 s.1 (release_unused (some s.0) n);
  record_usage = λ s n. recorded s.0 s.1 (record_usage (some s.0) (clock s.1) n);
  counted = λ s. used_at i s.0.usage;
}

charge-Lasts :
    (clock : ℕ → ℕ) (i k n : ℕ) (ws : List BudgetWindow) (us us' : List Usage)
    → Lasts clock i ws us
    → charge_windows (clock k) n ws us ≡ some us'
    → Lasts clock i ws us' × (used_at i us' ≡ used_at i us + n)
unfolding charge_windows charge
charge-Lasts clock i k n [] us us' h e = absurd h
charge-Lasts clock i k n (w ∷ ws) [] us' h e = absurd h
charge-Lasts clock i k n (w ∷ ws) (u ∷ us) [] h e = absurd (ground (arith, e))
charge-Lasts clock zero k n (w ∷ ws) (u ∷ us) (u' ∷ us') h e =
    let same : u' ≡ record u { tokens = u.tokens + n } = ground (arith, e, h k) in rw same (h, refl)
charge-Lasts clock (suc i) k n (w ∷ ws) (u ∷ us) (u' ∷ us') h e =
    charge-Lasts clock i k n ws us us' h (ground (arith, e))

release-Lasts :
    (clock : ℕ → ℕ) (i n : ℕ) (ws : List BudgetWindow) (us : List Usage)
    → Lasts clock i ws us
    → Lasts clock i ws (release_usage n us) × (used_at i (release_usage n us) ≡ used_at i us - n)
unfolding release_usage
release-Lasts clock i n [] us h = absurd h
release-Lasts clock i n (w ∷ ws) [] h = absurd h
release-Lasts clock zero n (w ∷ ws) (u ∷ us) h = (h, refl)
release-Lasts clock (suc i) n (w ∷ ws) (u ∷ us) h = release-Lasts clock i n ws us h

length-release_usage : (n : ℕ) (us : List Usage) → length (release_usage n us) ≡ length us
unfolding release_usage
length-release_usage n [] = refl
length-release_usage n (u ∷ us) = ap suc (length-release_usage n us)

-- What is admitted is charged.
try_consume-charged :
    (b : Budget) (k now n : ℕ) (s' : Budget × ℕ) (us : List Usage)
    → charge_windows now n b.windows b.usage ≡ some us
    → (let (b', v) = try_consume (some b) now n in admitted k b' v) ≡ some s'
    → s' ≡ (record b { usage = us }, suc k)
unfolding try_consume
try_consume-charged b k now n s' us charged e =
    elim (Verdict-cases (check_windows now n b.windows b.usage)) [
      | inl ok ↦ ground (arith, e, ok, charged)
      | inr (inl (name, used, limit, over)) ↦ absurd (ground (arith, e, over))
      | inr (inr bad) ↦ absurd (ground (arith, e, bad))
    ]
  where
    Verdict-cases :
        (v : Verdict)
        → (v ≡ allowed)
          ⊎ (((n : String) × (u : ℕ) × (l : ℕ) × (v ≡ exceeded n u l)) ⊎ (v ≡ index_out_of_range))
    Verdict-cases allowed = inl refl
    Verdict-cases (exceeded n u l) = inr (inl (n, u, l, refl))
    Verdict-cases index_out_of_range = inr (inr refl)

pub session_ledger-IsLedger :
    (clock : ℕ → ℕ) (i : ℕ) → IsLedger (session_ledger clock i) (IsOpen clock i)
unfolding session_ledger
session_ledger-IsLedger clock i = record {
  consumes = λ (b, k) s' n live e.
      let (us, charged, valid) = charge_windows_total (clock k) n b.windows b.usage live.0 in
      let same = try_consume-charged b k (clock k) n s' us charged e in
      let (lasts, more) = charge-Lasts clock i k n b.windows b.usage us live.1 charged in
      rw same ((valid, lasts), more);
  releases = λ (b, k) n live. elim (Bool-cases (eqb n 0)) [
    | inl none_unused ↦
        let e : n ≡ 0 = (eqb_iff n 0).0 none_unused in
        let same : release_unused (some b) n ≡ some b = rw (none_unused, release_unused) refl in
        rw same (live, omega (arith, e))
    | inr tokens ↦
        let (lasts, fewer) = release-Lasts clock i n b.windows b.usage live.1 in
        let same : release_unused (some b) n ≡ some (record b { usage = release_usage n b.usage }) =
          rw (tokens, release_unused) refl in
        rw same ((length-release_usage n b.usage ∙ live.0, lasts), fewer)
  ];
  records = λ (b, k) n live.
      let (us, charged, valid) = charge_windows_total (clock k) n b.windows b.usage live.0 in
      let (lasts, more) = charge-Lasts clock i k n b.windows b.usage us live.1 charged in
      let same : record_usage (some b) (clock k) n ≡ some (some (record b { usage = us })) =
        rw (charged, record_usage) refl in
      rw same ((valid, lasts), more);
}
