-- ===== src/Ai/Budget/Settle.antt =====
-- How a reservation is settled once the real use is known.
use kube_assist_operator.Prelude.{
  ℕ, ◌+◌, ◌-◌, ◌≤◌, ◌<◌, ◌≡◌, refl, ap, ◌∙◌, Option, none, some, List, [], ◌∷◌, arith, All, map,
  eqb, eqb_iff, Bool-cases, inl, inr,
}
use kube_assist_operator.Ai.Budget.{
  BudgetWindow, Usage, Budget, allowed, charge_windows, try_consume, release_usage, release_unused,
  record_usage, get_usage, WindowUsage, report_windows, check_allowance,
}
use kube_assist_operator.Ai.Budget.Verdicts.{IsValid, charge_windows_total}

-- A report with `amount` more used in each line.
abbrev pub add_used : ℕ → List WindowUsage → List WindowUsage
add_used amount = map (λ l. record { name = l.name; limit = l.limit; used = l.used + amount })

abbrev pub add_report : ℕ → Option (List WindowUsage) → Option (List WindowUsage)
add_report amount none = none
add_report amount (some ls) = some (add_used amount ls)

-- Within the instant of the reservation a freshly reset window does not expire again.
abbrev pub Durable : List BudgetWindow → Type 0
Durable = All (λ w. 0 < w.duration)

report-charge :
    (now amount : ℕ) (ws : List BudgetWindow) (us us' : List Usage)
    → Durable ws
    → charge_windows now amount ws us ≡ some us'
    → report_windows now ws us' ≡ add_report amount (report_windows now ws us)
unfolding charge_windows report_windows
report-charge now amount [] us us' d e = refl
report-charge now amount (w ∷ ws) [] us' d e = ground arith
report-charge now amount (w ∷ ws) (u ∷ us) [] d e = ground arith
report-charge now amount (w ∷ ws) (u ∷ us) (u' ∷ us') d e =
    let (dw, dws) = d in ground (arith, report-charge now amount ws us us' dws)

report-charge-release :
    (now estimated unused : ℕ) (ws : List BudgetWindow) (us us' : List Usage)
    → Durable ws
    → unused ≤ estimated
    → charge_windows now estimated ws us ≡ some us'
    → report_windows now ws (release_usage unused us')
      ≡ add_report (estimated - unused) (report_windows now ws us)
unfolding charge_windows report_windows release_usage
report-charge-release now estimated unused [] us us' d h e = refl
report-charge-release now estimated unused (w ∷ ws) [] us' d h e = ground arith
report-charge-release now estimated unused (w ∷ ws) (u ∷ us) [] d h e = ground arith
report-charge-release now estimated unused (w ∷ ws) (u ∷ us) (u' ∷ us') d h e =
    let (dw, dws) = d in ground (arith, report-charge-release now estimated unused ws us us' dws h)

-- A reservation that is admitted, and settled within the same instant by `ReleaseUnused` of what
-- was not used, leaves each window's reported use higher by the rest, the actual use: by nothing
-- if all of it is released.
pub try_consume-release_unused :
    (b : Budget) (now estimated unused : ℕ)
    → IsValid (some b)
    → Durable b.windows
    → unused ≤ estimated
    → check_allowance (some b) now estimated ≡ allowed
    → get_usage (release_unused (try_consume (some b) now estimated).0 unused) now
      ≡ add_report (estimated - unused) (get_usage (some b) now)
unfolding try_consume release_unused get_usage check_allowance
try_consume-release_unused b now estimated unused v d h a =
    let (us', e, l) = charge_windows_total now estimated b.windows b.usage v in
    elim (Bool-cases (eqb unused 0)) [
      | inl z ↦
          let none_unused : unused ≡ 0 = (eqb_iff unused 0).0 z in
          ground (arith, report-charge now estimated b.windows b.usage us' d e)
      | inr p ↦
          ground (arith, report-charge-release now estimated unused b.windows b.usage us' d h e)
    ]

add_used_twice :
    (a b : ℕ) (ls : List WindowUsage) → add_used b (add_used a ls) ≡ add_used (a + b) ls
add_used_twice a b [] = refl
add_used_twice a b (l ∷ ls) = ground (arith, add_used_twice a b ls)

add_report_twice :
    (a b : ℕ) (r : Option (List WindowUsage)) → add_report b (add_report a r) ≡ add_report (a + b) r
add_report_twice a b none = refl
add_report_twice a b (some ls) = ap some (add_used_twice a b ls)

-- Where the real use exceeds the estimate, `RecordUsage` of the excess within the same instant
-- leaves each window's reported use higher by the real use.
pub try_consume-record_usage :
    (b : Budget) (now estimated excess : ℕ)
    → IsValid (some b)
    → Durable b.windows
    → check_allowance (some b) now estimated ≡ allowed
    → (b' : Budget) × (record_usage (try_consume (some b) now estimated).0 now excess
        ≡ some (some b'))
      × (get_usage (some b') now ≡ add_report (estimated + excess) (get_usage (some b) now))
unfolding try_consume record_usage get_usage check_allowance
try_consume-record_usage b now estimated excess v d a =
    let (us', e, l) = charge_windows_total now estimated b.windows b.usage v in
    let (us'', e', l') = charge_windows_total now excess b.windows us' l in
    (
      record b { usage = us'' },
      ground arith,
      report-charge now excess b.windows us' us'' d e'
          ∙ ap (add_report excess) (report-charge now estimated b.windows b.usage us' d e)
          ∙ add_report_twice estimated excess (report_windows now b.windows b.usage),
    )
