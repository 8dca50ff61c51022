-- ===== src/Ai/Manager/Spent.antt =====
-- What an analysis costs: the windows' reported use before and after it.
use kube_assist_operator.Prelude.{
  ℕ, ◌-◌, ◌≤◌, ◌≡◌, ◌≢◌, ◌⊎◌, [], ◌∷◌, length, refl, sym, ap, ap₂, ◌∙◌, Bool, true, false, Option,
  none, some, List, String, ltb, arith, Bool-cases, Option-cases, inl, inr,
}
use kube_assist_operator.Ai.Budget.{
  BudgetWindow, Usage, check_windows, Budget, WindowUsage, Verdict, allowed, exceeded,
  index_out_of_range, check_allowance, try_consume, release_unused, get_usage,
}
use kube_assist_operator.Ai.Budget.Verdicts.{IsValid, try_consume_verdict}
use kube_assist_operator.Ai.Budget.Settle.{
  add_used, add_report, Durable, try_consume-release_unused, try_consume-record_usage,
}
use kube_assist_operator.Ai.Cache.{get}
use kube_assist_operator.Ai.Manager.{
  AnalysisResponse, Manager, Reply, gave, rate_limit, fails, Attempt, Outcome, cached, answered,
  not_configured, over_budget, circuit_open_error, ctx_error, analysis_failed, panicked, admit,
  settle, succeed, give_up, retry, ask_provider, guarded, reserve, estimate, choose, analyze,
}

-- What an outcome costs, given the estimate.
abbrev pub spent : {R : Type 0} → ℕ → Outcome R → ℕ
spent estimated (cached r) = 0
spent estimated (answered r) = r.tokens_used
spent estimated not_configured = 0
spent estimated (over_budget name used limit) = 0
spent estimated circuit_open_error = estimated
spent estimated ctx_error = estimated
spent estimated analysis_failed = 0
spent estimated panicked = estimated

abbrev reserved : Budget → ℕ → ℕ → Option Budget
reserved b now estimated = (try_consume (some b) now estimated).0

release_nothing : (o : Option Budget) → release_unused o 0 ≡ o
unfolding release_unused
release_nothing none = refl
release_nothing (some b) = refl

add_nothing : (r : Option (List WindowUsage)) → r ≡ add_report 0 r
add_nothing none = refl
add_nothing (some ls) = ap some (go ls)
  where
    go : (ls : List WindowUsage) → ls ≡ add_used 0 ls
    go [] = refl
    go (w ∷ ws) =
        ap₂ (λ n r. record { name = w.name; limit = w.limit; used = n } ∷ r) (omega arith) (go ws)

module _ {P R : Type 0} (b : Budget) (now estimated : ℕ) where
  -- The reported use has grown by what the outcome costs.
  abbrev pub Accounts : Manager P R × Outcome R → Type 0
  Accounts (m, out) =
      get_usage m.budget now ≡ add_report (spent estimated out) (get_usage (some b) now)

module _ (b : Budget) (now estimated : ℕ) (v : IsValid (some b)) (d : Durable b.windows)
    (a : check_allowance (some b) now estimated ≡ allowed) where
  released :
      (unused : ℕ)
      → unused ≤ estimated
      → get_usage (release_unused (reserved b now estimated) unused) now
        ≡ add_report (estimated - unused) (get_usage (some b) now)
  released unused h = try_consume-release_unused b now estimated unused v d h a

  kept : get_usage (reserved b now estimated) now ≡ add_report estimated (get_usage (some b) now)
  kept =
      ap (λ o. get_usage o now) (sym (release_nothing (reserved b now estimated)))
      ∙ released 0 (omega arith)
      ∙ ap (λ n. add_report n (get_usage (some b) now)) (omega arith)

  settle-Accounts :
      (used : ℕ)
      → (o : Option Budget) × (settle (reserved b now estimated) now estimated used ≡ some o)
        × (get_usage o now ≡ add_report used (get_usage (some b) now))
  unfolding settle
  settle-Accounts used = elim (Bool-cases (ltb used estimated)) [
    | inl less ↦ rw less (
      release_unused (reserved b now estimated) (estimated - used),
      refl,
      released (estimated - used) (omega arith)
          ∙ ap (λ n. add_report n (get_usage (some b) now)) (ground (arith, less)),
    )
    | inr enough ↦ elim (Bool-cases (ltb estimated used)) [
      | inl more ↦
          let (b', recorded, report) =
            try_consume-record_usage b now estimated (used - estimated) v d a in
          rw (enough, more)
            (
              some b',
              recorded,
              report ∙ ap (λ n. add_report n (get_usage (some b) now)) (ground (arith, more)),
            )
      | inr equal ↦
          rw (enough, equal)
            (
              reserved b now estimated,
              refl,
              kept
                  ∙ ap (λ n. add_report n (get_usage (some b) now)) (ground (arith, enough, equal)),
            )
    ]
  ]

  module _ {P R : Type 0} where
    succeed-Accounts :
        (m : Manager P R) (key : String) (stored : ℕ) (r : Option (AnalysisResponse R))
        → m.budget ≡ reserved b now estimated
        → Accounts b now estimated (succeed m key estimated now stored r)
    unfolding succeed
    succeed-Accounts m key stored none h = ap (λ o. get_usage o now) h ∙ kept
    succeed-Accounts m key stored (some r) h =
        let (o, done, report) = settle-Accounts r.tokens_used in
        let step = ap (λ o. settle o now estimated r.tokens_used) h ∙ done in
        rw (step, succeed) report

    give_up-Accounts :
        (m : Manager P R) (failed : ℕ) (limited : Bool)
        → m.budget ≡ reserved b now estimated
        → Accounts b now estimated (give_up m estimated failed limited)
    unfolding give_up
    give_up-Accounts m failed limited h =
        ap (λ o. get_usage (release_unused o estimated) now) h
        ∙ released estimated (omega arith)
        ∙ ap (λ n. add_report n (get_usage (some b) now)) (omega arith)

    retry-Accounts :
        {Q : Type 0} (m : Manager P R) (t : Attempt P Q R) (key : String) (reply : Reply R)
        → t.settled ≡ now
        → m.budget ≡ reserved b now estimated
        → Accounts b now estimated (retry m t key estimated reply)
    unfolding retry
    retry-Accounts m t key (gave r) s h = rw s (succeed-Accounts m key t.stored r h)
    retry-Accounts m t key rate_limit s h = give_up-Accounts m t.failed true h
    retry-Accounts m t key fails s h = give_up-Accounts m t.failed false h

    ask_provider-Accounts :
        {Q : Type 0} (m : Manager P R) (t : Attempt P Q R) (p : P) (q : Q) (key : String)
        (reply : Reply R)
        → t.settled ≡ now
        → m.budget ≡ reserved b now estimated
        → Accounts b now estimated (ask_provider m t p q key estimated reply)
    unfolding ask_provider
    ask_provider-Accounts m t p q key (gave r) s h = rw s (succeed-Accounts m key t.stored r h)
    ask_provider-Accounts m t p q key fails s h = give_up-Accounts m t.failed false h
    ask_provider-Accounts m t p q key rate_limit s h = elim (Bool-cases t.ctx_done) [
      | inl done ↦ rw done (ap (λ o. get_usage o now) h ∙ kept)
      | inr waiting ↦ rw waiting (retry-Accounts _ t key (t.second p q) s h)
    ]

    guarded-Accounts :
        {Q : Type 0} (m : Manager P R) (t : Attempt P Q R) (p : P) (q : Q) (key : String)
        → t.settled ≡ now
        → m.budget ≡ reserved b now estimated
        → Accounts b now estimated (guarded m t p q key estimated)
    unfolding guarded
    guarded-Accounts m t p q key s h = elim (Bool-cases (admit m.cb t.asked).0) [
      | inl ok ↦ rw ok (ask_provider-Accounts _ t p q key (t.first p q) s h)
      | inr refused ↦ rw refused (ap (λ o. get_usage o now) h ∙ kept)
    ]

in_range :
    (now estimated : ℕ) (ws : List BudgetWindow) (us : List Usage)
    → length us ≡ length ws
    → check_windows now estimated ws us ≢ index_out_of_range
unfolding check_windows
in_range now estimated [] us h = λ e. cc
in_range now estimated (w ∷ ws) [] h = absurd (omega (arith, h))
in_range now estimated (w ∷ ws) (u ∷ us) h = ground (arith, in_range now estimated ws us, h)

-- On a budget with one usage for each window a reservation is admitted or exceeds a limit.
consume-cases :
    (b : Budget) (now estimated : ℕ)
    → IsValid (some b)
    → (check_allowance (some b) now estimated ≡ allowed)
      ⊎ ((name : String) × (used : ℕ) × (limit : ℕ) × (try_consume (some b) now estimated
            ≡ (some b, exceeded name used limit)))
unfolding check_allowance try_consume
consume-cases b now estimated v = go (check_windows now estimated b.windows b.usage) refl
  where
    go :
        (w : Verdict)
        → check_windows now estimated b.windows b.usage ≡ w
        → (check_allowance (some b) now estimated ≡ allowed)
          ⊎ ((name : String) × (used : ℕ) × (limit : ℕ) × (try_consume (some b) now estimated
                ≡ (some b, exceeded name used limit)))
    go allowed h = inl h
    go (exceeded n u l) h = inr (n, u, l, rw (h, try_consume) refl)
    go index_out_of_range h = absurd (in_range now estimated b.windows b.usage v h)

module _ {P Q R : Type 0} (name : P → String) (digest : Q → String → String)
    (explain_mode : Q → Bool) (issue_count : Q → ℕ) where
  reserve-Accounts :
      (b : Budget) (now estimated : ℕ) (m : Manager P R) (t : Attempt P Q R) (p : P) (q : Q)
      (key : String)
      → IsValid (some b)
      → Durable b.windows
      → t.reserved ≡ now
      → t.settled ≡ now
      → m.budget ≡ some b
      → Accounts b now estimated (reserve m t p q key estimated)
  unfolding reserve
  reserve-Accounts b now estimated m t p q key v d r s h = elim (consume-cases b now estimated v) [
    | inl a ↦
        let same = ap₂ (λ o n. try_consume o n estimated) h r in
        let verdict = ap (λ p. p.1) same ∙ (try_consume_verdict (some b) now estimated v).0 ∙ a in
        let m' = record m { budget = (try_consume m.budget t.reserved estimated).0 } in
        rw (verdict, reserve)
          (guarded-Accounts b now estimated v d a m' t p q key s (ap (λ p. p.0) same))
    | inr (n, u, l, refused) ↦
        let over = ap₂ (λ o n. try_consume o n estimated) h r ∙ refused in
        rw (over, reserve) (ap (λ p. get_usage p.0 now) over ∙ add_nothing (get_usage (some b) now))
  ]

  -- With a budget that has a usage for each window and no window of length zero, and with the
  -- reservation and the settlement at one instant, each window's reported use grows by what the
  -- outcome says: by the tokens used if there is an answer, by nothing on a cache hit, without a
  -- provider, over budget or on a failed call, and by the whole estimate if the breaker refuses,
  -- if the context ends while waiting, or if the code panics.
  pub analyze-Accounts :
      (b : Budget) (now : ℕ) (m : Manager P R) (t : Attempt P Q R) (q : Q)
      → IsValid (some b)
      → Durable b.windows
      → t.reserved ≡ now
      → t.settled ≡ now
      → m.budget ≡ some b
      → Accounts b now
          (estimate (issue_count q))
          (analyze name digest explain_mode issue_count m t q)
  unfolding analyze
  analyze-Accounts b now m t q v d r s h =
      elim (Option-cases (choose name digest explain_mode issue_count m q)) [
        | inl none_set ↦
            rw (none_set, analyze)
              (ap (λ o. get_usage o now) h ∙ add_nothing (get_usage (some b) now))
        | inr (p, set) ↦ elim (Option-cases (get m.cache t.looked_up (digest q (name p))).1) [
          | inl miss ↦
              let key = digest q (name p) in
              let m' = record m { cache = (get m.cache t.looked_up key).0 } in
              rw (set, miss, analyze)
                (reserve-Accounts b now (estimate (issue_count q)) m' t p q key v d r s h)
          | inr (found, hit) ↦
              rw (set, hit, analyze)
                (ap (λ o. get_usage o now) h ∙ add_nothing (get_usage (some b) now))
        ]
      ]
