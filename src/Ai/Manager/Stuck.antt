-- ===== src/Ai/Manager/Stuck.antt =====
-- Analyses behind a half-open breaker.
use kube_assist_operator.Prelude.{
  ℕ, ◌≡◌, ◌⊎◌, ◌∙◌, refl, Bool, false, some, List, [], ◌∷◌, String, arith, Option-cases, inl, inr,
}
use kube_assist_operator.Ai.Breaker.{CircuitBreaker, half_open, allow}
use kube_assist_operator.Ai.Budget.{Verdict, allowed, exceeded, index_out_of_range, try_consume}
use kube_assist_operator.Ai.Cache.{get}
use kube_assist_operator.Ai.Manager.{
  Manager, Attempt, admit, guarded, reserve, estimate, choose, analyze,
}

-- The breaker is the same, and so is the number of calls of the provider.
abbrev pub IsStuck : {P R : Type 0} → CircuitBreaker → ℕ → Manager P R → Type 0
IsStuck cb calls m = (m.cb ≡ some cb) × (m.calls ≡ calls)

admit-half_open :
    (cb : CircuitBreaker) (now : ℕ) → cb.state ≡ half_open → admit (some cb) now ≡ (false, some cb)
unfolding admit allow
admit-half_open cb now h = ground (arith, h)

module _ {P Q R : Type 0} where
  guarded-IsStuck :
      (cb : CircuitBreaker) (m : Manager P R) (t : Attempt P Q R) (p : P) (q : Q) (key : String)
      (estimated : ℕ)
      → cb.state ≡ half_open
      → m.cb ≡ some cb
      → IsStuck cb m.calls (guarded m t p q key estimated).0
  unfolding guarded
  guarded-IsStuck cb m t p q key estimated h at =
      let refused : admit m.cb t.asked ≡ (false, some cb) = rw at (admit-half_open cb t.asked h) in
      rw (refused, guarded) (refl, refl)

  reserve-IsStuck :
      (cb : CircuitBreaker) (m : Manager P R) (t : Attempt P Q R) (p : P) (q : Q) (key : String)
      (estimated : ℕ)
      → cb.state ≡ half_open
      → m.cb ≡ some cb
      → IsStuck cb m.calls (reserve m t p q key estimated).0
  unfolding reserve
  reserve-IsStuck cb m t p q key estimated h at =
      let m' = record m { budget = (try_consume m.budget t.reserved estimated).0 } in
      elim (cases (try_consume m.budget t.reserved estimated).1) [
        | inl ok ↦ rw (ok, reserve) (guarded-IsStuck cb m' t p q key estimated h at)
        | inr (inl (n, u, l, over)) ↦ rw (over, reserve) (at, refl)
        | inr (inr bad) ↦ rw (bad, reserve) (at, refl)
      ]
    where
      cases :
          (v : Verdict)
          → (v ≡ allowed)
            ⊎ (((n : String) × (u : ℕ) × (l : ℕ) × (v ≡ exceeded n u l)) ⊎ (v ≡ index_out_of_range))
      cases allowed = inl refl
      cases (exceeded n u l) = inr (inl (n, u, l, refl))
      cases index_out_of_range = inr (inr refl)

module _ {P Q R : Type 0} (name : P → String) (digest : Q → String → String)
    (explain_mode : Q → Bool) (issue_count : Q → ℕ) where
  analyze-IsStuck :
      (cb : CircuitBreaker) (m : Manager P R) (t : Attempt P Q R) (q : Q)
      → cb.state ≡ half_open
      → m.cb ≡ some cb
      → IsStuck cb m.calls (analyze name digest explain_mode issue_count m t q).0
  unfolding analyze
  analyze-IsStuck cb m t q h at =
      elim (Option-cases (choose name digest explain_mode issue_count m q)) [
        | inl none_set ↦ rw (none_set, analyze) (at, refl)
        | inr (p, set) ↦ elim (Option-cases (get m.cache t.looked_up (digest q (name p))).1) [
          | inl miss ↦
              let key = digest q (name p) in
              let m' = record m { cache = (get m.cache t.looked_up key).0 } in
              rw (set, miss, analyze)
                (reserve-IsStuck cb m' t p q key (estimate (issue_count q)) h at)
          | inr (found, hit) ↦ rw (set, hit, analyze) (at, refl)
        ]
      ]

  -- Analyses in turn.
  abbrev pub analyses : Manager P R → List (Attempt P Q R × Q) → Manager P R
  analyses m [] = m
  analyses m ((t, q) ∷ ts) = analyses (analyze name digest explain_mode issue_count m t q).0 ts

  -- Behind a breaker that is half-open, with the outcome of its probe not recorded, no analysis
  -- ever calls the provider again, however many there are and whatever time passes, and the breaker
  -- stays as it is.
  pub analyses-IsStuck :
      (cb : CircuitBreaker) (m : Manager P R) (ts : List (Attempt P Q R × Q))
      → cb.state ≡ half_open
      → m.cb ≡ some cb
      → IsStuck cb m.calls (analyses m ts)
  analyses-IsStuck cb m [] h at = (at, refl)
  analyses-IsStuck cb m ((t, q) ∷ ts) h at =
      let m' = (analyze name digest explain_mode issue_count m t q).0 in
      let (still, silent) = analyze-IsStuck cb m t q h at in
      let (last, uncalled) = analyses-IsStuck cb m' ts h still in (last, uncalled ∙ silent)
