-- ===== src/Ai/Agent/Aggregate.antt =====
-- internal/ai/budget.go, `ChatBudget`, as the aggregate budget of internal/ai/agent.go: what its calls do
-- when no other thread runs.
use kube_assist_operator.Prelude.{
  ℕ, ◌+◌, ◌-◌, ◌≡◌, ◌⊎◌, arith, refl, ap, ◌∙◌, Bool, true, false, Bool-cases, inl, inr, none, some,
  List, [], ◌∷◌, eqb, eqb_iff, ltb, if◌then◌else◌,
}
use kube_assist_operator.Ai.ChatBudget.{
  ChatCall, try_chat_consume, release_unused, record_usage, idle, ChatBudget, Outcome, refused,
  arrive, step, enter, advance, act, run,
}
use kube_assist_operator.Ai.Agent.Turn.{Ledger}
use kube_assist_operator.Ai.Agent.Grows.{IsLedger}

-- A call on its own: it arrives, loads and swaps.
abbrev alone : ChatBudget → ChatCall → ChatBudget × List Outcome
alone cb call = run (record cb { threads = λ t. idle }) (arrive 0 call ∷ step 0 ∷ step 0 ∷ [])

abbrev is_refused : List Outcome → Bool
is_refused [] = false
is_refused (refused n ∷ os) = true
is_refused (o ∷ os) = is_refused os

unfoldable pub aggregate_ledger : Ledger ChatBudget
unfolding run act enter advance
aggregate_ledger = record {
  try_consume = λ cb n.
      let (cb', os) = alone cb (try_chat_consume n) in if is_refused os then none else some cb';
  release_unused = λ cb n. (alone cb (release_unused n)).0;
  record_usage = λ cb n. (alone cb (record_usage n)).0;
  counted = λ cb. cb.used;
}

unchanged : (cb : ChatBudget) → eqb cb.used cb.used ≡ true
unchanged cb = (eqb_iff _ _).1 refl

alone-release : (cb : ChatBudget) (n : ℕ) → (alone cb (release_unused n)).0.used ≡ cb.used - n
unfolding run act enter advance
alone-release cb n = elim (Bool-cases (eqb n 0)) [
  | inl zero ↦ let e : n ≡ 0 = (eqb_iff n 0).0 zero in rw zero (omega (arith, e))
  | inr tokens ↦ rw (tokens, unchanged cb) refl
]

alone-record : (cb : ChatBudget) (n : ℕ) → (alone cb (record_usage n)).0.used ≡ cb.used + n
unfolding run act enter advance
alone-record cb n = elim (Bool-cases (eqb n 0)) [
  | inl zero ↦ let e : n ≡ 0 = (eqb_iff n 0).0 zero in rw zero (omega (arith, e))
  | inr tokens ↦ rw tokens refl
]

-- Refused, or charged.
alone-consume :
    (cb : ChatBudget) (n : ℕ)
    → (is_refused (alone cb (try_chat_consume n)).1 ≡ true)
      ⊎ ((is_refused (alone cb (try_chat_consume n)).1 ≡ false)
          × ((alone cb (try_chat_consume n)).0.used ≡ cb.used + n))
unfolding run act enter advance
alone-consume cb n = elim (Bool-cases (eqb n 0)) [
  | inl zero ↦ let e : n ≡ 0 = (eqb_iff n 0).0 zero in rw zero (inr (refl, omega (arith, e)))
  | inr tokens ↦ elim (Bool-cases (ltb cb.max (cb.used + n))) [
    | inl over ↦ rw (tokens, over) (inl refl)
    | inr room ↦ rw (tokens, room, unchanged cb) (inr (refl, refl))
  ]
]

pub aggregate_ledger-IsLedger : IsLedger aggregate_ledger (λ cb. Unit)
unfolding aggregate_ledger
aggregate_ledger-IsLedger = record {
  consumes = λ b b' n live e. elim (alone-consume b n) [
    | inl over ↦ absurd (ground (arith, e, over))
    | inr (room, charged) ↦
        let same : b' ≡ (alone b (try_chat_consume n)).0 = ground (arith, e, room) in
        (tt, ap ChatBudget.used same ∙ charged)
  ];
  releases = λ b n live. (tt, alone-release b n);
  records = λ b n live. (tt, alone-record b n);
}
