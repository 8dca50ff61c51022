-- ===== src/Ai/Agent/Accounts.antt =====
-- internal/ai/agent.go: what a turn takes from its budgets.
use kube_assist_operator.Prelude.{
  ℕ, suc, zero, ◌+◌, ◌≡◌, ap, ◌∙◌, ◌⊎◌, inl, inr, arith, refl, Bool, Bool-cases, Option-cases,
  Sum-cases, Option, List, [], ◌∷◌, ◌++◌, String, string_eq,
}
use kube_assist_operator.Prelude.Numbers.{pos, negsuc, ◌+ℤ◌}
use kube_assist_operator.Ai.Agent.{ToolCall, ChatMessage, role_assistant, maybe_compact_history}
use kube_assist_operator.Ai.Agent.Turn.{
  Ledger, thinking, Reply, failed, replied, TurnError, Turn, reserve_in, settle_in, emit, stop,
  execute_calls, take_reply, reserve_both, reservation, iterate, iterations,
}
use kube_assist_operator.Ai.Agent.Grows.{
  IsLedger, Grows, Grows-none, Grows-trans, reserve_in-Grows, settle_in-Grows, release_in-Grows,
}

-- The provider tells no negative use.
abbrev pub IsFair : Reply → Type 0
IsFair (failed err) = Unit
IsFair (replied content calls (pos n)) = Unit
IsFair (replied content calls (negsuc n)) = ⊥

-- From a turn to a later one: both budgets grow by what the total does.
unfoldable pub Accounts :
    {B D : Type 0}
    → Ledger B
    → (B → Type 0)
    → Ledger D
    → (D → Type 0)
    → Turn B D
    → Turn B D
    → ℕ
    → Type 0
Accounts L O M Q t t' n =
    ((a : ℕ) → t.total ≡ pos a → t'.total ≡ pos (a + n))
    × (Grows L O t.session t'.session n × Grows M Q t.aggregate t'.aggregate n)

-- What the reservations of an iteration come to.
unfoldable pub Reserved :
    {B D : Type 0}
    → ℕ
    → Ledger B
    → (B → Type 0)
    → Ledger D
    → (D → Type 0)
    → Turn B D
    → (Turn B D × Option TurnError) ⊎ Turn B D
    → Type 0
unfolding Accounts
Reserved n L O M Q t (inl over) = Accounts L O M Q t over.0 0 × (over.0.asked ≡ t.asked)
Reserved n L O M Q t (inr held) =
    (held.total ≡ t.total)
    × ((held.asked ≡ t.asked)
        × (Grows L O t.session held.session n × Grows M Q t.aggregate held.aggregate n))

-- What comes out of a step, whether the turn is over or goes on.
abbrev pub turn_of : {B D : Type 0} → (Turn B D × Option TurnError) ⊎ Turn B D → Turn B D
turn_of (inl (t, e)) = t
turn_of (inr t) = t

module _ {B D : Type 0} (L : Ledger B) (O : B → Type 0) (M : Ledger D) (Q : D → Type 0)
    (l : IsLedger L O) (m : IsLedger M Q) where
  Accounts-trans :
      (t t' t'' : Turn B D) (a b : ℕ)
      → Accounts L O M Q t t' a
      → Accounts L O M Q t' t'' b
      → Accounts L O M Q t t'' (a + b)
  unfolding Accounts
  Accounts-trans t t' t'' a b g h = (
    λ x e. h.0 (x + a) (g.0 x e) ∙ ap pos (omega arith),
    (
      Grows-trans L O l t.session t'.session t''.session a b g.1.0 h.1.0,
      Grows-trans M Q m t.aggregate t'.aggregate t''.aggregate a b g.1.1 h.1.1,
    ),
  )

  module _ (byte_length : String → ℕ) (max_tokens : ℕ) (ended : ℕ → Bool)
      (ask : ℕ → List ChatMessage → Reply) (executor : String → String → String ⊎ String)
      (fair : (i : ℕ) (msgs : List ChatMessage) → IsFair (ask i msgs)) where
    execute_calls-Accounts :
        (tcs : List ToolCall) (t : Turn B D)
        → Accounts L O M Q t (execute_calls L M byte_length max_tokens ended ask executor tcs t) 0
    unfolding execute_calls Accounts
    execute_calls-Accounts [] t = (
      λ a z. z ∙ ap pos (omega arith),
      (Grows-none L O l t.session, Grows-none M Q m t.aggregate),
    )
    execute_calls-Accounts (tc ∷ tcs) t = execute_calls-Accounts tcs _

    -- The reply settles what is reserved for it.
    take_reply-Accounts :
        (reserved : ℕ) (t held : Turn B D) (reply : Reply)
        → IsFair reply
        → held.total ≡ t.total
        → Grows L O t.session held.session reserved
        → Grows M Q t.aggregate held.aggregate reserved
        → (n : ℕ) × Accounts L O M Q t
            (turn_of (take_reply L M byte_length max_tokens ended ask executor reserved held reply))
            n
    unfolding take_reply Accounts stop
    take_reply-Accounts reserved t held (failed err) fair e g h = (
      0,
      (
        λ a z. e ∙ z ∙ ap pos (omega arith),
        (settle_in-Grows L O l _ _ reserved 0 g, settle_in-Grows M Q m _ _ reserved 0 h),
      ),
    )
    take_reply-Accounts reserved t held (replied content [] (negsuc n)) fair e g h = absurd fair
    take_reply-Accounts reserved t held (replied content [] (pos n)) fair e g h = (
      n,
      (
        λ a z. ap (λ y. y +ℤ pos n) (e ∙ z),
        (settle_in-Grows L O l _ _ reserved n g, settle_in-Grows M Q m _ _ reserved n h),
      ),
    )
    take_reply-Accounts reserved t held (replied content (c ∷ cs) (negsuc n)) fair e g h =
        absurd fair
    take_reply-Accounts reserved t held (replied content (c ∷ cs) (pos n)) fair e g h =
        let settled : Turn B D = record held {
          msgs =
              held.msgs
              ++ (record {
                role = role_assistant;
                content = content;
                tool_call_id = "";
                tool_calls = c ∷ cs;
              }
                  ∷ []);
          session = settle_in L held.session reserved n;
          aggregate = settle_in M held.aggregate reserved n;
          total = held.total +ℤ pos n;
        } in
        (
          n + 0,
          Accounts-trans t settled
              (execute_calls L M byte_length max_tokens ended ask executor (c ∷ cs) settled) n 0
              (
                λ a z. ap (λ y. y +ℤ pos n) (e ∙ z),
                (settle_in-Grows L O l _ _ reserved n g, settle_in-Grows M Q m _ _ reserved n h),
              )
              (execute_calls-Accounts (c ∷ cs) settled),
        )

    -- The outcome of the reservations: what they hold, or a turn that is over and has paid nothing.
    pub reserve_both-Accounts :
        (reserved : ℕ) (t : Turn B D) (out : (Turn B D × Option TurnError) ⊎ Turn B D)
        → reserve_both L M byte_length max_tokens ended ask executor reserved t ≡ out
        → Reserved reserved L O M Q t out
    unfolding reserve_both stop Accounts Reserved
    reserve_both-Accounts reserved t out e = elim (Option-cases (reserve_in L t.session reserved)) [
      | inl over ↦ rw⁻¹ e (
          rw (over, reserve_both)
            (
              (
                λ a z. z ∙ ap pos (omega arith),
                (Grows-none L O l t.session, Grows-none M Q m t.aggregate),
              ),
              refl,
            ))
      | inr (session, held) ↦ elim (Option-cases (reserve_in M t.aggregate reserved)) [
        | inl over ↦ rw⁻¹ e (
            rw (held, over, reserve_both)
              (
                (
                  λ a z. z ∙ ap pos (omega arith),
                  (
                    release_in-Grows L O l _ _ reserved
                        (reserve_in-Grows L O l t.session session reserved held),
                    Grows-none M Q m t.aggregate,
                  ),
                ),
                refl,
              ))
        | inr (aggregate, held') ↦ rw⁻¹ e (
            rw (held, held', reserve_both)
              (
                refl,
                (
                  refl,
                  (
                    reserve_in-Grows L O l t.session session reserved held,
                    reserve_in-Grows M Q m t.aggregate aggregate reserved held',
                  ),
                ),
              ))
      ]
    ]

    iterate-Accounts :
        (i : ℕ) (t : Turn B D)
        → (n : ℕ) × Accounts L O M Q t
            (turn_of (iterate L M byte_length max_tokens ended ask executor i t))
            n
    unfolding iterate Reserved Accounts stop
    iterate-Accounts i t = elim (Bool-cases (ended i)) [
      | inl over ↦
          rw (over, iterate)
            (
              0,
              (
                λ a z. z ∙ ap pos (omega arith),
                (Grows-none L O l t.session, Grows-none M Q m t.aggregate),
              ),
            )
      | inr goes ↦
          let reserved = reservation L M byte_length max_tokens ended ask executor t.msgs in
          elim (Sum-cases (reserve_both L M byte_length max_tokens ended ask executor reserved t)) [
            | inl (over, e) ↦
                rw (goes, e, iterate) (0, (reserve_both-Accounts reserved t (inl over) e).0)
            | inr (held, e) ↦
                let g = reserve_both-Accounts reserved t (inr held) e in
                let msgs = maybe_compact_history byte_length held.msgs in
                let sent : Turn B D =
                  emit (record held { msgs = msgs; asked = held.asked + 1 }) thinking in
                rw (goes, e, iterate)
                  (take_reply-Accounts reserved t sent (ask i msgs) (fair i msgs) g.0 g.1.1.0
                    g.1.1.1)
          ]
    ]

    pub iterations-Accounts :
        (left i : ℕ) (t : Turn B D)
        → (n : ℕ) × Accounts L O M Q t
            ((iterations L M byte_length max_tokens ended ask executor left i t).0)
            n
    unfolding iterations Accounts stop
    iterations-Accounts zero i t = (
      0,
      (λ a z. z ∙ ap pos (omega arith), (Grows-none L O l t.session, Grows-none M Q m t.aggregate)),
    )
    iterations-Accounts (suc left) i t =
        let one = iterate-Accounts i t in
        elim (Sum-cases (iterate L M byte_length max_tokens ended ask executor i t)) [
          | inl (over, e) ↦ rw (e, iterations) (rw e at one)
          | inr (t', e) ↦
              let first : (n : ℕ) × Accounts L O M Q t t' n = rw e at one in
              let rest = iterations-Accounts left (i + 1) t' in
              rw (e, iterations)
                (
                  first.0 + rest.0,
                  Accounts-trans t t'
                      (iterations L M byte_length max_tokens ended ask executor left (i + 1) t').0
                      first.0 rest.0 first.1 rest.1,
                )
        ]
