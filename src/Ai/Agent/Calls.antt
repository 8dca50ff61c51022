-- ===== src/Ai/Agent/Calls.antt =====
-- internal/ai/agent.go: how many calls a turn makes, and what it has taken at its end.
use kube_assist_operator.Prelude.{
  ℕ, suc, zero, ◌+◌, ◌≤◌, ◌≡◌, ap, ◌∙◌, ◌⊎◌, inl, inr, arith, refl, Bool, ◌||◌, Bool-cases,
  Sum-cases, Option, List, [], ◌∷◌, String, string_eq, ◌==◌,
}
use kube_assist_operator.Prelude.Numbers.{pos}
use kube_assist_operator.Ai.Agent.{ToolCall, ChatMessage, maybe_compact_history}
use kube_assist_operator.Ai.Agent.Turn.{
  Ledger, thinking, Reply, failed, replied, Turn, emit, stop, execute_calls, take_reply,
  reserve_both, reservation, iterate, iterations, run_turn,
}
use kube_assist_operator.Ai.Agent.Grows.{IsLedger, Grows, Grows-none}
use kube_assist_operator.Ai.Agent.Accounts.{
  IsFair, Accounts, Reserved, turn_of, reserve_both-Accounts, iterations-Accounts,
}

module _ {B D : Type 0} (L : Ledger B) (O : B → Type 0) (M : Ledger D) (Q : D → Type 0)
    (l : IsLedger L O) (m : IsLedger M Q) where
  module _ (byte_length : String → ℕ) (max_tokens : ℕ) (ended : ℕ → Bool)
      (ask : ℕ → List ChatMessage → Reply) (executor : String → String → String ⊎ String)
      (fair : (i : ℕ) (msgs : List ChatMessage) → IsFair (ask i msgs)) where
    execute_calls-asked :
        (tcs : List ToolCall) (t : Turn B D)
        → (execute_calls L M byte_length max_tokens ended ask executor tcs t).asked ≡ t.asked
    unfolding execute_calls
    execute_calls-asked [] t = refl
    execute_calls-asked (tc ∷ tcs) t = execute_calls-asked tcs _

    take_reply-asked :
        (reserved : ℕ) (t : Turn B D) (reply : Reply)
        → (turn_of
            (take_reply L M byte_length max_tokens ended ask executor reserved t reply)).asked
          ≡ t.asked
    unfolding take_reply stop
    take_reply-asked reserved t (failed err) = refl
    take_reply-asked reserved t (replied content [] tokens) = refl
    take_reply-asked reserved t (replied content (c ∷ cs) tokens) = execute_calls-asked (c ∷ cs) _

    iterate-asked :
        (i : ℕ) (t : Turn B D)
        → (turn_of (iterate L M byte_length max_tokens ended ask executor i t)).asked ≤ t.asked + 1
    unfolding iterate Reserved stop
    iterate-asked i t = elim (Bool-cases (ended i)) [
      | inl over ↦ rw (over, iterate) (omega arith)
      | inr goes ↦
          let reserved = reservation L M byte_length max_tokens ended ask executor t.msgs in
          elim (Sum-cases (reserve_both L M byte_length max_tokens ended ask executor reserved t)) [
            | inl (over, e) ↦
                let same =
                  (reserve_both-Accounts L O M Q l m byte_length max_tokens ended ask executor fair
                    reserved t (inl over) e).1 in
                rw (goes, e, iterate) (omega (arith, same))
            | inr (held, e) ↦
                let same =
                  (reserve_both-Accounts L O M Q l m byte_length max_tokens ended ask executor fair
                    reserved t (inr held) e).1.0 in
                let msgs = maybe_compact_history byte_length held.msgs in
                let sent : Turn B D =
                  emit (record held { msgs = msgs; asked = held.asked + 1 }) thinking in
                let kept = take_reply-asked reserved sent (ask i msgs) in
                rw (goes, e, iterate) (omega (arith, same, kept))
          ]
    ]

    iterations-asked :
        (left i : ℕ) (t : Turn B D)
        → (iterations L M byte_length max_tokens ended ask executor left i t).0.asked
          ≤ t.asked + left
    unfolding iterations stop
    iterations-asked zero i t = omega arith
    iterations-asked (suc left) i t =
        let one = iterate-asked i t in
        elim (Sum-cases (iterate L M byte_length max_tokens ended ask executor i t)) [
          | inl (over, e) ↦
              let last : over.0.asked ≤ t.asked + 1 = rw e at one in
              rw (e, iterations) (omega (arith, last))
          | inr (t', e) ↦
              let first : t'.asked ≤ t.asked + 1 = rw e at one in
              let rest = iterations-asked left (i + 1) t' in
              rw (e, iterations) (omega (arith, first, rest))
        ]

    -- The budgets that are set grow by the tokens that the turn returns, if they are open; and the
    -- provider is called at most as many times as there are iterations.
    pub run_turn-Grows :
        (provider : String) (max_iterations : ℕ) (session : Option B) (aggregate : Option D)
        (messages : List ChatMessage)
        → let turn =
            (run_turn L M byte_length max_tokens ended ask executor provider max_iterations session
              aggregate messages).0 in
          (n : ℕ) × (turn.total ≡ pos n)
          × Grows L O session turn.session n
          × Grows M Q aggregate turn.aggregate n
          × (turn.asked ≤ max_iterations)
    unfolding run_turn Accounts
    run_turn-Grows provider max_iterations session aggregate messages =
        let start : Turn B D = record {
          msgs = messages;
          total = pos 0;
          session = session;
          aggregate = aggregate;
          events = [];
          asked = 0;
        } in
        elim (Bool-cases (provider == "openai" || provider == "anthropic")) [
          | inr unknown ↦
              rw (unknown, run_turn)
                (0, refl, Grows-none L O l session, Grows-none M Q m aggregate, omega arith)
          | inl known ↦
              let spent =
                iterations-Accounts L O M Q l m byte_length max_tokens ended ask executor fair
                  max_iterations 0 start in
              let asked = iterations-asked max_iterations 0 start in
              rw (known, run_turn)
                (
                  spent.0,
                  spent.1.0 0 refl ∙ ap pos (omega arith),
                  spent.1.1.0,
                  spent.1.1.1,
                  omega (arith, asked),
                )
        ]
