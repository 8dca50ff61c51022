-- ===== src/Ai/Agent/Tests.antt =====
-- A turn with one round of tool calls, and a history that ends in three tool results.
use kube_assist_operator.Prelude.{
  ℕ, ◌≤◌, ◌≡◌, ◌⊎◌, inl, inr, refl, arith, true, false, Option, none, some, List, [], ◌∷◌, ◌++◌,
  String, string_eq, eqb, Bool-cases, if◌then◌else◌,
}
use kube_assist_operator.Prelude.Texts.{concat}
use kube_assist_operator.Ai.ChatBudget.{ChatBudget, idle}
use kube_assist_operator.Ai.Agent.{
  ChatMessage, role_tool, text_message, maybe_compact_history, estimate_message_tokens,
}
use kube_assist_operator.Ai.Agent.Anthropic.{build_anthropic_messages}
use kube_assist_operator.Ai.Agent.Compaction.{build_anthropic_messages-maybe_compact_history}
use kube_assist_operator.Ai.Agent.Turn.{
  Reply, replied, thinking, tool_call, tool_result, content_event, done_event, Turn, TurnError,
  run_turn,
}
use kube_assist_operator.Prelude.Numbers.{pos, negsuc}
use kube_assist_operator.Ai.Budget.{Budget}
use kube_assist_operator.Ai.Agent.Accounts.{IsFair}
use kube_assist_operator.Ai.Agent.Session.{session_ledger}
use kube_assist_operator.Ai.Agent.Aggregate.{aggregate_ledger}
use kube_assist_operator.Ai.Agent.Spent.{Spends, at_start, run_turn-Spends}

abbrev budget : ℕ → ChatBudget
budget used = record { used = used; max = 10000; threads = λ t. idle }

abbrev bytes : String → ℕ
bytes s = 100000

abbrev short : String → ℕ
short s = 40

abbrev ask : ℕ → List ChatMessage → Reply
ask i msgs =
    if eqb i 0
    then replied "" (record { id = "1"; tool = "get_issues"; args = "{}" } ∷ []) (pos 700)
    else replied "All is well." [] (pos 50)

abbrev executor : String → String → String ⊎ String
executor tool args = inr "[]"

abbrev session : Budget
session = record {
  windows = record { name = "session"; duration = 100; limit = 9000 } ∷ [];
  usage = record { tokens = 20; started_at = 5 } ∷ [];
}

abbrev clock : ℕ → ℕ
clock k = 9

abbrev turn_of : (ℕ → List ChatMessage → Reply) → Turn (Budget × ℕ) ChatBudget × Option TurnError
turn_of replies =
    run_turn (session_ledger clock 0) aggregate_ledger short 100 (λ i. false) replies executor
      "openai" 5 (at_start (some session)) (some (budget 300))
      (text_message "user" "How is it?" ∷ [])

abbrev turn : Turn (Budget × ℕ) ChatBudget × Option TurnError
turn = turn_of ask

one_turn :
    (turn.0.total ≡ pos 750)
    × ((turn.0.asked ≡ 2)
        × ((turn.1 ≡ none)
            × (turn.0.events
                ≡ thinking
                  ∷ tool_call "get_issues" "{}"
                  ∷ tool_result "get_issues" "[]"
                  ∷ thinking
                  ∷ content_event "All is well." (pos 50)
                  ∷ done_event (pos 750)
                  ∷ [])))
unfolding run_turn maybe_compact_history aggregate_ledger session_ledger concat
one_turn = (refl, (refl, (refl, refl)))

-- A negative use lowers the total, and the budgets take nothing for it.
negative_use :
    let negative = (turn_of (λ i msgs. replied "" [] (negsuc 9))).0 in
    (negative.total ≡ negsuc 9) × Spends aggregate_ledger (some (budget 300)) negative.aggregate 0
unfolding run_turn maybe_compact_history aggregate_ledger session_ledger
negative_use = (refl, refl)

ask-IsFair : (i : ℕ) (msgs : List ChatMessage) → IsFair (ask i msgs)
ask-IsFair i msgs = elim (Bool-cases (eqb i 0)) [ inl e ↦ rw e tt | inr e ↦ rw e tt ]

run_turn-Spends_example :
    (n : ℕ) × (turn.0.total ≡ pos n)
    × Spends (session_ledger clock 0) (at_start (some session)) turn.0.session n
    × Spends aggregate_ledger (some (budget 300)) turn.0.aggregate n
    × (turn.0.asked ≤ 5)
run_turn-Spends_example =
    run_turn-Spends short 100 (λ i. false) ask executor "openai" 5 clock 0 (some session)
      (some (budget 300)) (text_message "user" "How is it?" ∷ []) ask-IsFair
      (refl, λ k. omega arith)

abbrev result_message : String → ChatMessage
result_message id = record { role = role_tool; content = "[]"; tool_call_id = id; tool_calls = [] }

abbrev old : List ChatMessage
old = text_message "user" "What broke?" ∷ text_message "assistant" "" ∷ []

build_anthropic_messages-maybe_compact_history_example :
    build_anthropic_messages
      (λ s. true)
      (maybe_compact_history bytes
        (old ++ (result_message "1" ∷ result_message "2" ∷ result_message "3" ∷ [])))
    ≡ inl "unmarshal existing tool results"
unfolding estimate_message_tokens
build_anthropic_messages-maybe_compact_history_example =
    build_anthropic_messages-maybe_compact_history bytes (λ s. true) old (result_message "1")
      (result_message "2") (result_message "3") refl (omega arith) (omega arith)
