-- ===== src/Ai/Agent/Turn.antt =====
-- internal/ai/agent.go: `RunTurn`. What the provider replies, what the tools give and whether the
-- context has ended at an iteration are parameters; an error of a call comes with no tokens. The two
-- budgets are behind an interface, each set or not, which Session and Aggregate fill.
use kube_assist_operator.Prelude.{
  ℕ, suc, zero, ◌+◌, ◌-◌, Bool, ◌||◌, Option, none, some, List, [], ◌∷◌, ◌++◌, ◌⊎◌, inl, inr,
  String, string_eq, ◌==◌, leb, max, if◌then◌else◌,
}
use kube_assist_operator.Prelude.Texts.{concat}
use kube_assist_operator.Prelude.Numbers.{ℤ, pos, negsuc, ◌+ℤ◌}
use kube_assist_operator.Ai.Agent.{
  ToolCall, ChatMessage, role_assistant, role_tool, text_message, estimate_message_tokens,
  maybe_compact_history,
}

-- A budget: what a turn calls of it, and the tokens that it counts.
pub record Ledger (B : Type 0) : Type 0 where
  pub try_consume : B → ℕ → Option B
  pub release_unused : B → ℕ → B
  pub record_usage : B → ℕ → B
  pub counted : B → ℕ

pub data ChatEvent : Type 0 where
  thinking : ChatEvent
  tool_call : (tool args : String) → ChatEvent
  tool_result : (tool content : String) → ChatEvent
  content_event : (content : String) (tokens : ℤ) → ChatEvent
  done_event : (tokens : ℤ) → ChatEvent
  error_event : (content : String) → ChatEvent

pub data Reply : Type 0 where
  failed : (err : String) → Reply
  replied : (content : String) (calls : List ToolCall) (tokens : ℤ) → Reply

-- Why a turn ends without an answer.
pub data TurnError : Type 0 where
  unsupported_provider : String → TurnError
  context_ended : TurnError
  session_exceeded : TurnError
  aggregate_exceeded : TurnError
  call_failed : String → TurnError
  max_iterations_reached : TurnError

abbrev pub min_chat_turn_reservation_tokens : ℕ
min_chat_turn_reservation_tokens = 500

-- `RunTurn` as it stands: the messages, `totalTokens`, the budgets, the events and the calls made.
pub record Turn (B D : Type 0) : Type 0 where
  pub msgs : List ChatMessage
  pub total : ℤ
  pub session : Option B
  pub aggregate : Option D
  pub events : List ChatEvent
  pub asked : ℕ

-- A budget that is not set has room for everything.
abbrev pub reserve_in : {B : Type 0} → Ledger B → Option B → ℕ → Option (Option B)
reserve_in L none n = some none
reserve_in L (some b) n = elim (L.try_consume b n) [ none ↦ none | some b' ↦ some (some b') ]

abbrev pub release_in : {B : Type 0} → Ledger B → Option B → ℕ → Option B
release_in L none n = none
release_in L (some b) n = some (L.release_unused b n)

-- `actualTokens`, where it is negative 0.
abbrev pub actual_tokens : ℤ → ℕ
actual_tokens (pos n) = n
actual_tokens (negsuc n) = 0

-- `settleReservations`, for one of the budgets, from the test of `actualTokens` on.
abbrev pub settle_in : {B : Type 0} → Ledger B → Option B → ℕ → ℕ → Option B
settle_in L none reserved actual = none
settle_in L (some b) reserved actual =
    if leb actual reserved
    then some (L.release_unused b (reserved - actual))
    else some (L.record_usage b (actual - reserved))

module _ {B D : Type 0} where
  abbrev pub emit : Turn B D → ChatEvent → Turn B D
  emit t e = record t { events = t.events ++ (e ∷ []) }

  -- The last two events of a turn that ends with an error.
  unfoldable pub stop : Turn B D → TurnError → String → Turn B D × Option TurnError
  stop t err content = (emit (emit t (error_event content)) (done_event t.total), some err)

module _ {B D : Type 0} (L : Ledger B) (M : Ledger D) (byte_length : String → ℕ) (max_tokens : ℕ)
    (ended : ℕ → Bool) (ask : ℕ → List ChatMessage → Reply)
    (executor : String → String → String ⊎ String) where
  -- The loop over the tool calls of a reply.
  unfoldable pub execute_calls : List ToolCall → Turn B D → Turn B D
  unfolding concat
  execute_calls [] t = t
  execute_calls (tc ∷ tcs) t =
      let result : String = elim (executor tc.tool tc.args) [
        | inl err ↦ concat ("error: " ∷ err ∷ [])
        | inr s ↦ s
      ] in
      let answered = emit (emit t (tool_call tc.tool tc.args)) (tool_result tc.tool result) in
      execute_calls tcs (record answered {
        msgs =
            answered.msgs
            ++ (record { role = role_tool; content = result; tool_call_id = tc.id; tool_calls = [] }
                ∷ []);
      })

  -- `none` when the answer stands; else the turn goes on.
  unfoldable pub take_reply : ℕ → Turn B D → Reply → (Turn B D × Option TurnError) ⊎ Turn B D
  unfolding stop execute_calls
  take_reply reserved t (failed err) =
      let settled = record t {
        session = settle_in L t.session reserved (actual_tokens (pos 0));
        aggregate = settle_in M t.aggregate reserved (actual_tokens (pos 0));
      } in
      inl (stop settled (call_failed err) "An error occurred while processing your request")
  take_reply reserved t (replied content calls tokens) =
      let settled = record t {
        session = settle_in L t.session reserved (actual_tokens tokens);
        aggregate = settle_in M t.aggregate reserved (actual_tokens tokens);
        total = t.total +ℤ tokens;
      } in
      elim calls [
        | [] ↦
            let shown =
              emit (emit settled (content_event content tokens)) (done_event settled.total) in
            inl (
              record shown { msgs = shown.msgs ++ (text_message role_assistant content ∷ []) },
              none,
            )
        | c ∷ cs ↦ inr (
            execute_calls (c ∷ cs) (record settled {
              msgs =
                  settled.msgs
                  ++ (record {
                    role = role_assistant;
                    content = content;
                    tool_call_id = "";
                    tool_calls = c ∷ cs;
                  }
                      ∷ []);
            }))
      ]

  -- The reservations of one iteration; both or none are held.
  unfoldable pub reserve_both : ℕ → Turn B D → (Turn B D × Option TurnError) ⊎ Turn B D
  unfolding stop
  reserve_both reserved t = elim (reserve_in L t.session reserved) [
    | none ↦ inl (stop t session_exceeded "Token budget exceeded. Please try again later.")
    | some session ↦ elim (reserve_in M t.aggregate reserved) [
      | none ↦ inl (
          stop (record t { session = release_in L session reserved }) aggregate_exceeded
            "Aggregate chat token budget exceeded.")
      | some aggregate ↦ inr (record t { session = session; aggregate = aggregate })
    ]
  ]

  abbrev pub reservation : List ChatMessage → ℕ
  reservation msgs =
      max (estimate_message_tokens byte_length msgs + max_tokens) min_chat_turn_reservation_tokens

  -- From the reservation to the reply of the iteration `i`.
  unfoldable pub iterate : ℕ → Turn B D → (Turn B D × Option TurnError) ⊎ Turn B D
  unfolding stop reserve_both take_reply maybe_compact_history estimate_message_tokens
  iterate i t =
      if ended i
      then inl (stop t context_ended "context cancelled")
      else elim (reserve_both (reservation t.msgs) t) [
        | inl over ↦ inl over
        | inr held ↦
            let compacted = maybe_compact_history byte_length held.msgs in
            let sent = emit (record held { msgs = compacted; asked = held.asked + 1 }) thinking in
            take_reply (reservation t.msgs) sent (ask i compacted)
      ]

  -- The loop, with the iterations left.
  unfoldable pub iterations : ℕ → ℕ → Turn B D → Turn B D × Option TurnError
  unfolding iterate stop
  iterations zero i t = stop t max_iterations_reached "max iterations reached"
  iterations (suc left) i t = elim (iterate i t) [
    | inl over ↦ over
    | inr t' ↦ iterations left (i + 1) t'
  ]

  unfoldable pub run_turn :
      String → ℕ → Option B → Option D → List ChatMessage → Turn B D × Option TurnError
  unfolding iterations
  run_turn provider max_iterations session aggregate messages =
      let start : Turn B D = record {
        msgs = messages;
        total = pos 0;
        session = session;
        aggregate = aggregate;
        events = [];
        asked = 0;
      } in
      if provider == "openai" || provider == "anthropic"
      then iterations max_iterations 0 start
      else (start, some (unsupported_provider provider))
