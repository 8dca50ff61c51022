-- ===== src/Ai/Agent/Compaction.antt =====
-- internal/ai/agent.go: a compacted history, sent to Anthropic.
use kube_assist_operator.Prelude.{
  ℕ, ◌+◌, ◌-◌, ◌*◌, ◌/◌, ◌≤◌, ◌≡◌, inl, arith, refl, Bool, false, ◌||◌, List, [], ◌∷◌, ◌++◌, String,
  string_eq, ltb, leb, length, length-append, take, drop,
}
use kube_assist_operator.Prelude.Texts.{concat}
use kube_assist_operator.Ai.Agent.{
  ChatMessage, role_user, role_tool, text_message, context_window_estimate, summarize,
  estimate_message_tokens, maybe_compact_history,
}
use kube_assist_operator.Ai.Agent.Anthropic.{build_anthropic_messages}

drop-append_all : {A : Type 0} (xs ys : List A) → drop (length xs) (xs ++ ys) ≡ ys
drop-append_all [] ys = refl
drop-append_all (x ∷ xs) ys = drop-append_all xs ys

module _ (byte_length : String → ℕ) (valid_json : String → Bool) where
  -- The history is long, and its last three messages are `m`, `m'` and `m''`.
  compacted :
      (old : List ChatMessage) (m m' m'' : ChatMessage)
      → 2 ≤ length old
      → context_window_estimate * 80 / 100
        ≤ estimate_message_tokens byte_length (old ++ (m ∷ m' ∷ m'' ∷ []))
      → maybe_compact_history byte_length (old ++ (m ∷ m' ∷ m'' ∷ []))
        ≡ text_message role_user (
            concat (
              "Previous conversation summary: "
              ∷ summarize (take (length old) (old ++ (m ∷ m' ∷ m'' ∷ [])))))
          ∷ m
          ∷ m'
          ∷ m''
          ∷ []
  unfolding maybe_compact_history
  compacted old m m' m'' long big =
      let msgs = old ++ (m ∷ m' ∷ m'' ∷ []) in
      let size : length msgs ≡ length old + 3 = length-append old (m ∷ m' ∷ m'' ∷ []) in
      let head : length msgs - 3 ≡ length old = omega (arith, size) in
      let over : (ltb (estimate_message_tokens byte_length msgs)
              (context_window_estimate * 80 / 100)
            || leb (length msgs) 4)
          ≡ false =
        ground (arith, big, size, long) in
      rw (over, head, drop-append_all old (m ∷ m' ∷ m'' ∷ []), maybe_compact_history) refl

  -- When a history of more than four messages and of at least 80 % of the context window ends in
  -- three messages of which the first is a tool's result, its compaction cannot be sent to
  -- Anthropic: building the request is refused with an error.
  pub build_anthropic_messages-maybe_compact_history :
      (old : List ChatMessage) (m m' m'' : ChatMessage)
      → m.role ≡ role_tool
      → 2 ≤ length old
      → context_window_estimate * 80 / 100
        ≤ estimate_message_tokens byte_length (old ++ (m ∷ m' ∷ m'' ∷ []))
      → build_anthropic_messages valid_json
          (maybe_compact_history byte_length (old ++ (m ∷ m' ∷ m'' ∷ [])))
        ≡ inl "unmarshal existing tool results"
  unfolding build_anthropic_messages
  build_anthropic_messages-maybe_compact_history old m m' m'' tool long big =
      rw (compacted old m m' m'' long big, tool, build_anthropic_messages) refl
