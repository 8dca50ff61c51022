-- ===== src/Ai/Agent/Anthropic.antt =====
-- internal/ai/agent.go: `buildAnthropicMessages`. JSON is kept as the value that it encodes: a text, or a
-- list of blocks. Decoding a text as a list of blocks is an error; `valid_json` says whether the
-- library encodes the raw arguments of a tool call. The library's part of an error is left out.
use kube_assist_operator.Prelude.{
  Bool, true, false, List, [], ◌∷◌, ◌++◌, ◌⊎◌, inl, inr, String, string_eq, ◌==◌, if◌then◌else◌,
}
use kube_assist_operator.Ai.Agent.{ToolCall, ChatMessage, role_user, role_assistant, role_tool}

pub data Block : Type 0 where
  text_block : (text : String) → Block
  tool_use_block : (id name input : String) → Block
  tool_result_block : (tool_use_id content : String) → Block

pub data Content : Type 0 where
  text : String → Content
  blocks : List Block → Content

pub record AnthropicChatMessage : Type 0 where
  pub role : String
  pub content : Content

abbrev pub tool_use : ToolCall → Block
tool_use tc = tool_use_block tc.id tc.tool tc.args

abbrev pub tool_uses : List ToolCall → List Block
tool_uses [] = []
tool_uses (tc ∷ tcs) = tool_use tc ∷ tool_uses tcs

unfoldable pub all_valid : (String → Bool) → List ToolCall → Bool
all_valid valid_json [] = true
all_valid valid_json (tc ∷ tcs) = if valid_json tc.args then all_valid valid_json tcs else false

abbrev pub assistant_blocks : ChatMessage → List Block
assistant_blocks m =
    (if m.content == "" then [] else text_block m.content ∷ []) ++ tool_uses m.tool_calls

abbrev pub result_block : ChatMessage → Block
result_block m = tool_result_block m.tool_call_id m.content

-- A tool result goes into the last message, if that is the user's. The messages so far are newest
-- first.
unfoldable pub add_tool_result :
    ChatMessage → List AnthropicChatMessage → String ⊎ List AnthropicChatMessage
add_tool_result m [] =
    inr (record { role = role_user; content = blocks (result_block m ∷ []) } ∷ [])
add_tool_result m (last ∷ before) =
    if last.role == role_user
    then elim (last.content) [
      | text s ↦ inl "unmarshal existing tool results"
      | blocks existing ↦ inr (
          record { role = role_user; content = blocks (existing ++ (result_block m ∷ [])) }
          ∷ before)
    ]
    else inr (record { role = role_user; content = blocks (result_block m ∷ []) } ∷ last ∷ before)

unfoldable pub add_message :
    (String → Bool) → ChatMessage → List AnthropicChatMessage → String ⊎ List AnthropicChatMessage
unfolding all_valid add_tool_result
add_message valid_json m result =
    if m.role == role_user
    then inr (record { role = role_user; content = text m.content } ∷ result)
    else (if m.role == role_assistant
        then (if all_valid valid_json m.tool_calls
            then inr
                (record { role = role_assistant; content = blocks (assistant_blocks m) } ∷ result)
            else inl "marshal assistant blocks")
        else (if m.role == role_tool then add_tool_result m result else inr result))

unfoldable pub add_messages :
    (String → Bool)
    → List ChatMessage
    → List AnthropicChatMessage
    → String ⊎ List AnthropicChatMessage
unfolding add_message
add_messages valid_json [] result = inr result
add_messages valid_json (m ∷ ms) result = elim (add_message valid_json m result) [
  | inl err ↦ inl err
  | inr result' ↦ add_messages valid_json ms result'
]

abbrev pub reverse_onto : {A : Type 0} → List A → List A → List A
reverse_onto [] ys = ys
reverse_onto (x ∷ xs) ys = reverse_onto xs (x ∷ ys)

unfoldable pub build_anthropic_messages :
    (String → Bool) → List ChatMessage → String ⊎ List AnthropicChatMessage
unfolding add_messages
build_anthropic_messages valid_json msgs = elim (add_messages valid_json msgs []) [
  | inl err ↦ inl err
  | inr result ↦ inr (reverse_onto result [])
]
