-- ===== src/Ai/Agent.antt =====
-- internal/ai/agent.go: the chat agent's messages, and the compaction of a long history. The length
-- of a text in bytes is a parameter.
pub mod Anthropic
pub mod Compaction
pub mod Turn
pub mod Grows
pub mod Accounts
pub mod Calls
pub mod Session
pub mod Aggregate
pub mod Spent
mod Tests
use Prim.Native.String
use kube_assist_operator.Prelude.{
  ℕ, suc, zero, ◌+◌, ◌-◌, ◌*◌, ◌/◌, Bool, true, false, ◌||◌, Option, none, some, List, [], ◌∷◌,
  ◌++◌, String, string_eq, ◌==◌, ltb, leb, if◌then◌else◌, length, take, drop,
}
use kube_assist_operator.Prelude.Texts.{concat, codes}

pub record ToolCall : Type 0 where
  pub id : String
  pub tool : String
  pub args : String

pub record ChatMessage : Type 0 where
  pub role : String
  pub content : String
  pub tool_call_id : String
  pub tool_calls : List ToolCall

abbrev pub role_user : String
role_user = "user"

abbrev pub role_assistant : String
role_assistant = "assistant"

abbrev pub role_tool : String
role_tool = "tool"

abbrev pub text_message : String → String → ChatMessage
text_message role content = record {
  role = role;
  content = content;
  tool_call_id = "";
  tool_calls = [];
}

-- `string(runes[:n])`
unfoldable pub first_runes : ℕ → String → String
first_runes zero s = ""
first_runes (suc n) String.[] = ""
first_runes (suc n) (String.◌∷◌ c s) = String.◌∷◌ c (first_runes n s)

unfoldable pub truncate : String → ℕ → String
unfolding first_runes concat
truncate s max_len =
    if leb (length (codes s)) max_len
    then s
    else concat (first_runes max_len s ∷ "...(truncated)" ∷ [])

abbrev pub context_window_estimate : ℕ
context_window_estimate = 128000

-- The part of the summary of each message.
unfoldable pub summarize : List ChatMessage → List String
unfolding truncate concat
summarize [] = []
summarize (m ∷ ms) =
    let rest = summarize ms in
    if m.content == ""
    then rest
    else concat ("[" ∷ m.role ∷ "] " ∷ truncate m.content 100 ∷ " " ∷ []) ∷ rest

module _ (byte_length : String → ℕ) where
  unfoldable pub call_size : List ToolCall → ℕ
  call_size [] = 0
  call_size (tc ∷ tcs) = byte_length tc.args + byte_length tc.tool + call_size tcs

  unfoldable pub total_size : List ChatMessage → ℕ
  unfolding call_size
  total_size [] = 0
  total_size (m ∷ ms) = byte_length m.content + call_size m.tool_calls + total_size ms

  unfoldable pub estimate_message_tokens : List ChatMessage → ℕ
  unfolding total_size
  estimate_message_tokens msgs = total_size msgs / 4

  -- The last three messages are kept behind the summary of the others.
  unfoldable pub maybe_compact_history : List ChatMessage → List ChatMessage
  unfolding estimate_message_tokens summarize concat
  maybe_compact_history msgs =
      let keep_tail : ℕ = 3 in
      let head = length msgs - keep_tail in
      if ltb (estimate_message_tokens msgs) (context_window_estimate * 80 / 100)
        || leb (length msgs) 4
      then msgs
      else text_message role_user
          (concat ("Previous conversation summary: " ∷ summarize (take head msgs)))
        ∷ drop head msgs
