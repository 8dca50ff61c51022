-- ===== src/Ai/ChatBudget.antt =====
-- internal/ai/budget.go, `ChatBudget`: the aggregate token budget of all chat sessions, a counter
-- that concurrent calls change by load and compare-and-swap.
-- A schedule gives the calls as they arrive and, one entry for each, the atomic actions as the
-- threads perform them, so that every interleaving is a schedule. A budget that is nil allows
-- everything and is not modelled; a call with no tokens returns at once.
pub mod Bounded
mod Tests
use kube_assist_operator.Prelude.{
  ℕ, ◌+◌, ◌-◌, Bool, true, false, Option, none, some, List, [], ◌∷◌, leb, ltb, eqb, if◌then◌else◌,
  min,
}

pub data ChatCall : Type 0 where
  try_chat_consume : ℕ → ChatCall
  release_unused : ℕ → ChatCall
  record_usage : ℕ → ChatCall

-- Where a thread stands: about to load for its call, or holding what it loaded.
pub data Thread : Type 0 where
  idle : Thread
  entered : ChatCall → Thread
  loaded : ChatCall → ℕ → Thread

pub record ChatBudget : Type 0 where
  pub used : ℕ
  pub max : ℕ
  pub threads : ℕ → Thread

-- What an atomic action completes, with the tokens that it moved.
pub data Outcome : Type 0 where
  silent : Outcome
  granted : ℕ → Outcome
  refused : ℕ → Outcome
  released : ℕ → Outcome
  recorded : ℕ → Outcome

-- `NewChatBudget`
unfoldable pub new_chat_budget : ℕ → Option ChatBudget
new_chat_budget max_tokens =
    if eqb max_tokens 0
    then none
    else some (record { used = 0; max = max_tokens; threads = λ _. idle })

abbrev pub update : (ℕ → Thread) → ℕ → Thread → ℕ → Thread
update f t x = λ u. if eqb u t then x else f u

-- A call starts on an idle thread; one that moves no tokens returns at once.
abbrev pub tokens_of : ChatCall → ℕ
tokens_of (try_chat_consume n) = n
tokens_of (release_unused n) = n
tokens_of (record_usage n) = n

unfoldable pub enter : ChatBudget → ℕ → ChatCall → Thread → ChatBudget
enter cb t c idle =
    if eqb (tokens_of c) 0 then cb else record cb { threads = update cb.threads t (entered c) }
enter cb t c other = cb

abbrev pub park : ChatBudget → ℕ → Thread → ChatBudget
park cb t x = record cb { threads = update cb.threads t x }

-- The next atomic action of a thread. The compare-and-swap of a stale value fails, and the loop
-- begins again; the test of the limit is on the value that was loaded.
unfoldable pub advance : ChatBudget → ℕ → Thread → ChatBudget × Outcome
advance cb t idle = (cb, silent)
advance cb t (entered (record_usage n)) =
    (record (park cb t idle) { used = cb.used + n }, recorded n)
advance cb t (entered (try_chat_consume n)) =
    (park cb t (loaded (try_chat_consume n) cb.used), silent)
advance cb t (entered (release_unused n)) = (park cb t (loaded (release_unused n) cb.used), silent)
advance cb t (loaded (try_chat_consume n) cur) =
    if ltb cb.max (cur + n)
    then (park cb t idle, refused n)
    else (if eqb cb.used cur
        then (record (park cb t idle) { used = cur + n }, granted n)
        else (park cb t (entered (try_chat_consume n)), silent))
advance cb t (loaded (release_unused n) cur) =
    if eqb cb.used cur
    then (record (park cb t idle) { used = cur - n }, released (min n cur))
    else (park cb t (entered (release_unused n)), silent)
advance cb t (loaded (record_usage n) cur) = (cb, silent)

pub data Action : Type 0 where
  arrive : ℕ → ChatCall → Action
  step : ℕ → Action

unfoldable pub act : ChatBudget → Action → ChatBudget × Outcome
unfolding enter advance
act cb (arrive t c) = (enter cb t c (cb.threads t), silent)
act cb (step t) = advance cb t (cb.threads t)

unfoldable pub run : ChatBudget → List Action → ChatBudget × List Outcome
run cb [] = (cb, [])
run cb (a ∷ as_) = let (cb', o) = act cb a in let (cb'', os) = run cb' as_ in (cb'', o ∷ os)
