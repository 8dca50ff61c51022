-- ===== src/Ai/ChatBudget/Bounded.antt =====
-- What holds of the chat budget under every interleaving.
use kube_assist_operator.Prelude.{
  ℕ, ◌+◌, ◌≤◌, ◌≡◌, refl, List, [], ◌∷◌, arith, All, eqb, ltb, Bool-cases, inl, inr,
}
use kube_assist_operator.Ai.ChatBudget.{
  ChatCall, try_chat_consume, release_unused, record_usage, Thread, idle, entered, loaded,
  ChatBudget, Outcome, silent, granted, refused, released, recorded, update, tokens_of, enter,
  advance, Action, arrive, step, act, run,
}

-- The tokens that outcomes have put on the counter, and those that they have taken off it.
abbrev pub added : List Outcome → ℕ
added [] = 0
added (granted n ∷ os) = n + added os
added (recorded n ∷ os) = n + added os
added (silent ∷ os) = added os
added (refused n ∷ os) = added os
added (released n ∷ os) = added os

abbrev pub removed : List Outcome → ℕ
removed [] = 0
removed (released n ∷ os) = n + removed os
removed (granted n ∷ os) = removed os
removed (recorded n ∷ os) = removed os
removed (silent ∷ os) = removed os
removed (refused n ∷ os) = removed os

enter-used : (cb : ChatBudget) (t : ℕ) (c : ChatCall) (x : Thread) → (enter cb t c x).used ≡ cb.used
unfolding enter
enter-used cb t c idle = ground arith
enter-used cb t c (entered d) = refl
enter-used cb t c (loaded d cur) = refl

advance-accounts :
    (cb : ChatBudget) (t : ℕ) (x : Thread) (os : List Outcome)
    → let (cb', o) = advance cb t x in
      cb'.used + removed (o ∷ os) + added os ≡ cb.used + added (o ∷ os) + removed os
unfolding advance
advance-accounts cb t idle os = omega arith
advance-accounts cb t (entered (try_chat_consume n)) os = omega arith
advance-accounts cb t (entered (release_unused n)) os = omega arith
advance-accounts cb t (entered (record_usage n)) os = omega arith
advance-accounts cb t (loaded (try_chat_consume n) cur) os = ground arith
advance-accounts cb t (loaded (release_unused n) cur) os = ground arith
advance-accounts cb t (loaded (record_usage n) cur) os = omega arith

-- No update is lost: whatever the interleaving, the counter is what it was, plus all tokens that
-- were granted and recorded, less all that were released.
pub run-accounts :
    (schedule : List Action) (cb : ChatBudget)
    → let (cb', os) = run cb schedule in cb'.used + removed os ≡ cb.used + added os
unfolding run act
run-accounts [] cb = omega arith
run-accounts (arrive t c ∷ s) cb =
    omega (arith, run-accounts s (enter cb t c (cb.threads t)), enter-used cb t c (cb.threads t))
run-accounts (step t ∷ s) cb = omega (
  arith,
  run-accounts s (advance cb t (cb.threads t)).0,
  advance-accounts cb t (cb.threads t) (run (advance cb t (cb.threads t)).0 s).1,
)

-- A call, and a thread, that does not add to the counter without a test of the limit.
abbrev pub IsTested : ChatCall → Type 0
IsTested (try_chat_consume n) = Unit
IsTested (release_unused n) = Unit
IsTested (record_usage n) = ⊥

abbrev pub IsCareful : Thread → Type 0
IsCareful idle = Unit
IsCareful (entered c) = IsTested c
IsCareful (loaded c cur) = IsTested c

abbrev pub IsTestedAction : Action → Type 0
IsTestedAction (arrive t c) = IsTested c
IsTestedAction (step t) = Unit

pub record IsBounded (cb : ChatBudget) : Type 0 where
  pub within : cb.used ≤ cb.max
  pub careful : (t : ℕ) → IsCareful (cb.threads t)

update-IsCareful :
    (f : ℕ → Thread) (t : ℕ) (x : Thread)
    → ((u : ℕ) → IsCareful (f u))
    → IsCareful x
    → (u : ℕ) → IsCareful (update f t x u)
update-IsCareful f t x h hx u = elim (Bool-cases (eqb u t)) [ inl e ↦ rw e hx | inr e ↦ rw e (h u) ]

enter-IsBounded :
    (cb : ChatBudget) (t : ℕ) (c : ChatCall) (x : Thread)
    → IsTested c
    → IsBounded cb
    → IsBounded (enter cb t c x)
unfolding enter
enter-IsBounded cb t c idle p b = elim (Bool-cases (eqb (tokens_of c) 0)) [
  | inl e ↦ rw e b
  | inr e ↦ rw e (record {
    within = b.within;
    careful = update-IsCareful cb.threads t (entered c) b.careful p;
  })
]
enter-IsBounded cb t c (entered d) p b = b
enter-IsBounded cb t c (loaded d cur) p b = b

abbrev parked :
    {cb : ChatBudget}
    → IsBounded cb
    → (t : ℕ) (x : Thread) → IsCareful x
    → (u : ℕ) → IsCareful (update cb.threads t x u)
parked {cb} b t x h = update-IsCareful cb.threads t x b.careful h

advance-IsBounded :
    (cb : ChatBudget) (t : ℕ) (x : Thread)
    → IsCareful x
    → IsBounded cb
    → IsBounded (advance cb t x).0
unfolding advance
advance-IsBounded cb t idle p b = b
advance-IsBounded cb t (entered (try_chat_consume n)) p b = record {
  within = b.within;
  careful = parked b t (loaded (try_chat_consume n) cb.used) p;
}
advance-IsBounded cb t (entered (release_unused n)) p b = record {
  within = b.within;
  careful = parked b t (loaded (release_unused n) cb.used) p;
}
advance-IsBounded cb t (entered (record_usage n)) p b = absurd p
advance-IsBounded cb t (loaded (try_chat_consume n) cur) p b = record {
  within = ground (arith, b.within);
  careful = elim (Bool-cases (ltb cb.max (cur + n))) [
    | inl over ↦ rw over (parked b t idle tt)
    | inr room ↦ elim (Bool-cases (eqb cb.used cur)) [
      | inl same ↦ rw (room, same) (parked b t idle tt)
      | inr stale ↦ rw (room, stale) (parked b t (entered (try_chat_consume n)) p)
    ]
  ];
}
advance-IsBounded cb t (loaded (release_unused n) cur) p b = record {
  within = ground (arith, b.within);
  careful = elim (Bool-cases (eqb cb.used cur)) [
    | inl same ↦ rw same (parked b t idle tt)
    | inr stale ↦ rw stale (parked b t (entered (release_unused n)) p)
  ];
}
advance-IsBounded cb t (loaded (record_usage n) cur) p b = absurd p

-- As long as every call tests the limit, no interleaving takes the counter above it.
pub run-IsBounded :
    (schedule : List Action) (cb : ChatBudget)
    → All IsTestedAction schedule
    → IsBounded cb
    → IsBounded (run cb schedule).0
unfolding run act
run-IsBounded [] cb p b = b
run-IsBounded (arrive t c ∷ s) cb p b =
    run-IsBounded s (enter cb t c (cb.threads t)) p.1 (enter-IsBounded cb t c (cb.threads t) p.0 b)
run-IsBounded (step t ∷ s) cb p b =
    run-IsBounded s (advance cb t (cb.threads t)).0 p.1
      (advance-IsBounded cb t (cb.threads t) (b.careful t) b)
