-- ===== src/Ai/Agent/Grows.antt =====
-- internal/ai/agent.go: what a budget promises to a turn, and how its count grows.
use kube_assist_operator.Prelude.{
  ℕ, ◌+◌, ◌-◌, ◌≤◌, ◌<◌, ◌≡◌, inl, inr, arith, Bool-cases, Option-cases, Option, none, some,
  string_eq, leb,
}
use kube_assist_operator.Ai.Agent.Turn.{Ledger, reserve_in, release_in, settle_in}

-- What a budget promises of what it counts, while it is open.
pub record IsLedger {B : Type 0} (L : Ledger B) (Open : B → Type 0) : Type 0 where
  pub consumes :
      (b b' : B) (n : ℕ)
      → Open b
      → L.try_consume b n ≡ some b'
      → Open b' × (L.counted b' ≡ L.counted b + n)
  pub releases :
      (b : B) (n : ℕ)
      → Open b
      → Open (L.release_unused b n) × (L.counted (L.release_unused b n) ≡ L.counted b - n)
  pub records :
      (b : B) (n : ℕ)
      → Open b
      → Open (L.record_usage b n) × (L.counted (L.record_usage b n) ≡ L.counted b + n)

-- From an open budget to a later one, the tokens counted grow by `n`; one that is not set stays so.
unfoldable pub Grows : {B : Type 0} → Ledger B → (B → Type 0) → Option B → Option B → ℕ → Type 0
Grows L O none none n = Unit
Grows L O (some b) (some b') n = O b → O b' × (L.counted b' ≡ L.counted b + n)
Grows L O none (some b') n = ⊥
Grows L O (some b) none n = ⊥

module _ {B : Type 0} (L : Ledger B) (O : B → Type 0) (l : IsLedger L O) where
  pub Grows-none : (o : Option B) → Grows L O o o 0
  unfolding Grows
  Grows-none none = tt
  Grows-none (some b) = λ h. (h, omega arith)

  pub Grows-trans :
      (o o' o'' : Option B) (m n : ℕ)
      → Grows L O o o' m
      → Grows L O o' o'' n
      → Grows L O o o'' (m + n)
  unfolding Grows
  Grows-trans none none none m n g h = tt
  Grows-trans (some b) (some b') (some b'') m n g h = λ live.
      let (live', e) = g live in let (live'', e') = h live' in (live'', omega (arith, e, e'))
  Grows-trans none (some b') o'' m n g h = absurd g
  Grows-trans (some b) none o'' m n g h = absurd g
  Grows-trans none none (some b) m n g h = absurd h
  Grows-trans (some b) (some b') none m n g h = absurd h

  pub reserve_in-Grows : (o o' : Option B) (n : ℕ) → reserve_in L o n ≡ some o' → Grows L O o o' n
  unfolding Grows
  reserve_in-Grows none none n e = tt
  reserve_in-Grows none (some b) n e = absurd (ground (arith, e))
  reserve_in-Grows (some b) none n e = elim (Option-cases (L.try_consume b n)) [
    | inl over ↦ absurd (ground (arith, e, over))
    | inr (b', held) ↦ absurd (ground (arith, e, held))
  ]
  reserve_in-Grows (some b) (some c) n e = elim (Option-cases (L.try_consume b n)) [
    | inl over ↦ absurd (ground (arith, e, over))
    | inr (b', held) ↦
        let same : c ≡ b' = ground (arith, e, held) in rw same (λ live. l.consumes b b' n live held)
  ]

  -- A reservation, and what is used of it.
  pub settle_in-Grows :
      (o o' : Option B) (reserved actual : ℕ)
      → Grows L O o o' reserved
      → Grows L O o (settle_in L o' reserved actual) actual
  unfolding Grows
  settle_in-Grows none none reserved actual g = tt
  settle_in-Grows none (some b') reserved actual g = absurd g
  settle_in-Grows (some b) none reserved actual g = absurd g
  settle_in-Grows (some b) (some b') reserved actual g = elim (Bool-cases (leb actual reserved)) [
    | inl within ↦
        let room : actual ≤ reserved = ground (arith, within) in
        rw within (λ live.
          let (live', e) = g live in
          let (live'', e') = l.releases b' (reserved - actual) live' in
          (live'', omega (arith, e, e', room)))
    | inr above ↦
        let more : reserved < actual = ground (arith, above) in
        rw above (λ live.
          let (live', e) = g live in
          let (live'', e') = l.records b' (actual - reserved) live' in
          (live'', omega (arith, e, e', more)))
  ]

  pub release_in-Grows :
      (o o' : Option B) (n : ℕ) → Grows L O o o' n → Grows L O o (release_in L o' n) 0
  unfolding Grows
  release_in-Grows none none n g = tt
  release_in-Grows none (some b') n g = absurd g
  release_in-Grows (some b) none n g = absurd g
  release_in-Grows (some b) (some b') n g = λ live.
      let (live', e) = g live in
      let (live'', e') = l.releases b' n live' in (live'', omega (arith, e, e'))
