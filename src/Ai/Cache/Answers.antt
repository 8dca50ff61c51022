-- ===== src/Ai/Cache/Answers.antt =====
-- What a read is answered: only what was stored under its key, and is not too old.
use kube_assist_operator.Prelude.{
  ℕ, ◌+◌, ◌≤◌, ◌≡◌, sym, true, Option, none, some, List, [], ◌∷◌, String, string_eq, nat_eq, ◌==◌,
  arith, ltb, leb, length, lookup, delete, All, Bool-cases, Option-cases, inl, inr,
}
use text.Mathlib.TextEquality.{eq_iff}
use kube_assist_operator.Ai.Cache.{new_cache, CacheCall, fetch, store, wipe, run}
use kube_assist_operator.Ai.Cache.Entries.{drop_last}
use kube_assist_operator.Ai.Cache.Refine.{
  Lru, lru_get, lru_put, lru_get-miss, lru_get-hit, lru_put-miss, lru_put-hit,
}
use kube_assist_operator.Ai.Cache.Runs.{lru_run, run-refines}

module _ {R : Type 0} (Q : String → R → ℕ → Type 0) where
  -- What is stored satisfies `Q`.
  abbrev pub Stores : CacheCall R → Type 0
  Stores (store now k (some r)) = Q k r now
  Stores (store now k none) = Unit
  Stores (fetch now k) = Unit
  Stores wipe = Unit

  -- An answer satisfies `Q` for the key asked, at a time within the lifetime.
  abbrev pub IsSound : ℕ → ℕ × String × Option R → Type 0
  IsSound ttl (now, k, none) = Unit
  IsSound ttl (now, k, some r) = (at : ℕ) × Q k r at × (now ≤ at + ttl)

  abbrev Holds : Lru R → Type 0
  Holds = All (λ (k, (r, at)). Q k r at)

  delete-Holds : (k : String) (m : Lru R) → Holds m → Holds (delete k m)
  unfolding delete
  delete-Holds k [] h = tt
  delete-Holds k ((j, (r, at)) ∷ m) h = elim (Bool-cases (j == k)) [
    | inl here ↦ rw here (delete-Holds k m h.1)
    | inr there ↦ rw there (h.0, delete-Holds k m h.1)
  ]

  drop_last-Holds : (m : Lru R) → Holds m → Holds (drop_last m)
  drop_last-Holds [] h = tt
  drop_last-Holds (p ∷ []) h = tt
  drop_last-Holds (p ∷ q ∷ m) h = (h.0, drop_last-Holds (q ∷ m) h.1)

  lookup-Holds :
      (k : String) (r : R) (at : ℕ) (m : Lru R) → Holds m → lookup k m ≡ some (r, at) → Q k r at
  unfolding lookup
  lookup-Holds k r at [] h found = absurd (ground arith)
  lookup-Holds k r at ((j, (r', at')) ∷ m) h found = elim (Bool-cases (j == k)) [
    | inl here ↦
        let key : j ≡ k = (eq_iff j k).0 here in
        let response : r' ≡ r = ground (arith, found, here) in
        let time : at' ≡ at = ground (arith, found, here) in
        rw (sym key, sym response, sym time) h.0
    | inr there ↦ lookup-Holds k r at m h.1 (ground (arith, found, there))
  ]

  lru_get-Holds :
      (ttl now : ℕ) (k : String) (m : Lru R)
      → Holds m
      → Holds (lru_get ttl now k m).0 × IsSound ttl (now, k, (lru_get ttl now k m).1)
  lru_get-Holds ttl now k m h = elim (Option-cases (lookup k m)) [
    | inl absent ↦ rw (lru_get-miss ttl now k m absent) (h, tt)
    | inr ((r, at), found) ↦
        let q = lookup-Holds k r at m h found in
        rw (lru_get-hit ttl now k m r at found) (elim (Bool-cases (ltb (at + ttl) now)) [
          | inl over ↦ rw over (delete-Holds k m h, tt)
          | inr live ↦ rw live ((q, delete-Holds k m h), (at, q, ground (arith, live)))
        ])
  ]

  lru_put-Holds :
      (capacity now : ℕ) (k : String) (r : R) (m : Lru R)
      → Q k r now
      → Holds m
      → Holds (lru_put capacity now k r m)
  lru_put-Holds capacity now k r m q h = elim (Option-cases (lookup k m)) [
    | inl absent ↦ rw (lru_put-miss capacity now k r m absent) (
      q,
      elim (Bool-cases (leb capacity (length m))) [
        | inl full ↦ rw full (drop_last-Holds m h)
        | inr room ↦ rw room h
      ],
    )
    | inr (old, found) ↦ rw (lru_put-hit capacity now k r m old found) (q, delete-Holds k m h)
  ]

  lru_run-IsSound :
      (capacity ttl : ℕ) (m : Lru R) (cs : List (CacheCall R))
      → Holds m
      → All Stores cs
      → All (IsSound ttl) (lru_run capacity ttl m cs).1
  unfolding lru_run
  lru_run-IsSound capacity ttl m [] h hs = tt
  lru_run-IsSound capacity ttl m (fetch now k ∷ cs) h hs =
      let (h', sound) = lru_get-Holds ttl now k m h in
      (sound, lru_run-IsSound capacity ttl (lru_get ttl now k m).0 cs h' hs.1)
  lru_run-IsSound capacity ttl m (store now k none ∷ cs) h hs =
      lru_run-IsSound capacity ttl m cs h hs.1
  lru_run-IsSound capacity ttl m (store now k (some r) ∷ cs) h hs =
      lru_run-IsSound capacity ttl (lru_put capacity now k r m) cs
        (lru_put-Holds capacity now k r m hs.0 h) hs.1
  lru_run-IsSound capacity ttl m (wipe ∷ cs) h hs = lru_run-IsSound capacity ttl [] cs tt hs.1

  -- Of a new enabled cache of positive capacity: when everything stored satisfies a predicate of
  -- the key, the response and the time of storing, then every response that a read gives satisfies
  -- it for the key read and a time from which at most the lifetime has passed.
  pub run-IsSound :
      (capacity ttl : ℕ) (cs : List (CacheCall R))
      → 1 ≤ capacity
      → All Stores cs
      → All (IsSound ttl) (run (some (new_cache capacity ttl true)) cs).1
  run-IsSound capacity ttl cs h hs =
      let (same, sizes, small) = run-refines capacity ttl cs h in
      rw same (lru_run-IsSound capacity ttl [] cs tt hs)
