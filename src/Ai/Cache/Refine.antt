-- ===== src/Ai/Cache/Refine.antt =====
-- The cache as a list of keys with their responses and times, most recently used first.
use kube_assist_operator.Prelude.{
  ℕ, suc, ◌+◌, ◌≡◌, refl, sym, ap, ◌∙◌, Option, none, some, List, [], ◌∷◌, String, string_eq,
  nat_eq, if◌then◌else◌, arith, ltb, leb, length, lookup, delete, Bool-cases, Option-cases, inl,
  inr,
}
use kube_assist_operator.Ai.Cache.{
  Element, Cache, get_key, put_key, find_elem, drop_elem, evict, push_front,
}
use kube_assist_operator.Ai.Cache.Entries.{
  view, drop_last, find_elem-index, lookup-view-none, drop_elem_assoc,
}
use kube_assist_operator.Ai.Cache.Valid.{
  IsValid, SameSettings, removed-IsValid, moved-IsValid, pushed-IsValid, evicted-IsValid,
}

-- The abstract cache: the response and its time under each key, most recently used first.
abbrev pub Lru : Type 0 → Type 0
Lru R = List (String × (R × ℕ))

module _ {R : Type 0} where
  -- A read moves a live entry to the front and drops one whose time is over.
  unfoldable pub lru_get : ℕ → ℕ → String → Lru R → Lru R × Option R
  unfolding lookup delete
  lru_get ttl now k m = elim (lookup k m) [
    | none ↦ (m, none)
    | some (r, at) ↦
        if ltb (at + ttl) now then (delete k m, none) else ((k, (r, at)) ∷ delete k m, some r)
  ]

  -- A write puts its entry in front; a new key takes the place of the last one of a full cache.
  unfoldable pub lru_put : ℕ → ℕ → String → R → Lru R → Lru R
  unfolding lookup delete
  lru_put capacity now k r m = elim (lookup k m) [
    | some old ↦ (k, (r, now)) ∷ delete k m
    | none ↦ (k, (r, now)) ∷ (if leb capacity (length m) then drop_last m else m)
  ]

  get_key-miss :
      (c : Cache R) (now : ℕ) (k : String) → lookup k c.items ≡ none → get_key c now k ≡ (c, none)
  unfolding get_key
  get_key-miss c now k h = rw (h, get_key) refl

  get_key-hit :
      (c : Cache R) (now : ℕ) (k : String) (i : ℕ) (e : Element R)
      → lookup k c.items ≡ some i
      → find_elem i c.order ≡ some e
      → get_key c now k ≡ (
          if ltb (e.created_at + c.ttl) now
          then (record c { order = drop_elem i c.order; items = delete k c.items }, none)
          else (record c { order = e ∷ drop_elem i c.order }, some e.response))
  unfolding get_key
  get_key-hit c now k i e h at = rw (h, at, get_key) refl

  pub lru_get-miss :
      (ttl now : ℕ) (k : String) (m : Lru R) → lookup k m ≡ none → lru_get ttl now k m ≡ (m, none)
  unfolding lru_get
  lru_get-miss ttl now k m h = rw (h, lru_get) refl

  pub lru_get-hit :
      (ttl now : ℕ) (k : String) (m : Lru R) (r : R) (at : ℕ)
      → lookup k m ≡ some (r, at)
      → lru_get ttl now k m
        ≡ (if ltb (at + ttl) now then (delete k m, none) else ((k, (r, at)) ∷ delete k m, some r))
  unfolding lru_get
  lru_get-hit ttl now k m r at h = rw (h, lru_get) refl

  -- A read of a valid cache gives what the read of its list of entries gives, and leaves a valid
  -- cache of the list that it leaves.
  pub get_key-refines :
      (c : Cache R) (now : ℕ) (k : String)
      → IsValid c
      → let (c', found) = get_key c now k in
        let (m, answer) = lru_get c.ttl now k (view c.order) in
        IsValid c' × SameSettings c c' × (view c'.order ≡ m) × (found ≡ answer)
  get_key-refines c now k v = elim (Option-cases (lookup k c.items)) [
    | inl absent ↦
        let missing = lookup-view-none k c.order (sym (v.agree k) ∙ absent) in
        rw (get_key-miss c now k absent)
          (rw (lru_get-miss c.ttl now k (view c.order) missing) (v, (refl, refl, refl), refl, refl))
    | inr (i, at) ↦
        let here = sym (v.agree k) ∙ at in
        let (e, points, key, id, seen) = find_elem-index k i c.order v.distinct_ids here in
        rw (get_key-hit c now k i e at points) (
          rw (lru_get-hit c.ttl now k (view c.order) e.response e.created_at seen)
            (elim (Bool-cases (ltb (e.created_at + c.ttl) now)) [
              | inl over ↦ rw over (
                removed-IsValid c k i v at,
                (refl, refl, refl),
                drop_elem_assoc k i _ c.order v.distinct_ids v.distinct_keys here,
                refl,
              )
              | inr live ↦
                  let (v', same) = moved-IsValid c k i e v at key id in
                  rw live (v', (refl, refl, refl), same, refl)
            ]))
  ]

  put_key-miss :
      (c : Cache R) (now : ℕ) (k : String) (r : R)
      → lookup k c.items ≡ none
      → put_key c now k r
        ≡ push_front (if leb c.capacity (length c.order) then evict c else c) now k r
  unfolding put_key
  put_key-miss c now k r h = rw (h, put_key) refl

  put_key-hit :
      (c : Cache R) (now : ℕ) (k : String) (r : R) (i : ℕ) (e : Element R)
      → lookup k c.items ≡ some i
      → find_elem i c.order ≡ some e
      → put_key c now k r
        ≡ record c { order = record e { response = r; created_at = now } ∷ drop_elem i c.order }
  unfolding put_key
  put_key-hit c now k r i e h at = rw (h, at, put_key) refl

  pub lru_put-miss :
      (capacity now : ℕ) (k : String) (r : R) (m : Lru R)
      → lookup k m ≡ none
      → lru_put capacity now k r m
        ≡ (k, (r, now)) ∷ (if leb capacity (length m) then drop_last m else m)
  unfolding lru_put
  lru_put-miss capacity now k r m h = rw (h, lru_put) refl

  pub lru_put-hit :
      (capacity now : ℕ) (k : String) (r : R) (m : Lru R) (old : R × ℕ)
      → lookup k m ≡ some old
      → lru_put capacity now k r m ≡ (k, (r, now)) ∷ delete k m
  unfolding lru_put
  lru_put-hit capacity now k r m old h = rw (h, lru_put) refl

  pub length-view : (es : List (Element R)) → length (view es) ≡ length es
  length-view [] = refl
  length-view (e ∷ es) = ap suc (length-view es)

  -- A write to a valid cache leaves a valid cache of the list that the write to its list of
  -- entries leaves.
  pub put_key-refines :
      (c : Cache R) (now : ℕ) (k : String) (r : R)
      → IsValid c
      → IsValid (put_key c now k r)
        × SameSettings c (put_key c now k r)
        × (view (put_key c now k r).order ≡ lru_put c.capacity now k r (view c.order))
  unfolding push_front
  put_key-refines c now k r v = elim (Option-cases (lookup k c.items)) [
    | inl absent ↦
        let missing = lookup-view-none k c.order (sym (v.agree k) ∙ absent) in
        rw
          (
            put_key-miss c now k r absent,
            lru_put-miss c.capacity now k r (view c.order) missing,
            length-view c.order,
          )
          (elim (Bool-cases (leb c.capacity (length c.order))) [
            | inl full ↦
                let (v', settings, room, same, still) =
                  evicted-IsValid c v (ground (arith, full)) in
                rw full (
                  pushed-IsValid (evict c) now k r v' (still k absent)
                      (omega (arith, room, settings.0)),
                  settings,
                  ap (λ m. (k, (r, now)) ∷ m) same,
                )
            | inr room ↦
                rw room (
                  pushed-IsValid c now k r v absent (ground (arith, room)),
                  (refl, refl, refl),
                  refl,
                )
          ])
    | inr (i, at) ↦
        let here = sym (v.agree k) ∙ at in
        let (e, points, key, id, seen) = find_elem-index k i c.order v.distinct_ids here in
        let new = record e { response = r; created_at = now } in
        let (v', same) = moved-IsValid c k i new v at key id in
        rw
          (
            put_key-hit c now k r i e at points,
            lru_put-hit c.capacity now k r (view c.order) _ seen,
          )
          (v', (refl, refl, refl), same)
  ]
