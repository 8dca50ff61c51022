-- ===== src/Ai/Cache/Runs.antt =====
-- The cache under any sequence of calls, from a new one on.
use kube_assist_operator.Prelude.{
  ℕ, ◌≤◌, ◌≡◌, refl, sym, ap, ap₂, ◌∙◌, true, false, Option, none, some, List, [], ◌∷◌, String,
  string_eq, nat_eq, arith, eqb, length, lookup,
}
use mathlib.Core.Path.{subst}
use kube_assist_operator.Ai.Cache.{
  Cache, new_cache, get_key, put_key, get, put, clear, size, CacheCall, fetch, store, wipe, run,
}
use kube_assist_operator.Ai.Cache.Entries.{view}
use kube_assist_operator.Ai.Cache.Valid.{IsValid}
use kube_assist_operator.Ai.Cache.Refine.{
  Lru, lru_get, lru_put, get_key-refines, put_key-refines, length-view,
}

module _ {R : Type 0} where
  unfoldable pub lru_run : ℕ → ℕ → Lru R → List (CacheCall R) → Lru R × List (ℕ × String × Option R)
  unfolding lru_get lru_put
  lru_run capacity ttl m [] = (m, [])
  lru_run capacity ttl m (fetch now k ∷ cs) =
      let (m', found) = lru_get ttl now k m in
      let (m'', answers) = lru_run capacity ttl m' cs in (m'', (now, k, found) ∷ answers)
  lru_run capacity ttl m (store now k none ∷ cs) = lru_run capacity ttl m cs
  lru_run capacity ttl m (store now k (some r) ∷ cs) =
      lru_run capacity ttl (lru_put capacity now k r m) cs
  lru_run capacity ttl m (wipe ∷ cs) = lru_run capacity ttl [] cs

  -- A cache that stands for a list of entries.
  record Shows (capacity ttl : ℕ) (c : Cache R) (m : Lru R) : Type 0 where
    valid : IsValid c
    on : c.enabled ≡ true
    room : c.capacity ≡ capacity
    life : c.ttl ≡ ttl
    seen : view c.order ≡ m

  fetched-Shows :
      (capacity ttl : ℕ) (c : Cache R) (m : Lru R) (now : ℕ) (k : String)
      → Shows capacity ttl c m
      → Shows capacity ttl (get_key c now k).0 (lru_get ttl now k m).0
        × ((get_key c now k).1 ≡ (lru_get ttl now k m).1)
  fetched-Shows capacity ttl c m now k s =
      let (v, (room, life, on), seen, found) = get_key-refines c now k s.valid in
      let same = ap₂ (λ t n. lru_get t now k n) s.life s.seen in
      (
        record {
          valid = v;
          on = on ∙ s.on;
          room = room ∙ s.room;
          life = life ∙ s.life;
          seen = seen ∙ ap (λ p. p.0) same;
        },
        found ∙ ap (λ p. p.1) same,
      )

  stored-Shows :
      (capacity ttl : ℕ) (c : Cache R) (m : Lru R) (now : ℕ) (k : String) (r : R)
      → Shows capacity ttl c m
      → Shows capacity ttl (put_key c now k r) (lru_put capacity now k r m)
  stored-Shows capacity ttl c m now k r s =
      let (v, (room, life, on), seen) = put_key-refines c now k r s.valid in
      record {
        valid = v;
        on = on ∙ s.on;
        room = room ∙ s.room;
        life = life ∙ s.life;
        seen = seen ∙ ap₂ (λ n l. lru_put n now k r l) s.room s.seen;
      }

  wiped-Shows :
      (capacity ttl : ℕ) (c : Cache R) (m : Lru R)
      → Shows capacity ttl c m
      → Shows capacity ttl (record c { items = []; order = [] }) []
  unfolding lookup
  wiped-Shows capacity ttl c m s =
      let v = s.valid in
      record {
        valid = record {
          agree = λ k. refl;
          distinct_ids = tt;
          distinct_keys = tt;
          allocated = tt;
          bounded = omega arith;
          positive = v.positive;
        };
        on = s.on;
        room = s.room;
        life = s.life;
        seen = refl;
      }

  -- The calls of an enabled cache pass its guards.
  get_on :
      (c : Cache R) (now : ℕ) (k : String)
      → c.enabled ≡ true
      → get (some c) now k ≡ (some (get_key c now k).0, (get_key c now k).1)
  unfolding get
  get_on c now k on = rw on refl

  put_on :
      (c : Cache R) (now : ℕ) (k : String) (r : R)
      → c.enabled ≡ true
      → put (some c) now k (some r) ≡ some (put_key c now k r)
  unfolding put
  put_on c now k r on = rw on refl

  put_nil : (c : Cache R) (now : ℕ) (k : String) → put (some c) now k none ≡ some c
  unfolding put
  put_nil c now k = refl

  clear_on :
      (c : Cache R) → c.enabled ≡ true → clear (some c) ≡ some (record c { items = []; order = [] })
  unfolding clear
  clear_on c on = rw on refl

  size-Shows :
      (capacity ttl : ℕ) (c : Cache R) (m : Lru R)
      → Shows capacity ttl c m
      → (size (some c) ≡ length m) × (size (some c) ≤ capacity)
  unfolding size
  size-Shows capacity ttl c m s =
      let v = s.valid in
      rw s.on (sym (length-view c.order) ∙ ap length s.seen, omega (arith, v.bounded, s.room))

  abbrev Agrees :
      ℕ
      → Option (Cache R) × List (ℕ × String × Option R)
      → Lru R × List (ℕ × String × Option R)
      → Type 0
  Agrees capacity out expected =
      (out.1 ≡ expected.1) × (size out.0 ≡ length expected.0) × (size out.0 ≤ capacity)

  run-Agrees :
      (capacity ttl : ℕ) (c : Cache R) (m : Lru R) (cs : List (CacheCall R))
      → Shows capacity ttl c m
      → Agrees capacity (run (some c) cs) (lru_run capacity ttl m cs)
  unfolding run lru_run
  run-Agrees capacity ttl c m [] s = let (a, b) = size-Shows capacity ttl c m s in (refl, a, b)
  run-Agrees capacity ttl c m (fetch now k ∷ cs) s =
      let (s', found) = fetched-Shows capacity ttl c m now k s in
      let (answers, same_size, small) =
        run-Agrees capacity ttl (get_key c now k).0 (lru_get ttl now k m).0 cs s' in
      rw (get_on c now k s.on) (ap₂ (λ o as_. (now, k, o) ∷ as_) found answers, same_size, small)
  run-Agrees capacity ttl c m (store now k none ∷ cs) s =
      subst (λ o. Agrees capacity (run o cs) (lru_run capacity ttl m cs)) (sym (put_nil c now k))
        (run-Agrees capacity ttl c m cs s)
  run-Agrees capacity ttl c m (store now k (some r) ∷ cs) s =
      subst (λ o. Agrees capacity (run o cs) (lru_run capacity ttl (lru_put capacity now k r m) cs))
        (sym (put_on c now k r s.on))
        (run-Agrees capacity ttl (put_key c now k r) (lru_put capacity now k r m) cs
          (stored-Shows capacity ttl c m now k r s))
  run-Agrees capacity ttl c m (wipe ∷ cs) s =
      subst (λ o. Agrees capacity (run o cs) (lru_run capacity ttl [] cs)) (sym (clear_on c s.on))
        (run-Agrees capacity ttl _ [] cs (wiped-Shows capacity ttl c m s))

  new_cache-Shows :
      (capacity ttl : ℕ) → 1 ≤ capacity → Shows capacity ttl (new_cache capacity ttl true) []
  unfolding new_cache lookup
  new_cache-Shows capacity ttl h =
      let some_room : eqb capacity 0 ≡ false = ground (arith, h) in
      rw some_room (record {
        valid = record {
          agree = λ k. refl;
          distinct_ids = tt;
          distinct_keys = tt;
          allocated = tt;
          bounded = omega arith;
          positive = h;
        };
        on = refl;
        room = refl;
        life = refl;
        seen = refl;
      })

  -- Under any sequence of calls a new enabled cache of positive capacity answers every read as the
  -- list of entries with at most that many, the least recently used one evicted, that starts
  -- empty. It always has as many entries as that list, and never more than the capacity.
  pub run-refines :
      (capacity ttl : ℕ) (cs : List (CacheCall R))
      → 1 ≤ capacity
      → let (c, answers) = run (some (new_cache capacity ttl true)) cs in
        let (m, expected) = lru_run capacity ttl [] cs in
        (answers ≡ expected) × (size c ≡ length m) × (size c ≤ capacity)
  run-refines capacity ttl cs h =
      run-Agrees capacity ttl (new_cache capacity ttl true) [] cs (new_cache-Shows capacity ttl h)
