-- ===== src/Ai/Cache.antt =====
-- internal/ai/cache.go: the cache of answers, least recently used first to go.
-- `list.Element` is a record with the identity of the pointer; `items` maps keys to identities.
-- A key is the digest of the normalised request: a parameter of whoever looks it up.
pub mod Entries
pub mod Valid
pub mod Refine
pub mod Runs
pub mod Answers
mod Tests
use kube_assist_operator.Prelude.{
  ℕ, zero, suc, ◌+◌, Bool, true, false, ◌||◌, Option, none, some, List, [], ◌∷◌, String, string_eq,
  nat_eq, ◌==◌, not, ltb, leb, eqb, if◌then◌else◌, length, lookup, insert, delete,
}

-- A list element with the `cacheEntry` that it holds.
pub record Element (R : Type 0) : Type 0 where
  pub id : ℕ
  pub key : String
  pub response : R
  pub created_at : ℕ

-- `next` is the identity that the next allocation gives.
pub record Cache (R : Type 0) : Type 0 where
  pub capacity : ℕ
  pub ttl : ℕ
  pub items : List (String × ℕ)
  pub order : List (Element R)
  pub enabled : Bool
  pub next : ℕ

module _ {R : Type 0} where
  -- A capacity that is not positive is given as 0.
  unfoldable pub new_cache : ℕ → ℕ → Bool → Cache R
  new_cache capacity ttl enabled =
      if not enabled || eqb capacity 0
      then record { capacity = 0; ttl = 0; items = []; order = []; enabled = false; next = 0 }
      else record {
        capacity = capacity;
        ttl = ttl;
        items = [];
        order = [];
        enabled = enabled;
        next = 0;
      }

  -- What an identity points to.
  unfoldable pub find_elem : ℕ → List (Element R) → Option (Element R)
  find_elem i [] = none
  find_elem i (e ∷ es) = let rest = find_elem i es in if e.id == i then some e else rest

  -- `order.Remove(elem)`
  unfoldable pub drop_elem : ℕ → List (Element R) → List (Element R)
  drop_elem i [] = []
  drop_elem i (e ∷ es) = let rest = drop_elem i es in if e.id == i then rest else e ∷ rest

  -- `order.Back()`
  unfoldable pub back : List (Element R) → Option (Element R)
  back [] = none
  back (e ∷ []) = some e
  back (e ∷ f ∷ es) = back (f ∷ es)

  -- `Get` behind its guard. An identity in `items` that points nowhere gives a miss.
  unfoldable pub get_key : Cache R → ℕ → String → Cache R × Option R
  unfolding lookup delete find_elem drop_elem
  get_key c now key = elim (lookup key c.items) [
    | none ↦ (c, none)
    | some i ↦ elim (find_elem i c.order) [
      | none ↦ (c, none)
      | some e ↦
          if ltb (e.created_at + c.ttl) now
          then (record c { order = drop_elem i c.order; items = delete key c.items }, none)
          else (record c { order = e ∷ drop_elem i c.order }, some e.response)
    ]
  ]

  unfoldable pub evict : Cache R → Cache R
  unfolding back drop_elem delete
  evict c = elim (back c.order) [
    | none ↦ c
    | some e ↦ record c { order = drop_elem e.id c.order; items = delete e.key c.items }
  ]

  unfoldable pub push_front : Cache R → ℕ → String → R → Cache R
  unfolding insert
  push_front c now key r = record c {
    order = record { id = c.next; key = key; response = r; created_at = now } ∷ c.order;
    items = insert key c.next c.items;
    next = c.next + 1;
  }

  -- `Put` behind its guard.
  unfoldable pub put_key : Cache R → ℕ → String → R → Cache R
  unfolding lookup find_elem drop_elem evict push_front
  put_key c now key r = elim (lookup key c.items) [
    | some i ↦ elim (find_elem i c.order) [
      | none ↦ c
      | some e ↦ record c {
        order = record e { response = r; created_at = now } ∷ drop_elem i c.order;
      }
    ]
    | none ↦ push_front (if leb c.capacity (length c.order) then evict c else c) now key r
  ]

  -- The calls, with the key of their request; `none` is a nil cache, or a nil response.
  unfoldable pub get : Option (Cache R) → ℕ → String → Option (Cache R) × Option R
  unfolding get_key
  get none now key = (none, none)
  get (some c) now key =
      if not c.enabled
      then (some c, none)
      else (let (c', found) = get_key c now key in (some c', found))

  unfoldable pub put : Option (Cache R) → ℕ → String → Option R → Option (Cache R)
  unfolding put_key
  put none now key r = none
  put (some c) now key none = some c
  put (some c) now key (some r) = if not c.enabled then some c else some (put_key c now key r)

  unfoldable pub clear : Option (Cache R) → Option (Cache R)
  clear none = none
  clear (some c) = if not c.enabled then some c else some (record c { items = []; order = [] })

  unfoldable pub size : Option (Cache R) → ℕ
  size none = 0
  size (some c) = if not c.enabled then 0 else length c.order

-- The calls of a client, each with the clock's reading.
pub data CacheCall (R : Type 0) : Type 0 where
  fetch : ℕ → String → CacheCall R
  store : ℕ → String → Option R → CacheCall R
  wipe : CacheCall R

module _ {R : Type 0} where
  -- The cache after the calls, and what each read was answered.
  unfoldable pub run :
      Option (Cache R) → List (CacheCall R) → Option (Cache R) × List (ℕ × String × Option R)
  unfolding get put clear
  run c [] = (c, [])
  run c (fetch now k ∷ cs) =
      let (c', found) = get c now k in
      let (c'', answers) = run c' cs in (c'', (now, k, found) ∷ answers)
  run c (store now k r ∷ cs) = run (put c now k r) cs
  run c (wipe ∷ cs) = run (clear c) cs
