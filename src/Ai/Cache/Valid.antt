-- ===== src/Ai/Cache/Valid.antt =====
-- The invariant of an enabled cache: the map and the list hold the same entries.
use kube_assist_operator.Prelude.{
  ℕ, ◌+◌, ◌≤◌, ◌<◌, ◌≡◌, refl, sym, ap, ap₂, ◌∙◌, false, none, some, List, [], ◌∷◌, String,
  string_eq, nat_eq, ◌==◌, if◌then◌else◌, arith, length, lookup, delete, lookup-insert,
  lookup-delete, contains, Distinct, All, All-impl, eqb_iff,
}
use text.Mathlib.TextEquality.{eq_iff}
use kube_assist_operator.Ai.Cache.{Element, Cache, drop_elem, back, evict, push_front}
use kube_assist_operator.Ai.Cache.Entries.{
  ids, keys, index, view, drop_last, drop_elem_assoc, contains-drop_elem, drop_elem-Distinct,
  drop_elem-All, drop_elem-lt, lookup-index-none, back-last, map-drop_last,
}

-- The map finds the element that the list has under a key; no identity and no key stands in the
-- list twice, the list is within the capacity, and no element has an identity not allocated yet.
pub record IsValid {R : Type 0} (c : Cache R) : Type 0 where
  pub agree : (k : String) → lookup k c.items ≡ lookup k (index c.order)
  pub distinct_ids : Distinct (ids c.order)
  pub distinct_keys : Distinct (keys c.order)
  pub allocated : All (λ e. e.id < c.next) c.order
  pub bounded : length c.order ≤ c.capacity
  pub positive : 1 ≤ c.capacity

module _ {R : Type 0} where
  index-bound :
      (n : ℕ) (k : String) (i : ℕ) (es : List (Element R))
      → All (λ e. e.id < n) es
      → lookup k (index es) ≡ some i
      → i < n
  unfolding lookup
  index-bound n k i [] h at = ground arith
  index-bound n k i (e ∷ es) h at =
      let (he, hes) = h in ground (arith, he, index-bound n k i es hes, at)

  unallocated :
      (n : ℕ) (es : List (Element R)) → All (λ e. e.id < n) es → contains n (ids es) ≡ false
  unfolding contains
  unallocated n [] h = refl
  unallocated n (e ∷ es) h =
      let (he, hes) = h in ground (arith, he, unallocated n es hes, eqb_iff e.id n)

  -- An element and its key leave together.
  pub removed-IsValid :
      (c : Cache R) (k : String) (i : ℕ)
      → IsValid c
      → lookup k c.items ≡ some i
      → IsValid (record c { order = drop_elem i c.order; items = delete k c.items })
  removed-IsValid c k i v at =
      let here = sym (v.agree k) ∙ at in
      let (ds, ds') = drop_elem-Distinct i c.order v.distinct_ids v.distinct_keys in
      let assoc = drop_elem_assoc k i (λ e. e.id) c.order v.distinct_ids v.distinct_keys here in
      record {
        agree = λ j.
            lookup-delete k j c.items
            ∙ ap (λ o. if k == j then none else o) (v.agree j)
            ∙ sym (lookup-delete k j (index c.order))
            ∙ ap (lookup j) (sym assoc);
        distinct_ids = ds;
        distinct_keys = ds';
        allocated = drop_elem-All (λ e. e.id < c.next) i c.order v.allocated;
        bounded = omega (arith, v.bounded, drop_elem-lt k i c.order here);
        positive = v.positive;
      }

  -- An element comes to the front, with any response and time.
  front-IsValid :
      (c : Cache R) (e : Element R)
      → IsValid c
      → lookup e.key c.items ≡ some e.id
      → IsValid (record c { order = e ∷ drop_elem e.id c.order })
  unfolding lookup
  front-IsValid c e v at =
      let here = sym (v.agree e.key) ∙ at in
      let (ds, ds') = drop_elem-Distinct e.id c.order v.distinct_ids v.distinct_keys in
      let assoc =
        drop_elem_assoc e.key e.id (λ e. e.id) c.order v.distinct_ids v.distinct_keys here in
      let gone : (j : String)
          → lookup j (index (drop_elem e.id c.order))
            ≡ (if e.key == j then none else lookup j (index c.order)) =
        λ j. ap (lookup j) assoc ∙ lookup-delete e.key j (index c.order) in
      record {
        agree = λ j. ground (arith, v.agree j, gone j, here, eq_iff e.key j);
        distinct_ids =
            (ground (arith, contains-drop_elem e.id e.id c.order, eqb_iff e.id e.id), ds);
        distinct_keys = (
          lookup-index-none e.key (drop_elem e.id c.order)
              (ground (arith, gone e.key, eq_iff e.key e.key)),
          ds',
        );
        allocated = (
          index-bound c.next e.key e.id c.order v.allocated here,
          drop_elem-All (λ e. e.id < c.next) e.id c.order v.allocated,
        );
        bounded = omega (arith, v.bounded, drop_elem-lt e.key e.id c.order here);
        positive = v.positive;
      }

  pub moved-IsValid :
      (c : Cache R) (k : String) (i : ℕ) (e : Element R)
      → IsValid c
      → lookup k c.items ≡ some i
      → e.key ≡ k
      → e.id ≡ i
      → IsValid (record c { order = e ∷ drop_elem i c.order })
        × (view (e ∷ drop_elem i c.order)
            ≡ (k, (e.response, e.created_at)) ∷ delete k (view c.order))
  moved-IsValid c k i e v at key id =
      let here = sym (v.agree k) ∙ at in
      (
        rw (sym id) (front-IsValid c e v (rw (key, id) at)),
        ap₂ (λ j m. (j, (e.response, e.created_at)) ∷ m) key
            (drop_elem_assoc k i (λ f. (f.response, f.created_at)) c.order v.distinct_ids
              v.distinct_keys here),
      )

  pub pushed-IsValid :
      (c : Cache R) (now : ℕ) (k : String) (r : R)
      → IsValid c
      → lookup k c.items ≡ none
      → length c.order < c.capacity
      → IsValid (push_front c now k r)
  unfolding push_front lookup
  pushed-IsValid c now k r v new room = record {
    agree = λ j. ground (arith, v.agree j, lookup-insert k j c.next c.items);
    distinct_ids = (unallocated c.next c.order v.allocated, v.distinct_ids);
    distinct_keys = (lookup-index-none k c.order (sym (v.agree k) ∙ new), v.distinct_keys);
    allocated = (
      omega arith,
      All-impl (λ e. e.id < c.next) (λ e. e.id < c.next + 1) c.order (λ e h. omega (arith, h))
          v.allocated,
    );
    bounded = omega (arith, room);
    positive = v.positive;
  }

  -- The settings of a cache stay.
  abbrev pub SameSettings : Cache R → Cache R → Type 0
  SameSettings c c' = (c'.capacity ≡ c.capacity) × (c'.ttl ≡ c.ttl) × (c'.enabled ≡ c.enabled)

  evict-back :
      (c : Cache R) (f : Element R)
      → back c.order ≡ some f
      → evict c ≡ record c { order = drop_elem f.id c.order; items = delete f.key c.items }
  unfolding evict
  evict-back c f at = rw (at, evict) refl

  -- The eviction from a full cache takes the end of the list.
  pub evicted-IsValid :
      (c : Cache R)
      → IsValid c
      → c.capacity ≤ length c.order
      → IsValid (evict c)
        × SameSettings c (evict c)
        × (length (evict c).order < c.capacity)
        × (view (evict c).order ≡ drop_last (view c.order))
        × ((j : String) → lookup j c.items ≡ none → lookup j (evict c).items ≡ none)
  evicted-IsValid c v full =
      let (f, at, under, end) =
        back-last c.order (omega (arith, v.positive, full)) v.distinct_ids v.distinct_keys in
      let here = v.agree f.key ∙ under in
      rw (evict-back c f at) (
        removed-IsValid c f.key f.id v here,
        (refl, refl, refl),
        omega (arith, drop_elem-lt f.key f.id c.order under, v.bounded),
        ap view end ∙ map-drop_last (λ e. (e.key, (e.response, e.created_at))) c.order,
        λ j none_there. ground (arith, lookup-delete f.key j c.items, none_there),
      )
