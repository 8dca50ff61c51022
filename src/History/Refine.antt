-- ===== src/History/Refine.antt =====
-- A ring holds the snapshots that were added last, oldest first.
use kube_assist_operator.Prelude.{
  ℕ, ◌+◌, ◌-◌, ◌%◌, ◌≤◌, ◌<◌, ◌≡◌, refl, sym, ap, ◌∙◌, ltb, if◌then◌else◌, Option, none, some, List,
  [], ◌∷◌, ◌++◌, arith, length, drop, set, get_elem?, length-append, length-drop, length-set,
  length-replicate, get_elem?-set_self, get_elem?-set_ne, get_elem?-append_left,
  get_elem?-append_end, get_elem?-drop, drop-append, drop-drop,
}
use native.Mathlib.Decide.{dec_lt}
use mathlib.Core.Path.{subst}
use mathlib.Core.List.{append_assoc, append-nil}
use kube_assist_operator.History.{HealthSnapshot, RingBuffer, new, add}
use kube_assist_operator.History.Slots.{slot, slot-grow, slot-shift, slot-new, next-lt}

-- The abstract history: the last `cap` of all that was added.
abbrev pub take_last {ℓ} : {A : Type ℓ} → ℕ → List A → List A
take_last cap xs = drop (length xs - cap) xs

module _ {F : Type 0} where
  -- The ring is well formed, and its i-th oldest slot holds the i-th entry of `xs`.
  pub record Holds (rb : RingBuffer F) (xs : List (HealthSnapshot F)) : Type 0 where
    pub storage : length rb.buf ≡ rb.capacity
    pub inside : rb.head < rb.capacity
    pub counted : rb.count ≡ length xs
    pub bounded : rb.count ≤ rb.capacity
    pub slots :
        (i : ℕ)
        → i < rb.count
        → get_elem? rb.buf (slot rb.capacity rb.head rb.count i) ≡ get_elem? xs i

  pub new-Holds : (z : F) (capacity : ℕ) → Holds (new z capacity) []
  unfolding new
  new-Holds z capacity = record {
    storage = length-replicate _ _;
    inside = ground arith;
    counted = refl;
    bounded = omega arith;
    slots = λ i h. absurd (omega arith);
  }

  -- The ring after an addition in range.
  abbrev pub added : RingBuffer F → HealthSnapshot F → RingBuffer F
  added rb s = record rb {
    buf = set rb.buf rb.head s;
    head = (rb.head + 1) % rb.capacity;
    count = if ltb rb.count rb.capacity then rb.count + 1 else rb.count;
  }

  added-slots :
      (rb : RingBuffer F) (xs : List (HealthSnapshot F)) (s : HealthSnapshot F)
      → Holds rb xs
      → (i : ℕ) → i < (added rb s).count
      → get_elem? (added rb s).buf (slot rb.capacity (added rb s).head (added rb s).count i)
        ≡ get_elem? (take_last rb.capacity (xs ++ (s ∷ []))) i
  added-slots rb xs s v i h = elim (dec_lt rb.count rb.capacity) [
    | yes room ↦ elim (dec_lt i rb.count) [
      | yes old ↦ ground (
        arith,
        v.slots i old,
        slot-grow rb.capacity rb.head v.inside rb.count i room old,
        get_elem?-set_ne rb.buf rb.head (slot rb.capacity rb.head rb.count i) s,
        get_elem?-append_left xs (s ∷ []) i,
        get_elem?-drop (length (xs ++ (s ∷ [])) - rb.capacity) (xs ++ (s ∷ [])) i,
        length-append xs (s ∷ []),
        v.counted,
        v.bounded,
        v.storage,
        v.inside,
      )
      | no last ↦ ground (
        arith,
        slot-new rb.capacity rb.head v.inside (rb.count + 1),
        get_elem?-set_self rb.buf rb.head s,
        get_elem?-append_end xs s,
        get_elem?-drop (length (xs ++ (s ∷ [])) - rb.capacity) (xs ++ (s ∷ [])) i,
        length-append xs (s ∷ []),
        v.counted,
        v.bounded,
        v.storage,
        v.inside,
      )
    ]
    | no full ↦ elim (dec_lt (i + 1) rb.capacity) [
      | yes old ↦ ground (
        arith,
        v.slots (i + 1),
        slot-shift rb.capacity rb.head v.inside i old,
        get_elem?-set_ne rb.buf rb.head (slot rb.capacity rb.head rb.capacity (i + 1)) s,
        get_elem?-append_left xs (s ∷ []) (i + 1),
        get_elem?-drop (length (xs ++ (s ∷ [])) - rb.capacity) (xs ++ (s ∷ [])) i,
        length-append xs (s ∷ []),
        v.counted,
        v.bounded,
        v.storage,
        v.inside,
      )
      | no last ↦ ground (
        arith,
        slot-new rb.capacity rb.head v.inside rb.capacity,
        get_elem?-set_self rb.buf rb.head s,
        get_elem?-append_end xs s,
        get_elem?-drop (length (xs ++ (s ∷ [])) - rb.capacity) (xs ++ (s ∷ [])) i,
        length-append xs (s ∷ []),
        v.counted,
        v.bounded,
        v.storage,
        v.inside,
      )
    ]
  ]

  -- `Add` never panics on a well-formed ring, and forgets the oldest snapshot exactly when the
  -- ring is full: it holds the last `capacity` of what it held followed by the new one.
  pub add-Holds :
      (rb : RingBuffer F) (xs : List (HealthSnapshot F)) (s : HealthSnapshot F)
      → Holds rb xs
      → (rb' : RingBuffer F) × (add rb s ≡ some rb')
        × Holds rb' (take_last rb.capacity (xs ++ (s ∷ [])))
        × (rb'.capacity ≡ rb.capacity)
  unfolding add
  add-Holds rb xs s v = (
    added rb s,
    ground (arith, v.inside, v.storage),
    record {
      storage = length-set rb.buf rb.head s ∙ v.storage;
      inside = next-lt rb.capacity rb.head v.inside;
      counted = ground (
        arith,
        v.counted,
        v.bounded,
        length-append xs (s ∷ []),
        length-drop (length (xs ++ (s ∷ [])) - rb.capacity) (xs ++ (s ∷ [])),
      );
      bounded = ground (arith, v.bounded);
      slots = added-slots rb xs s v;
    },
    refl,
  )

  -- A sequence of additions.
  unfoldable pub add_all : RingBuffer F → List (HealthSnapshot F) → Option (RingBuffer F)
  add_all rb [] = some rb
  add_all rb (s ∷ ss) = elim (add rb s) [ none ↦ none | some rb' ↦ add_all rb' ss ]

  take_last-append :
      (cap : ℕ) (xs : List (HealthSnapshot F)) (s : HealthSnapshot F)
      → take_last cap (take_last cap xs ++ (s ∷ [])) ≡ take_last cap (xs ++ (s ∷ []))
  take_last-append cap xs s =
      let j = length xs - cap in
      let all = xs ++ (s ∷ []) in
      let cut : length (drop j all) - cap + j ≡ length all - cap =
        omega (arith, length-drop j all, length-append xs (s ∷ [])) in
      let cut' : j + (length (drop j all) - cap) ≡ length all - cap = omega (arith, cut) in
      ap (take_last cap) (drop-append j xs (s ∷ []) (omega arith))
      ∙ drop-drop (length (drop j all) - cap) j all
      ∙ ap (λ k. drop k all) cut'

  add_all-Holds :
      (ss : List (HealthSnapshot F)) (cap : ℕ) (rb : RingBuffer F) (xs : List (HealthSnapshot F))
      → rb.capacity ≡ cap
      → Holds rb (take_last cap xs)
      → (rb' : RingBuffer F) × (add_all rb ss ≡ some rb') × Holds rb' (take_last cap (xs ++ ss))
  unfolding add_all
  add_all-Holds [] cap rb xs c v =
      (rb, refl, subst (λ l. Holds rb (take_last cap l)) (sym (append-nil xs)) v)
  add_all-Holds (s ∷ ss) cap rb xs c v =
      let (rb', e, v', c') = add-Holds rb (take_last cap xs) s v in
      let same =
        ap (λ k. take_last k (take_last cap xs ++ (s ∷ []))) c ∙ take_last-append cap xs s in
      let (rb'', e', w) =
        add_all-Holds ss cap rb' (xs ++ (s ∷ [])) (c' ∙ c) (subst (Holds rb') same v') in
      (
        rb'',
        ground (arith, e, e'),
        subst (λ l. Holds rb'' (take_last cap l)) (append_assoc xs (s ∷ []) ss) w,
      )

  -- A new ring never panics on additions, and holds the last `capacity` of all that was ever added
  -- to it, or all if there are fewer, oldest first; a capacity of 0 counts as 1.
  pub history-Holds :
      (z : F) (capacity : ℕ) (ss : List (HealthSnapshot F))
      → (rb : RingBuffer F) × (add_all (new z capacity) ss ≡ some rb)
        × Holds rb (take_last (if ltb capacity 1 then 1 else capacity) ss)
  history-Holds z capacity ss =
      add_all-Holds ss (if ltb capacity 1 then 1 else capacity) (new z capacity) []
        (unfold new in refl) (subst (Holds (new z capacity)) (ground arith) (new-Holds z capacity))
