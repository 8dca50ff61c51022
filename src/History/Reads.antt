-- ===== src/History/Reads.antt =====
-- What `Latest`, `Last` and `Since` return, in terms of the history that a ring holds.
use kube_assist_operator.Prelude.{
  ℕ, zero, suc, ◌+◌, ◌-◌, ◌%◌, ◌≤◌, ◌<◌, ◌≡◌, sym, ap, ◌∙◌, not, ltb, eqb, some, List, [], ◌∷◌,
  arith, length, drop, get_elem?, get_elem?-some, get_elem?-none, drop-cons, drop_of_length-le,
  keep, Bool-cases, inl, inr,
}
use kube_assist_operator.History.{
  HealthSnapshot, RingBuffer, pos, latest, last, read_from, since, since_from,
}
use kube_assist_operator.History.Slots.{slot-suffix, slot-latest}
use kube_assist_operator.History.Refine.{Holds, take_last}

module _ {F : Type 0} (rb : RingBuffer F) (xs : List (HealthSnapshot F)) (v : Holds rb xs) where
  -- One read of a loop over the last `m` snapshots.
  read-eq :
      (m i : ℕ)
      → m ≤ rb.count
      → i < m
      → get_elem? rb.buf (((rb.head + rb.capacity - m) % rb.capacity + i) % rb.capacity)
        ≡ get_elem? xs (length xs - m + i)
  read-eq m i h k = ground (
    arith,
    slot-suffix rb.capacity rb.head v.inside rb.count m i,
    v.slots (rb.count - m + i),
    v.counted,
    v.bounded,
  )

  read_from-drop :
      (n m i : ℕ)
      → m ≤ rb.count
      → i + n ≡ m
      → read_from rb ((rb.head + rb.capacity - m) % rb.capacity) i n
        ≡ some (drop (length xs - n) xs)
  unfolding read_from
  read_from-drop zero m i h e = ap some (sym (drop_of_length-le (length xs - 0) xs (omega arith)))
  read_from-drop (suc n) m i h e =
      let k = length xs - suc n in
      let (x, at) = get_elem?-some xs k (omega (arith, v.counted)) in
      let next : suc k ≡ length xs - n = omega (arith, v.counted) in
      let here : length xs - m + i ≡ k = omega (arith, v.counted) in
      let read = read-eq m i h (omega arith) ∙ ap (get_elem? xs) here ∙ at in
      let cut = drop-cons k xs x at ∙ ap (λ j. x ∷ drop j xs) next in
      ground (arith, read, read_from-drop n m (i + 1) h (omega arith), cut)

  since_from-keep :
      (t n m i : ℕ)
      → m ≤ rb.count
      → i + n ≡ m
      → since_from rb t ((rb.head + rb.capacity - m) % rb.capacity) i n
        ≡ some (keep (λ s. not (ltb s.timestamp t)) (drop (length xs - n) xs))
  unfolding since_from
  since_from-keep t zero m i h e =
      ap (λ l. some (keep (λ s. not (ltb s.timestamp t)) l))
        (sym (drop_of_length-le (length xs - 0) xs (omega arith)))
  since_from-keep t (suc n) m i h e =
      let k = length xs - suc n in
      let (x, at) = get_elem?-some xs k (omega (arith, v.counted)) in
      let next : suc k ≡ length xs - n = omega (arith, v.counted) in
      let here : length xs - m + i ≡ k = omega (arith, v.counted) in
      let read = read-eq m i h (omega arith) ∙ ap (get_elem? xs) here ∙ at in
      let cut = drop-cons k xs x at ∙ ap (λ j. x ∷ drop j xs) next in
      ground (arith, read, since_from-keep t n m (i + 1) h (omega arith), cut)

  latest-newest : latest rb ≡ some (get_elem? xs (length xs - 1))
  unfolding latest
  latest-newest = elim (Bool-cases (eqb rb.count 0)) [
    | inl z ↦ ground (arith, v.counted, get_elem?-none xs (length xs - 1))
    | inr p ↦
        let read = slot-latest rb.capacity rb.head v.inside rb.count (ground arith) v.bounded in
        let (x, at) = get_elem?-some xs (length xs - 1) (ground (arith, v.counted)) in
        ground (arith, read, v.slots (rb.count - 1), v.counted, at)
  ]

  last-take_last : (n : ℕ) → last rb (pos n) ≡ some (take_last n xs)
  unfolding last
  last-take_last n = elim (Bool-cases (ltb rb.count n)) [
    | inl more ↦ elim (Bool-cases (eqb rb.count 0)) [
      | inl z ↦ ground (arith, v.counted, drop_of_length-le (length xs - n) xs)
      | inr p ↦ ground (arith, v.counted, read_from-drop rb.count rb.count 0)
    ]
    | inr within ↦ elim (Bool-cases (eqb n 0)) [
      | inl z ↦ ground (arith, v.counted, drop_of_length-le (length xs - n) xs)
      | inr p ↦ ground (arith, read_from-drop n n 0)
    ]
  ]

  since-keep : (t : ℕ) → since rb t ≡ some (keep (λ s. not (ltb s.timestamp t)) xs)
  unfolding since
  since-keep t = elim (Bool-cases (eqb rb.count 0)) [
    | inl z ↦
        let empty : xs ≡ [] = drop_of_length-le 0 xs (ground (arith, v.counted)) in
        rw (z, since) (rw empty)
    | inr p ↦
        let all : length xs - rb.count ≡ 0 = omega (arith, v.counted) in
        rw (p, since)
          (since_from-keep t rb.count rb.count 0 (omega arith) (omega arith)
            ∙ ap (λ k. some (keep (λ s. not (ltb s.timestamp t)) (drop k xs))) all)
  ]

  -- On a ring that holds `xs`, the reads never panic for a length that is not negative: `Latest` is
  -- the newest snapshot of `xs`, or absent if there is none; `Last` the last `n` of `xs`, or all if
  -- there are fewer, in order; `Since` those of `xs` that are not before `t`, in order.
  pub reads_lem :
      (latest rb ≡ some (get_elem? xs (length xs - 1)))
      × ((n : ℕ) → last rb (pos n) ≡ some (take_last n xs))
      × ((t : ℕ) → since rb t ≡ some (keep (λ s. not (ltb s.timestamp t)) xs))
  reads_lem = (latest-newest, last-take_last, since-keep)
