-- ===== src/Ai/Cache/Entries.antt =====
-- The element list read as an association list by key.
use kube_assist_operator.Prelude.{
  ℕ, ◌≤◌, ◌<◌, ◌≡◌, refl, sym, ap, true, false, none, some, List, [], ◌∷◌, map, String, string_eq,
  nat_eq, ◌==◌, if◌then◌else◌, eqb_iff, arith, length, lookup, delete, contains, Distinct, All,
  Bool-cases, inl, inr,
}
use text.Mathlib.TextEquality.{eq_iff}
use kube_assist_operator.Ai.Cache.{Element, find_elem, drop_elem, back}

-- The list without its last element.
abbrev pub drop_last {ℓ} : {A : Type ℓ} → List A → List A
drop_last [] = []
drop_last (x ∷ []) = []
drop_last (x ∷ y ∷ xs) = x ∷ drop_last (y ∷ xs)

module _ {R : Type 0} where
  abbrev pub ids : List (Element R) → List ℕ
  ids = map (λ e. e.id)

  abbrev pub keys : List (Element R) → List String
  keys = map (λ e. e.key)

  -- The identity under each key.
  abbrev pub index : List (Element R) → List (String × ℕ)
  index = map (λ e. (e.key, e.id))

  -- What a client sees: the response and its time under each key.
  abbrev pub view : List (Element R) → List (String × (R × ℕ))
  view = map (λ e. (e.key, (e.response, e.created_at)))

  lookup-index_id :
      (k : String) (i : ℕ) (es : List (Element R))
      → lookup k (index es) ≡ some i
      → contains i (ids es) ≡ true
  unfolding lookup contains
  lookup-index_id k i [] h = ground arith
  lookup-index_id k i (e ∷ es) h =
      ground (arith, eq_iff e.key k, eqb_iff e.id i, lookup-index_id k i es)

  lookup-index_key :
      (k : String) (i : ℕ) (es : List (Element R))
      → lookup k (index es) ≡ some i
      → contains k (keys es) ≡ true
  unfolding lookup contains
  lookup-index_key k i [] h = ground arith
  lookup-index_key k i (e ∷ es) h = ground (arith, lookup-index_key k i es)

  pub find_elem-index :
      (k : String) (i : ℕ) (es : List (Element R))
      → Distinct (ids es)
      → lookup k (index es) ≡ some i
      → (e : Element R) × (find_elem i es ≡ some e)
        × (e.key ≡ k)
        × (e.id ≡ i)
        × (lookup k (view es) ≡ some (e.response, e.created_at))
  unfolding lookup find_elem contains
  find_elem-index k i [] d h = absurd (ground arith)
  find_elem-index k i (e ∷ es) d h = elim (Bool-cases (e.key == k)) [
    | inl here ↦
        let same : e.id ≡ i = ground (arith, h) in
        (e, ground (arith, eqb_iff e.id i, same), (eq_iff e.key k).0 here, same, ground arith)
    | inr there ↦
        let later : lookup k (index es) ≡ some i = ground (arith, h) in
        let (f, at, key, id, seen) = find_elem-index k i es d.1 later in
        let apart = lookup-index_id k i es later in
        (f, ground (arith, eqb_iff e.id i, d.0, apart, at), key, id, ground (arith, seen, there))
  ]

  pub lookup-view-none :
      (k : String) (es : List (Element R)) → lookup k (index es) ≡ none → lookup k (view es) ≡ none
  unfolding lookup
  lookup-view-none k [] h = refl
  lookup-view-none k (e ∷ es) h = ground (arith, lookup-view-none k es)

  pub lookup-index-none :
      (k : String) (es : List (Element R))
      → lookup k (index es) ≡ none
      → contains k (keys es) ≡ false
  unfolding lookup contains
  lookup-index-none k [] h = refl
  lookup-index-none k (e ∷ es) h = ground (arith, lookup-index-none k es)

  delete-absent :
      {V : Type 0} (k : String) (f : Element R → V) (es : List (Element R))
      → contains k (keys es) ≡ false
      → delete k (map (λ e. (e.key, f e)) es) ≡ map (λ e. (e.key, f e)) es
  unfolding delete contains
  delete-absent k f [] h = refl
  delete-absent k f (e ∷ es) h = elim (Bool-cases (e.key == k)) [
    | inl here ↦ absurd (ground (arith, here, h))
    | inr there ↦
        rw there (ap (λ m. (e.key, f e) ∷ m) (delete-absent k f es (ground (arith, there, h))))
  ]

  drop_elem-absent :
      (i : ℕ) (es : List (Element R)) → contains i (ids es) ≡ false → drop_elem i es ≡ es
  unfolding drop_elem contains
  drop_elem-absent i [] h = refl
  drop_elem-absent i (e ∷ es) h = ground (arith, drop_elem-absent i es)

  -- Dropping the element of a key deletes the key.
  pub drop_elem_assoc :
      {V : Type 0} (k : String) (i : ℕ) (f : Element R → V) (es : List (Element R))
      → Distinct (ids es)
      → Distinct (keys es)
      → lookup k (index es) ≡ some i
      → map (λ e. (e.key, f e)) (drop_elem i es) ≡ delete k (map (λ e. (e.key, f e)) es)
  unfolding lookup delete drop_elem contains
  drop_elem_assoc k i f [] d d' h = refl
  drop_elem_assoc k i f (e ∷ es) d d' h = elim (Bool-cases (e.key == k)) [
    | inl here ↦
        let same : (e.id == i) ≡ true = ground (arith, h, here, eqb_iff e.id i) in
        let fresh : contains i (ids es) ≡ false = ground (arith, d.0, eqb_iff e.id i, same) in
        let gone : contains k (keys es) ≡ false = ground (arith, d'.0, eq_iff e.key k, here) in
        rw here (rw same (rw (drop_elem-absent i es fresh) (sym (delete-absent k f es gone))))
    | inr there ↦
        let later : lookup k (index es) ≡ some i = ground (arith, h, there) in
        let apart : (e.id == i) ≡ false =
          ground (arith, d.0, lookup-index_id k i es later, eqb_iff e.id i) in
        rw there (rw apart (ap (λ m. (e.key, f e) ∷ m) (drop_elem_assoc k i f es d.1 d'.1 later)))
  ]

  -- What is left after a drop is distinct, and neither the identity nor the key is in it.
  pub contains-drop_elem :
      (j i : ℕ) (es : List (Element R))
      → contains j (ids (drop_elem i es)) ≡ (if i == j then false else contains j (ids es))
  unfolding drop_elem contains
  contains-drop_elem j i [] = ground arith
  contains-drop_elem j i (e ∷ es) =
      ground (arith, contains-drop_elem j i es, eqb_iff e.id i, eqb_iff e.id j, eqb_iff i j)

  contains-drop_elem_key :
      (k : String) (i : ℕ) (es : List (Element R))
      → contains k (keys es) ≡ false
      → contains k (keys (drop_elem i es)) ≡ false
  unfolding drop_elem contains
  contains-drop_elem_key k i [] h = refl
  contains-drop_elem_key k i (e ∷ es) h = ground (arith, contains-drop_elem_key k i es)

  pub drop_elem-Distinct :
      (i : ℕ) (es : List (Element R))
      → Distinct (ids es)
      → Distinct (keys es)
      → Distinct (ids (drop_elem i es)) × Distinct (keys (drop_elem i es))
  unfolding drop_elem contains
  drop_elem-Distinct i [] d d' = (tt, tt)
  drop_elem-Distinct i (e ∷ es) d d' =
      let (dt, dt') = drop_elem-Distinct i es d.1 d'.1 in
      elim (Bool-cases (e.id == i)) [
        | inl here ↦ rw here (dt, dt')
        | inr there ↦ rw there (
          (ground (arith, contains-drop_elem e.id i es, d.0), dt),
          (contains-drop_elem_key e.key i es d'.0, dt'),
        )
      ]

  pub drop_elem-All :
      (P : Element R → Type 0) (i : ℕ) (es : List (Element R)) → All P es → All P (drop_elem i es)
  unfolding drop_elem
  drop_elem-All P i [] h = tt
  drop_elem-All P i (e ∷ es) h = elim (Bool-cases (e.id == i)) [
    | inl here ↦ rw here (drop_elem-All P i es h.1)
    | inr there ↦ rw there (h.0, drop_elem-All P i es h.1)
  ]

  drop_elem-le : (i : ℕ) (es : List (Element R)) → length (drop_elem i es) ≤ length es
  unfolding drop_elem
  drop_elem-le i [] = omega arith
  drop_elem-le i (e ∷ es) = ground (arith, drop_elem-le i es)

  pub drop_elem-lt :
      (k : String) (i : ℕ) (es : List (Element R))
      → lookup k (index es) ≡ some i
      → length (drop_elem i es) < length es
  unfolding drop_elem lookup
  drop_elem-lt k i [] h = ground arith
  drop_elem-lt k i (e ∷ es) h =
      ground (arith, drop_elem-lt k i es, drop_elem-le i es, eqb_iff e.id i)

  pub map-drop_last :
      {B : Type 0} (f : Element R → B) (es : List (Element R))
      → map f (drop_last es) ≡ drop_last (map f es)
  map-drop_last f [] = refl
  map-drop_last f (e ∷ []) = refl
  map-drop_last f (e ∷ e' ∷ es) = ap (λ m. f e ∷ m) (map-drop_last f (e' ∷ es))

  -- The last element is under its key, and dropping it drops the end of the list.
  back_of_cons :
      (e : Element R) (es : List (Element R))
      → Distinct (ids (e ∷ es))
      → Distinct (keys (e ∷ es))
      → (f : Element R) × (back (e ∷ es) ≡ some f)
        × (lookup f.key (index (e ∷ es)) ≡ some f.id)
        × (drop_elem f.id (e ∷ es) ≡ drop_last (e ∷ es))
  unfolding back lookup drop_elem contains
  back_of_cons e [] d d' =
      (e, refl, ground (arith, eq_iff e.key e.key), ground (arith, eqb_iff e.id e.id))
  back_of_cons e (e' ∷ es) d d' =
      let (f, at, under, end) = back_of_cons e' es d.1 d'.1 in
      let apart : (e.id == f.id) ≡ false =
        ground (arith, eqb_iff e.id f.id, lookup-index_id f.key f.id (e' ∷ es) under, d.0) in
      let other : (e.key == f.key) ≡ false =
        ground (arith, eq_iff e.key f.key, lookup-index_key f.key f.id (e' ∷ es) under, d'.0) in
      (f, at, ground (arith, other, under), rw apart (ap (λ m. e ∷ m) end))

  pub back-last :
      (es : List (Element R))
      → 1 ≤ length es
      → Distinct (ids es)
      → Distinct (keys es)
      → (f : Element R) × (back es ≡ some f)
        × (lookup f.key (index es) ≡ some f.id)
        × (drop_elem f.id es ≡ drop_last es)
  back-last [] h d d' = absurd (omega (arith, h))
  back-last (e ∷ es) h d d' = back_of_cons e es d d'
