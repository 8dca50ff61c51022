-- ===== src/Prelude/Maps.antt =====
-- A Go map as an association list: a lookup reads the first entry with the key, an insertion
-- overwrites it or adds one at the end, a deletion drops every entry with it.
use Prim.Native.Nat.{◌≤◌, ◌<◌}
use mathlib.Core.Path.{◌≡◌, refl, subst, sym, ◌∙◌}
use mathlib.Core.List.{List, [], ◌∷◌, ◌++◌}
use mathlib.Core.Bool.{Bool, true, false, ◌||◌}
use mathlib.Core.Option.{Option, none, some}
use native.Mathlib.Omega.{arith}
use kube_assist_operator.Prelude.Tests.{SameKey, ◌==◌, if◌then◌else◌, Bool-cases}
use mathlib.Core.Logic.{inl, inr}
use kube_assist_operator.Prelude.Lists.{length, All}

module _ {ℓ κ} {K : Type ℓ} {V : Type κ} ⦃e : SameKey K⦄ where
  unfoldable pub lookup : K → List (K × V) → Option V
  lookup k [] = none
  lookup k ((j, v) ∷ m) = let rest = lookup k m in if j == k then some v else rest

  unfoldable pub insert : K → V → List (K × V) → List (K × V)
  insert k v [] = (k, v) ∷ []
  insert k v ((j, w) ∷ m) = let rest = insert k v m in if j == k then (k, v) ∷ m else (j, w) ∷ rest

  unfoldable pub delete : K → List (K × V) → List (K × V)
  delete k [] = []
  delete k ((j, w) ∷ m) = let rest = delete k m in if j == k then rest else (j, w) ∷ rest

  pub lookup-insert :
      (k j : K) (v : V) (m : List (K × V))
      → lookup j (insert k v m) ≡ (if k == j then some v else lookup j m)
  unfolding lookup insert
  lookup-insert k j v [] = ground arith
  lookup-insert k j v ((i, w) ∷ m) =
      ground (arith, e.same_iff k j, e.same_iff i k, e.same_iff i j, lookup-insert k j v m)

  pub lookup-delete :
      (k j : K) (m : List (K × V)) → lookup j (delete k m) ≡ (if k == j then none else lookup j m)
  unfolding lookup delete
  lookup-delete k j [] = ground arith
  lookup-delete k j ((i, w) ∷ m) =
      ground (arith, e.same_iff k j, e.same_iff i k, e.same_iff i j, lookup-delete k j m)

  pub length-delete-le : (k : K) (m : List (K × V)) → length (delete k m) ≤ length m
  unfolding delete
  length-delete-le k [] = omega arith
  length-delete-le k ((j, w) ∷ m) = ground (arith, length-delete-le k m)

  pub length-delete-lt :
      (k : K) (v : V) (m : List (K × V)) → lookup k m ≡ some v → length (delete k m) < length m
  unfolding lookup delete
  length-delete-lt k v [] h = ground arith
  length-delete-lt k v ((j, w) ∷ m) h = ground (arith, length-delete-lt k v m, length-delete-le k m)

module _ {ℓ κ} {K : Type ℓ} {V : Type κ} ⦃e : SameKey K⦄ where
  pub lookup-All {ι} :
      (P : V → Type ι) (k : K) (v : V) (m : List (K × V))
      → All (λ p. P (p.1)) m
      → lookup k m ≡ some v
      → P v
  unfolding lookup
  lookup-All P k v [] h at = absurd (ground arith)
  lookup-All P k v ((j, w) ∷ m) h at = elim (Bool-cases (j == k)) [
    | inl here ↦ subst P (ground arith) (h.0)
    | inr there ↦ lookup-All P k v m (h.1) (ground arith)
  ]

  pub insert-All {ι} :
      (P : V → Type ι) (k : K) (v : V) (m : List (K × V))
      → P v
      → All (λ p. P (p.1)) m
      → All (λ p. P (p.1)) (insert k v m)
  unfolding insert
  insert-All P k v [] p h = (p, tt)
  insert-All P k v ((j, w) ∷ m) p h = elim (Bool-cases (j == k)) [
    | inl here ↦ rw here (p, h.1)
    | inr there ↦ rw there (h.0, insert-All P k v m p h.1)
  ]

module _ {ℓ} {K : Type ℓ} ⦃e : SameKey K⦄ where
  -- A Go set, `map[K]struct{}` or `map[K]bool`, as the list of its members.
  unfoldable pub contains : K → List K → Bool
  contains k [] = false
  contains k (j ∷ ks) = j == k || contains k ks

  unfoldable pub remove : K → List K → List K
  remove k [] = []
  remove k (j ∷ ks) = let rest = remove k ks in if j == k then rest else j ∷ rest

  -- No key twice.
  abbrev pub Distinct : List K → Type 0
  Distinct [] = Unit
  Distinct (k ∷ ks) = (contains k ks ≡ false) × Distinct ks

  pub same_refl : (k : K) → (k == k) ≡ true
  same_refl k = (e.same_iff k k).1 refl

  pub same_sym : (j k : K) → (j == k) ≡ (k == j)
  same_sym j k = elim (Bool-cases (j == k)) [
    | inl same ↦ rw (same, sym ((e.same_iff j k).0 same)) (sym (same_refl j))
    | inr other ↦ elim (Bool-cases (k == j)) [
      | inl same ↦
          absurd (ground (arith, other, (e.same_iff j k).1 (sym ((e.same_iff k j).0 same))))
      | inr other' ↦ other ∙ sym other'
    ]
  ]

  pub contains-All {κ} :
      (P : K → Type κ) (k : K) (ks : List K) → All P ks → contains k ks ≡ true → P k
  unfolding contains
  contains-All P k [] all h = absurd (ground (arith, h))
  contains-All P k (j ∷ ks) all h = elim (Bool-cases (j == k)) [
    | inl same ↦ let e = (e.same_iff j k).0 same in rw⁻¹ e all.0
    | inr other ↦ contains-All P k ks all.1 (ground (arith, h, other))
  ]

  pub contains-append :
      (k : K) (xs ys : List K) → contains k (xs ++ ys) ≡ (contains k xs || contains k ys)
  unfolding contains
  contains-append k [] ys = refl
  contains-append k (x ∷ xs) ys = ground (arith, contains-append k xs ys)

  pub contains-remove :
      (k j : K) (xs : List K) → contains j (remove k xs) ≡ (if k == j then false else contains j xs)
  unfolding contains remove
  contains-remove k j [] = ground arith
  contains-remove k j (x ∷ xs) =
      ground (arith, e.same_iff x k, e.same_iff k j, e.same_iff x j, contains-remove k j xs)

  pub Distinct-append_one :
      (xs : List K) (k : K) → Distinct xs → contains k xs ≡ false → Distinct (xs ++ (k ∷ []))
  unfolding contains
  Distinct-append_one [] k d h = (refl, tt)
  Distinct-append_one (x ∷ xs) k d h =
      let (dx, dxs) = d in
      (
        ground (arith, contains-append x xs (k ∷ []), e.same_iff x k, e.same_iff k x),
        Distinct-append_one xs k dxs (ground arith),
      )

  pub Distinct-append :
      (xs ys : List K)
      → Distinct xs
      → Distinct ys
      → ((k : K) → contains k ys ≡ true → contains k xs ≡ false)
      → Distinct (xs ++ ys)
  unfolding contains
  Distinct-append [] ys dx dy apart = dy
  Distinct-append (x ∷ xs) ys dx dy apart =
      let (new, dxs) = dx in
      (
        ground (arith, contains-append x xs ys, apart x, e.same_iff x x),
        Distinct-append xs ys dxs dy (λ k h. ground (arith, apart k h)),
      )

  length-remove-le : (k : K) (xs : List K) → length (remove k xs) ≤ length xs
  unfolding remove
  length-remove-le k [] = omega arith
  length-remove-le k (x ∷ xs) = ground (arith, length-remove-le k xs)

  length-remove-lt : (k : K) (xs : List K) → contains k xs ≡ true → length (remove k xs) < length xs
  unfolding contains remove
  length-remove-lt k [] h = ground arith
  length-remove-lt k (x ∷ xs) h = ground (arith, length-remove-lt k xs, length-remove-le k xs)

  -- Distinct members of a list are no more than its length.
  pub length_of_Distinct :
      (xs ys : List K)
      → Distinct xs
      → ((k : K) → contains k xs ≡ true → contains k ys ≡ true)
      → length xs ≤ length ys
  unfolding contains
  length_of_Distinct [] ys d sub = omega arith
  length_of_Distinct (x ∷ xs) ys d sub =
      let (new, dxs) = d in
      let here = sub x (ground (arith, e.same_iff x x)) in
      let smaller =
        length_of_Distinct xs (remove x ys) dxs
          (λ k h. ground (arith, contains-remove x k ys, sub k, e.same_iff x k, h)) in
      omega (arith, smaller, length-remove-lt x ys here)
