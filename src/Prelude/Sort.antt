-- ===== src/Prelude/Sort.antt =====
-- `sort.SliceStable` of Go: the stable sort by a strict order, as an insertion sort.
use mathlib.Core.Path.{◌≡◌, refl}
use native.Mathlib.Omega.{arith}
use mathlib.Core.List.{List, [], ◌∷◌, Perm}
use mathlib.Core.List.Perm
use mathlib.Core.Bool.{Bool, true, false}
use mathlib.Core.Logic.{inl, inr}
use kube_assist_operator.Prelude.Tests.{if◌then◌else◌, Bool-cases}
use kube_assist_operator.Prelude.Lists.{All, keep}

module _ {A : Type 0} (less : A → A → Bool) where
  -- Before the first element that is not less than it.
  unfoldable pub place : A → List A → List A
  place x [] = x ∷ []
  place x (y ∷ ys) = let rest = place x ys in if less y x then y ∷ rest else x ∷ y ∷ ys

  unfoldable pub sort_stable : List A → List A
  unfolding place
  sort_stable [] = []
  sort_stable (x ∷ xs) = place x (sort_stable xs)

  -- No element is less than one before it.
  abbrev pub IsSorted : List A → Type 0
  IsSorted [] = Unit
  IsSorted (x ∷ xs) = All (λ y. less y x ≡ false) xs × IsSorted xs

  pub place-All : (P : A → Type 0) (x : A) (xs : List A) → P x → All P xs → All P (place x xs)
  unfolding place
  place-All P x [] p h = (p, tt)
  place-All P x (y ∷ ys) p h = elim (Bool-cases (less y x)) [
    | inl lt ↦ rw lt (h.0, place-All P x ys p h.1)
    | inr ge ↦ rw ge (p, h)
  ]

  pub sort_stable-All : (P : A → Type 0) (xs : List A) → All P xs → All P (sort_stable xs)
  unfolding sort_stable
  sort_stable-All P [] h = tt
  sort_stable-All P (x ∷ xs) h = place-All P x (sort_stable xs) h.0 (sort_stable-All P xs h.1)

  place-All_inv : (P : A → Type 0) (x : A) (xs : List A) → All P (place x xs) → P x × All P xs
  unfolding place
  place-All_inv P x [] h = h
  place-All_inv P x (y ∷ ys) h = elim (Bool-cases (less y x)) [
    | inl lt ↦
        let h' : P y × All P (place x ys) = rw lt at h in
        let (px, pys) = place-All_inv P x ys h'.1 in (px, (h'.0, pys))
    | inr ge ↦ let h' : P x × All P (y ∷ ys) = rw ge at h in h'
  ]

  pub sort_stable-All_inv : (P : A → Type 0) (xs : List A) → All P (sort_stable xs) → All P xs
  unfolding sort_stable
  sort_stable-All_inv P [] h = tt
  sort_stable-All_inv P (x ∷ xs) h =
      let (px, rest) = place-All_inv P x (sort_stable xs) h in (px, sort_stable-All_inv P xs rest)

  place-perm : (x : A) (xs : List A) → Perm (place x xs) (x ∷ xs)
  unfolding place
  place-perm x [] = Perm.refl (x ∷ [])
  place-perm x (y ∷ ys) = elim (Bool-cases (less y x)) [
    | inl lt ↦ rw lt (Perm.trans (Perm.cons y (place-perm x ys)) (Perm.swap x y ys))
    | inr ge ↦ rw ge (Perm.refl (x ∷ y ∷ ys))
  ]

  pub sort_stable-perm : (xs : List A) → Perm (sort_stable xs) xs
  unfolding sort_stable
  sort_stable-perm [] = Perm.refl []
  sort_stable-perm (x ∷ xs) =
      Perm.trans (place-perm x (sort_stable xs)) (Perm.cons x (sort_stable-perm xs))

  -- Elements of which none is less than another keep their order.
  place-keep :
      (p : A → Bool)
      → ((x y : A) → p x ≡ true → p y ≡ true → less y x ≡ false)
      → (x : A) (xs : List A) → keep p (place x xs) ≡ keep p (x ∷ xs)
  unfolding place
  place-keep p level x [] = refl
  place-keep p level x (y ∷ ys) = elim (Bool-cases (less y x)) [
    | inl lt ↦ ground (arith, place-keep p level x ys, level x y, lt)
    | inr ge ↦ rw ge refl
  ]

  pub sort_stable-keep :
      (p : A → Bool)
      → ((x y : A) → p x ≡ true → p y ≡ true → less y x ≡ false)
      → (xs : List A) → keep p (sort_stable xs) ≡ keep p xs
  unfolding sort_stable
  sort_stable-keep p level [] = refl
  sort_stable-keep p level (x ∷ xs) =
      ground (arith, place-keep p level x (sort_stable xs), sort_stable-keep p level xs)

  module _ (asym : (x y : A) → less x y ≡ true → less y x ≡ false)
      (trans : (x y z : A) → less y x ≡ false → less z y ≡ false → less z x ≡ false) where
    weaken :
        (x y : A) (zs : List A)
        → less y x ≡ false
        → All (λ z. less z y ≡ false) zs
        → All (λ z. less z x ≡ false) zs
    weaken x y [] h hs = tt
    weaken x y (z ∷ zs) h hs = (trans x y z h hs.0, weaken x y zs h hs.1)

    place-IsSorted : (x : A) (xs : List A) → IsSorted xs → IsSorted (place x xs)
    unfolding place
    place-IsSorted x [] h = (tt, tt)
    place-IsSorted x (y ∷ ys) h = elim (Bool-cases (less y x)) [
      | inl lt ↦
          rw lt (place-All (λ z. less z y ≡ false) x ys (asym y x lt) h.0, place-IsSorted x ys h.1)
      | inr ge ↦ rw ge ((ge, weaken x y ys ge h.0), h)
    ]

    pub sort_stable-IsSorted : (xs : List A) → IsSorted (sort_stable xs)
    unfolding sort_stable
    sort_stable-IsSorted [] = tt
    sort_stable-IsSorted (x ∷ xs) = place-IsSorted x (sort_stable xs) (sort_stable-IsSorted xs)
