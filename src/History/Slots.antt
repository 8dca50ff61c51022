-- ===== src/History/Slots.antt =====
-- The indices of the ring: where the i-th oldest snapshot lies, before and after an addition.
use kube_assist_operator.Prelude.{ℕ, ◌+◌, ◌-◌, ◌%◌, ◌≤◌, ◌<◌, ◌≡◌, ◌≢◌, ltb, if◌then◌else◌, arith}
use native.Mathlib.Nat.{mod-eq_of_lt, mod-eq-sub-mod}
use native.Mathlib.Decide.{dec_lt}

-- The code's index of the i-th of `count` snapshots.
abbrev pub slot : ℕ → ℕ → ℕ → ℕ → ℕ
slot cap head count i = ((head + cap - count) % cap + i) % cap

-- A remainder of a number below twice the modulus.
pub mod-wrap : (a cap : ℕ) → a < cap + cap → a % cap ≡ (if ltb a cap then a else a - cap)
mod-wrap a cap h = elim (dec_lt a cap) [
  | yes p ↦ ground (arith, mod-eq_of_lt p)
  | no p ↦ ground (
    arith,
    mod-eq-sub-mod {n = a} {m = cap} (omega arith),
    mod-eq_of_lt {n = a - cap} {m = cap} (omega arith),
  )
]

module _ (cap head : ℕ) (inside : head < cap) where
  -- The slot in terms of a comparison, without remainders.
  pub slot-eq :
      (count i : ℕ)
      → count ≤ cap
      → i < count
      → slot cap head count i
        ≡ (if ltb (head + i) count then head + cap + i - count else head + i - count)
  slot-eq count i c h =
      ground
        (arith, mod-wrap (head + cap - count) cap, mod-wrap ((head + cap - count) % cap + i) cap)

  pub slot-lt : (count i : ℕ) → count ≤ cap → i < count → slot cap head count i < cap
  slot-lt count i c h = ground (arith, slot-eq count i c h)

  pub next-lt : (head + 1) % cap < cap
  next-lt = ground (arith, mod-wrap (head + 1) cap)

module _ (cap head : ℕ) (inside : head < cap) where
  -- After an addition to a ring that is not full, each snapshot keeps its slot.
  pub slot-grow :
      (count i : ℕ)
      → count < cap
      → i < count
      → (slot cap ((head + 1) % cap) (count + 1) i ≡ slot cap head count i)
        × (slot cap head count i ≢ head)
  slot-grow count i c h = ground (
    arith,
    slot-eq cap head inside count i,
    slot-eq cap ((head + 1) % cap) (next-lt cap head inside) (count + 1) i,
    mod-wrap (head + 1) cap,
  )

  -- After an addition to a full ring, each but the oldest keeps its slot.
  pub slot-shift :
      (i : ℕ)
      → i + 1 < cap
      → (slot cap ((head + 1) % cap) cap i ≡ slot cap head cap (i + 1))
        × (slot cap head cap (i + 1) ≢ head)
  slot-shift i h = ground (
    arith,
    slot-eq cap head inside cap (i + 1),
    slot-eq cap ((head + 1) % cap) (next-lt cap head inside) cap i,
    mod-wrap (head + 1) cap,
  )

  -- The new one lies where the head was.
  pub slot-new :
      (count : ℕ) → 0 < count → count ≤ cap → slot cap ((head + 1) % cap) count (count - 1) ≡ head
  slot-new count p c = ground (
    arith,
    slot-eq cap ((head + 1) % cap) (next-lt cap head inside) count (count - 1),
    mod-wrap (head + 1) cap,
  )

  -- The last `m` of `count` snapshots lie in the slots that a ring of only those would use.
  pub slot-suffix :
      (count m i : ℕ)
      → count ≤ cap
      → m ≤ count
      → i < m
      → slot cap head m i ≡ slot cap head count (count - m + i)
  slot-suffix count m i c h k =
      ground (arith, slot-eq cap head inside m i, slot-eq cap head inside count (count - m + i))

  -- The index that `Latest` reads.
  pub slot-latest :
      (count : ℕ)
      → 0 < count
      → count ≤ cap
      → (head + cap - 1) % cap ≡ slot cap head count (count - 1)
  slot-latest count p c =
      ground (arith, mod-wrap (head + cap - 1) cap, slot-eq cap head inside count (count - 1))
