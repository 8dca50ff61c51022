-- ===== src/History.antt =====
-- internal/history/ringbuffer.go: the history of health snapshots, a ring of fixed capacity.
-- The lock makes each method atomic. The score of a snapshot is a float, here a parameter type.
-- An index out of range and a negative length panic: the outer `none` of a result.
pub mod Slots
pub mod Refine
pub mod Reads
mod Tests
use kube_assist_operator.Prelude.{
  ℕ, zero, suc, ◌+◌, ◌-◌, ◌%◌, Bool, not, Option, none, some, List, [], ◌∷◌, String, leb, ltb, eqb,
  if◌then◌else◌, get_elem?, set, replicate, length,
}

-- An int: `negsuc n` is -(n + 1).
pub data ℤ : Type 0 where
  pos : ℕ → ℤ
  negsuc : ℕ → ℤ

pub record HealthSnapshot (F : Type 0) : Type 0 where
  pub timestamp : ℕ
  pub total_healthy : ℕ
  pub total_issues : ℕ
  pub by_severity : List (String × ℕ)
  pub by_checker : List (String × ℕ)
  pub health_score : F

pub record RingBuffer (F : Type 0) : Type 0 where
  pub buf : List (HealthSnapshot F)
  pub capacity : ℕ
  pub head : ℕ
  pub count : ℕ

module _ {F : Type 0} where
  -- The zero value of a snapshot, given that of a float.
  abbrev pub zero_snapshot : F → HealthSnapshot F
  zero_snapshot z = record {
    timestamp = 0;
    total_healthy = 0;
    total_issues = 0;
    by_severity = [];
    by_checker = [];
    health_score = z;
  }

  -- `New`, the floor of 1 included; a negative capacity is treated like 0.
  unfoldable pub new : F → ℕ → RingBuffer F
  new z capacity =
      let cap = if ltb capacity 1 then 1 else capacity in
      record { buf = replicate cap (zero_snapshot z); capacity = cap; head = 0; count = 0 }

  -- `rb.buf[rb.head] = s` panics out of range.
  unfoldable pub add : RingBuffer F → HealthSnapshot F → Option (RingBuffer F)
  add rb s =
      if ltb rb.head (length rb.buf)
      then some (record rb {
        buf = set rb.buf rb.head s;
        head = (rb.head + 1) % rb.capacity;
        count = if ltb rb.count rb.capacity then rb.count + 1 else rb.count;
      })
      else none

  -- The inner `none` is the `false` of the code.
  unfoldable pub latest : RingBuffer F → Option (Option (HealthSnapshot F))
  latest rb =
      if eqb rb.count 0
      then some none
      else elim (get_elem? rb.buf ((rb.head + rb.capacity - 1) % rb.capacity)) [
        | none ↦ none
        | some s ↦ some (some s)
      ]

  -- The loop of `Last`: `rb.buf[(start+i)%rb.capacity]` for the `n` values of `i` from `i` on.
  unfoldable pub read_from : RingBuffer F → ℕ → ℕ → ℕ → Option (List (HealthSnapshot F))
  read_from rb start i zero = some []
  read_from rb start i (suc n) =
      let rest = read_from rb start (i + 1) n in
      elim (get_elem? rb.buf ((start + i) % rb.capacity)) [
        | none ↦ none
        | some s ↦ elim rest [ none ↦ none | some ss ↦ some (s ∷ ss) ]
      ]

  unfoldable pub last_n : RingBuffer F → ℕ → Option (List (HealthSnapshot F))
  last_n rb n =
      let m = if ltb rb.count n then rb.count else n in
      if eqb m 0 then some [] else read_from rb ((rb.head + rb.capacity - m) % rb.capacity) 0 m

  -- `make` panics on a negative length.
  unfoldable pub last : RingBuffer F → ℤ → Option (List (HealthSnapshot F))
  unfolding last_n
  last rb (pos n) = last_n rb n
  last rb (negsuc n) = none

  -- The loop of `Since`, which appends the snapshots that are not before `t`.
  unfoldable pub since_from : RingBuffer F → ℕ → ℕ → ℕ → ℕ → Option (List (HealthSnapshot F))
  since_from rb t start i zero = some []
  since_from rb t start i (suc n) =
      let rest = since_from rb t start (i + 1) n in
      elim (get_elem? rb.buf ((start + i) % rb.capacity)) [
        | none ↦ none
        | some s ↦ elim rest [
          | none ↦ none
          | some ss ↦ some (if not (ltb s.timestamp t) then s ∷ ss else ss)
        ]
      ]

  unfoldable pub since : RingBuffer F → ℕ → Option (List (HealthSnapshot F))
  unfolding since_from
  since rb t =
      if eqb rb.count 0
      then some []
      else since_from rb t ((rb.head + rb.capacity - rb.count) % rb.capacity) 0 rb.count

  abbrev pub len : RingBuffer F → ℕ
  len rb = rb.count
