-- ===== src/Prelude/Numbers.antt =====
-- Signed numbers, and numbers as texts.
use Prim.Native.Nat.{ℕ, zero, suc, ◌+◌, ◌-◌, ◌/◌, ◌%◌}
use Prim.Native.String.{String}
use mathlib.Core.Bool.{Bool, true, false}
use mathlib.Core.List.{[], ◌∷◌}
use kube_assist_operator.Prelude.Tests.{ltb, eqb, if◌then◌else◌}
use kube_assist_operator.Prelude.Texts.{concat}

-- A Go int: `negsuc n` is -(n + 1).
pub data ℤ : Type 0 where
  pos negsuc : ℕ → ℤ

abbrev pub is_negative : ℤ → Bool
is_negative (pos n) = false
is_negative (negsuc n) = true

-- The absolute value.
abbrev pub magnitude : ℤ → ℕ
magnitude (pos n) = n
magnitude (negsuc n) = n + 1

-- The difference of two numbers.
abbrev pub difference : ℕ → ℕ → ℤ
difference m n = if ltb m n then negsuc (n - m - 1) else pos (m - n)

infixl 60 ◌+ℤ◌
abbrev pub ◌+ℤ◌ : ℤ → ℤ → ℤ
pos m +ℤ pos n = pos (m + n)
pos m +ℤ negsuc n = difference m (n + 1)
negsuc m +ℤ pos n = difference n (m + 1)
negsuc m +ℤ negsuc n = negsuc (m + n + 1)

unfoldable pub digit : ℕ → String
digit d =
    if ltb d 5
    then (if eqb d 0
        then "0"
        else (if eqb d 1 then "1" else (if eqb d 2 then "2" else (if eqb d 3 then "3" else "4"))))
    else (if eqb d 5
        then "5"
        else (if eqb d 6 then "6" else (if eqb d 7 then "7" else (if eqb d 8 then "8" else "9"))))

-- With fuel for the digits; a number has fewer digits than its successor counts.
unfoldable pub show_from : ℕ → ℕ → String
unfolding digit concat
show_from zero n = ""
show_from (suc fuel) n =
    let high = show_from fuel (n / 10) in
    if ltb n 10 then digit n else concat (high ∷ digit (n % 10) ∷ [])

-- `%d`
unfoldable pub show : ℕ → String
unfolding show_from
show n = show_from (suc n) n

unfoldable pub show_int : ℤ → String
unfolding show concat
show_int (pos n) = show n
show_int (negsuc n) = concat ("-" ∷ show (n + 1) ∷ [])
