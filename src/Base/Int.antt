-- ===== src/Base/Int.antt =====
-- The integers of C, with the division that cuts off the fraction.
use Prim.Native.Nat.{ℕ, zero, suc, ◌/◌, ◌%◌}
use mathlib.Core.Bool.{Bool, true, false}

-- `negsuc n` is -(n + 1).
pub data ℤ : Type 0 where
  pos : ℕ → ℤ
  negsuc : ℕ → ℤ

abbrev pub is_negative : ℤ → Bool
is_negative (pos n) = false
is_negative (negsuc n) = true

abbrev pub magnitude : ℤ → ℕ
magnitude (pos n) = n
magnitude (negsuc n) = suc n

-- `n`, or `-n`.
abbrev pub with_sign : Bool → ℕ → ℤ
with_sign false n = pos n
with_sign true zero = pos 0
with_sign true (suc n) = negsuc n

-- `z / d` and `z % d` for a positive `d`: both have the sign of `z`.
abbrev pub c_div : ℤ → ℕ → ℤ
c_div z d = with_sign (is_negative z) (magnitude z / d)

abbrev pub c_mod : ℤ → ℕ → ℤ
c_mod z d = with_sign (is_negative z) (magnitude z % d)

-- `z * sign`, where the sign is -1 if the flag is set.
abbrev pub times_sign : Bool → ℤ → ℤ
times_sign false z = z
times_sign true (pos n) = with_sign true n
times_sign true (negsuc n) = pos (suc n)

-- The value of a number that is not negative.
abbrev pub pos_part : ℤ → ℕ
pos_part (pos n) = n
pos_part (negsuc n) = 0
