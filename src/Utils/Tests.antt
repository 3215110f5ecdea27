-- ===== src/Utils/Tests.antt =====
-- Strings and numbers in a small memory.
use multi_process.Base.{ℕ, ◌+◌, ◌<◌, ◌≡◌, ◌⊎◌, refl, [], ◌∷◌, ◌==◌, if◌then◌else◌, arith}
use multi_process.Base.Int.{negsuc}
use multi_process.Utils.{uint2str, int2str, c_string}
use multi_process.Utils.Numbers.{Decimal, uint2str-Decimal}

-- "Hi" at 4.
abbrev memory : ℕ → ℕ
memory x = if x == 4 then b'H' else if x == 5 then b'i' else 0

-- The least int.
least :
    c_string 15 (int2str (negsuc 2147483647) memory 20) 20
    ≡ b'-' ∷ b'2' ∷ b'1' ∷ b'4' ∷ b'7' ∷ b'4' ∷ b'8' ∷ b'3' ∷ b'6' ∷ b'4' ∷ b'8' ∷ []
unfolding c_string int2str
least = refl

uint2str-Decimal_example :
    (k : ℕ) × Decimal (uint2str 4096 memory 20) 20 k 4096
    × ((x : ℕ) → (x < 20) ⊎ (20 + k < x) → uint2str 4096 memory 20 x ≡ memory x)
uint2str-Decimal_example = uint2str-Decimal 4096 memory 20 (omega arith)
