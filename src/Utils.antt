-- ===== src/Utils.antt =====
-- The routines of utils.C on bytes and strings. The memory is a function of the address.
pub mod Strings
pub mod Digits
pub mod Numbers
mod Tests
use multi_process.Base.{
  ℕ, zero, suc, ◌+◌, ◌/◌, ◌%◌, Bool, true, false, List, [], ◌∷◌, Option, none, some, ◌==◌,
  if◌then◌else◌, update,
}
use multi_process.Base.Int.{ℤ, is_negative, c_div, c_mod, times_sign, pos_part}

-- `memset`, upwards, for `count` bytes.
unfoldable pub memset : (ℕ → ℕ) → ℕ → ℕ → ℕ → ℕ → ℕ
memset m dest val zero = m
memset m dest val (suc count) = memset (update m dest val) (dest + 1) val count

-- `strlen`: the loop takes fuel, one round for each character and one for the 0 at the end, and
-- `none` is a loop that still runs.
unfoldable pub strlen : ℕ → (ℕ → ℕ) → ℕ → ℕ → Option ℕ
strlen zero m str len = none
strlen (suc fuel) m str len =
    let rest = strlen fuel m (str + 1) (len + 1) in if m str == 0 then some len else rest

-- `strcpy`, on the same fuel.
unfoldable pub strcpy : ℕ → (ℕ → ℕ) → ℕ → ℕ → Option (ℕ → ℕ)
strcpy zero m dst src = none
strcpy (suc fuel) m dst src =
    let rest = strcpy fuel (update m dst (m src)) (dst + 1) (src + 1) in
    if m src == 0 then some (update m dst 0) else rest

-- `temp` of the number routines; every entry that is read is written before.
abbrev pub blank_temp : ℕ → ℕ
blank_temp = update (λ _. 0) 0 0

-- `for(i = 1; i <= 10; i++)` of `uint2str`, with the rounds left.
unfoldable pub uint_digits : ℕ → ℕ → ℕ → (ℕ → ℕ) → ℕ → ℕ
uint_digits zero i num temp = temp
uint_digits (suc n) i num temp = uint_digits n (i + 1) (num / 10) (update temp i (num % 10 + b'0'))

-- The same of `int2str`; the flag says that `sign` is -1.
unfoldable pub int_digits : ℕ → Bool → ℕ → ℤ → (ℕ → ℕ) → ℕ → ℕ
int_digits zero negative i num temp = temp
int_digits (suc n) negative i num temp =
    int_digits n negative (i + 1) (c_div num 10)
      (update temp i (pos_part (times_sign negative (c_mod num 10)) + b'0'))

-- `for(i = 10; temp[i] == '0'; i--);` from `i` on; `temp[0]` is the terminator.
unfoldable pub skip_zeros : (ℕ → ℕ) → ℕ → ℕ
skip_zeros temp zero = zero
skip_zeros temp (suc i) = if temp (suc i) == b'0' then skip_zeros temp i else suc i

-- `if( i == 0 ) i++;`
unfoldable pub at_least_one : ℕ → ℕ
at_least_one i = if i == 0 then i + 1 else i

-- `while( i >= 0 ) *_str++ = temp[i--];`
unfoldable pub copy_back : (ℕ → ℕ) → ℕ → (ℕ → ℕ) → ℕ → ℕ → ℕ
copy_back temp zero m str = update m str (temp zero)
copy_back temp (suc i) m str = copy_back temp i (update m str (temp (suc i))) (str + 1)

unfoldable pub uint2str : ℕ → (ℕ → ℕ) → ℕ → ℕ → ℕ
unfolding uint_digits skip_zeros at_least_one copy_back
uint2str num m str =
    let temp = uint_digits 10 1 num blank_temp in
    copy_back temp (at_least_one (skip_zeros temp 10)) m str

-- `temp[++i] = '-'`, if the sign is -1, and the copy.
unfoldable pub copy_signed : Bool → (ℕ → ℕ) → ℕ → (ℕ → ℕ) → ℕ → ℕ → ℕ
unfolding copy_back
copy_signed false temp i m str = copy_back temp i m str
copy_signed true temp i m str = copy_back (update temp (i + 1) b'-') (i + 1) m str

unfoldable pub int2str : ℤ → (ℕ → ℕ) → ℕ → ℕ → ℕ
unfolding int_digits skip_zeros at_least_one copy_signed
int2str num m str =
    let temp = int_digits 10 (is_negative num) 1 num blank_temp in
    copy_signed (is_negative num) temp (at_least_one (skip_zeros temp 10)) m str

-- The characters up to the 0 that ends the string at `p`, on fuel.
unfoldable pub c_string : ℕ → (ℕ → ℕ) → ℕ → List ℕ
c_string zero m p = []
c_string (suc fuel) m p = if m p == 0 then [] else m p ∷ c_string fuel m (p + 1)
