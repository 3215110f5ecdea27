-- ===== src/Console/Numbers.antt =====
-- Printed numbers read back.
use multi_process.Base.{
  ℕ, zero, suc, ◌+◌, ◌-◌, ◌*◌, ◌≤◌, ◌<◌, ◌^◌, ◌≡◌, ◌≢◌, refl, ap, ◌∙◌, true, false, List, [], ◌∷◌,
  ◌==◌, if◌then◌else◌, arith, word,
}
use multi_process.Base.Int.{ℤ, pos, negsuc, magnitude, with_sign}
use multi_process.Utils.{int2str, uint2str, c_string}
use multi_process.Utils.Numbers.{Decimal, value, uint2str-Decimal, int2str-Signed}
use multi_process.Console.Format.{int_text, uint_text}

-- The value of a list of digits behind digits of value `acc`.
abbrev pub read_digits : List ℕ → ℕ → ℕ
read_digits [] acc = acc
read_digits (ch ∷ s) acc = read_digits s (acc * 10 + (ch - b'0'))

-- The integer that a text stands for, a minus sign first if there is one.
abbrev pub read_int : List ℕ → ℤ
read_int [] = pos 0
read_int (ch ∷ s) =
    if ch == b'-' then with_sign true (read_digits s 0) else pos (read_digits (ch ∷ s) 0)

read_digits-c_string :
    (fuel : ℕ) (m : ℕ → ℕ) (p k acc : ℕ)
    → ((j : ℕ) → j < k → m (p + j) ≢ 0)
    → m (p + k) ≡ 0
    → k < fuel
    → read_digits (c_string fuel m p) acc ≡ value m k p acc
unfolding c_string
read_digits-c_string zero m p k acc chars end lt = absurd (omega arith)
read_digits-c_string (suc fuel) m p zero acc chars end lt =
    let here : m p ≡ 0 = ap m (omega arith) ∙ end in
    let stop : (m p == 0) ≡ true = ground arith in rw stop refl
read_digits-c_string (suc fuel) m p (suc k) acc chars end lt =
    let here : m p ≢ 0 = λ e. chars 0 (omega arith) (ap m (omega arith) ∙ e) in
    let go : (m p == 0) ≡ false = ground arith in
    rw go (
      read_digits-c_string fuel m (p + 1) k (acc * 10 + (m p - b'0'))
        (λ j h e. chars (suc j) (omega arith) (ap m (omega arith) ∙ e)) (ap m (omega arith) ∙ end)
        (omega arith))

Decimal-reads :
    (fuel : ℕ) (m : ℕ → ℕ) (p k n : ℕ)
    → Decimal m p k n
    → k < fuel
    → read_digits (c_string fuel m p) 0 ≡ n
Decimal-reads fuel m p k n d lt =
    read_digits-c_string fuel m p k 0 (λ j h e. omega (arith, d.digits j h, e)) d.terminator lt
    ∙ d.reads

-- What `putui` prints between its brackets is the number in decimal.
uint_text-reads : (n : ℕ) → n < word → read_digits (uint_text n) 0 ≡ n
unfolding uint_text
uint_text-reads n small =
    let (k, d, kept) = uint2str-Decimal n (λ _. 0) 0 small in
    let le = d.within in Decimal-reads 15 (uint2str n (λ _. 0) 0) 0 k n d (omega arith)

-- A string that starts with a digit has no sign.
read_int-unsigned :
    (fuel : ℕ) (m : ℕ → ℕ) (p k n : ℕ)
    → Decimal m p k n
    → k < suc fuel
    → read_int (c_string (suc fuel) m p) ≡ pos n
unfolding c_string
read_int-unsigned fuel m p k n d lt =
    let pos_k = d.nonempty in
    let (lo, hi) = d.digits 0 (omega arith) in
    let same : m (p + 0) ≡ m p = ap m (omega arith) in
    let go : (m p == 0) ≡ false = ground arith in
    let digit : (m p == b'-') ≡ false = ground arith in
    let reads = Decimal-reads (suc fuel) m p k n d lt in rw (go, digit) (ap pos (rw go at reads))

read_int-signed :
    (fuel : ℕ) (m : ℕ → ℕ) (p k n : ℕ)
    → m p ≡ b'-'
    → Decimal m (p + 1) k (suc n)
    → k < fuel
    → read_int (c_string (suc fuel) m p) ≡ negsuc n
unfolding c_string
read_int-signed fuel m p k n minus d lt =
    rw minus (ap (with_sign true) (Decimal-reads fuel m (p + 1) k (suc n) d lt))

-- What `puti` prints for an int, the least one included, is the number in decimal, behind a minus
-- sign if it is negative.
pub int_text-reads : (n : ℤ) → magnitude n ≤ 2 ^ 31 → read_int (int_text n) ≡ n
unfolding int_text
int_text-reads (pos n) small =
    let (k, d, kept) = int2str-Signed (pos n) (λ _. 0) 0 small in
    let le = d.within in read_int-unsigned 14 (int2str (pos n) (λ _. 0) 0) 0 k n d (omega arith)
int_text-reads (negsuc n) small =
    let (k, (minus, d), kept) = int2str-Signed (negsuc n) (λ _. 0) 0 small in
    let le = d.within in
    read_int-signed 14 (int2str (negsuc n) (λ _. 0) 0) 0 k n minus d (omega arith)
