-- ===== src/Utils/Numbers.antt =====
-- The strings that the number routines write, read back.
use multi_process.Base.{
  ℕ, zero, suc, ◌+◌, ◌-◌, ◌*◌, ◌%◌, ◌^◌, ◌≤◌, ◌<◌, ◌≡◌, ◌≢◌, refl, sym, ap, ◌∙◌, Bool, true, false,
  ◌==◌, update, Bool-cases, inl, inr, ◌⊎◌, arith, word,
}
use mathlib.Core.Path.{subst}
use multi_process.Base.Int.{ℤ, pos, negsuc, with_sign, magnitude}
use multi_process.Utils.{
  blank_temp, uint_digits, int_digits, skip_zeros, at_least_one, copy_back, uint2str, copy_signed,
  int2str,
}
use multi_process.Utils.Digits.{
  tenth, tenth-suc, uint_digits_lem, uint_digits-zero, int_digits-uint_digits, skip_zeros-Skipped,
}

-- What the last `i + 1` entries, copied backwards, leave in the memory.
record Reversed (temp : ℕ → ℕ) (i : ℕ) (m : ℕ → ℕ) (str : ℕ) (m' : ℕ → ℕ) : Type 0 where
  copied : (j : ℕ) → j ≤ i → m' (str + j) ≡ temp (i - j)
  kept : (x : ℕ) → (x < str) ⊎ (str + i < x) → m' x ≡ m x

copy_back-Reversed :
    (temp : ℕ → ℕ) (i : ℕ) (m : ℕ → ℕ) (str : ℕ) → Reversed temp i m str (copy_back temp i m str)
unfolding copy_back
copy_back-Reversed temp zero m str = record {
  copied =
      λ j le. let here : (str == str + j) ≡ true = ground arith in rw here (ap temp (omega arith));
  kept = λ x out. let far : (str == x) ≡ false = ground arith in rw far refl;
}
copy_back-Reversed temp (suc i) m str =
    let r = copy_back-Reversed temp i (update m str (temp (suc i))) (str + 1) in
    record {
      copied = reversed temp i m str r;
      kept = λ x out.
          r.kept x (ground arith) ∙ (let far : (str == x) ≡ false = ground arith in rw far refl);
    }
  where
    reversed :
        (temp : ℕ → ℕ) (i : ℕ) (m : ℕ → ℕ) (str : ℕ)
        → Reversed temp i
            (update m str (temp (suc i)))
            (str + 1)
            (copy_back temp i (update m str (temp (suc i))) (str + 1))
        → (j : ℕ) → j ≤ suc i
        → copy_back temp i (update m str (temp (suc i))) (str + 1) (str + j) ≡ temp (suc i - j)
    reversed temp i m str r zero le =
        let here : (str == str + 0) ≡ true = ground arith in
        r.kept (str + 0) (inl (omega arith)) ∙ rw here (ap temp (omega arith))
    reversed temp i m str r (suc j) le =
        ap (copy_back temp i (update m str (temp (suc i))) (str + 1)) (omega arith)
        ∙ r.copied j (omega arith)
        ∙ ap temp (omega arith)

-- The value of `k` digits at `p`, behind digits of value `acc`.
abbrev pub value : (ℕ → ℕ) → ℕ → ℕ → ℕ → ℕ
value m zero p acc = acc
value m (suc k) p acc = value m k (p + 1) (acc * 10 + (m p - b'0'))

-- A string of `k` decimal digits at `p`, at most ten and without needless zeros, of value `n`.
pub record Decimal (m : ℕ → ℕ) (p k n : ℕ) : Type 0 where
  pub nonempty : 1 ≤ k
  pub within : k ≤ 10
  pub digits : (j : ℕ) → j < k → (b'0' ≤ m (p + j)) × (m (p + j) ≤ b'9')
  pub terminator : m (p + k) ≡ 0
  pub leading : (k ≡ 1) ⊎ (m p ≢ b'0')
  pub reads : value m k p 0 ≡ n

-- The entries of `temp` from 1 on are the digits of `n`.
record Holds (temp : ℕ → ℕ) (n : ℕ) : Type 0 where
  zeroth : temp 0 ≡ 0
  digit : (d : ℕ) → d < 10 → temp (1 + d) ≡ tenth d n % 10 + b'0'

uint_digits-Holds : (n : ℕ) → Holds (uint_digits 10 1 n blank_temp) n
uint_digits-Holds n = record {
  zeroth = uint_digits-zero 10 n blank_temp;
  digit = λ d lt. uint_digits_lem 10 1 n blank_temp d lt;
}

int_digits-Holds :
    (negative : Bool) (n : ℕ) → Holds (int_digits 10 negative 1 (with_sign negative n) blank_temp) n
int_digits-Holds negative n =
    subst (λ t. Holds t n) (sym (int_digits-uint_digits 10 negative 1 n blank_temp))
      (uint_digits-Holds n)

-- Digits above the place where the zeros end are no part of the number.
tenth-zeros :
    (temp : ℕ → ℕ) (n r k : ℕ)
    → Holds temp n
    → ((j : ℕ) → r < j → j ≤ 10 → temp j ≡ b'0')
    → n < 10 ^ 10
    → r + k ≡ 10
    → tenth r n ≡ 0
tenth-zeros temp n r zero h zeros small e = let top : r ≡ 10 = omega arith in rw top (omega arith)
tenth-zeros temp n r (suc k) h zeros small e = omega (
  arith,
  tenth-zeros temp n (suc r) k h (λ j lt le. zeros j (omega arith) le) small (omega arith),
  tenth-suc r n,
  h.digit r (omega arith),
  zeros (1 + r) (omega arith) (omega arith),
)

-- The top digits of `n`, from the one after digit `r + k`, have the value of `n` without the others.
value-tenth :
    (m temp : ℕ → ℕ) (n p k acc : ℕ)
    → Holds temp n
    → k ≤ 10
    → ((j : ℕ) → j < k → m (p + j) ≡ temp (k - j))
    → acc ≡ tenth k n
    → value m k p acc ≡ n
value-tenth m temp n p zero acc h le at e = e
value-tenth m temp n p (suc k) acc h le at e =
    value-tenth m temp n (p + 1) k (acc * 10 + (m p - b'0')) h (omega arith)
      (λ j lt. ap m (omega arith) ∙ at (suc j) (omega arith) ∙ ap temp (omega arith))
      (let c : m p ≡ tenth k n % 10 + b'0' =
          ap m (omega arith)
          ∙ at 0 (omega arith)
          ∙ ap temp (omega arith)
          ∙ h.digit k (omega arith) in
        omega (arith, e, c, tenth-suc k n))

-- The place from which the digits are copied.
record Top (temp : ℕ → ℕ) (n r : ℕ) : Type 0 where
  low : 1 ≤ r
  high : r ≤ 10
  above : tenth r n ≡ 0
  leading : (r ≡ 1) ⊎ (temp r ≢ b'0')

at_least_one-Top :
    (temp : ℕ → ℕ) (n : ℕ)
    → Holds temp n
    → n < 10 ^ 10
    → Top temp n (at_least_one (skip_zeros temp 10))
unfolding at_least_one
at_least_one-Top temp n h small =
    let r = skip_zeros temp 10 in
    let s = skip_zeros-Skipped temp 10 in
    let le = s.within in
    let none_above = tenth-zeros temp n r (10 - r) h s.zeros small (omega arith) in
    elim (Bool-cases (r == 0)) [
      | inl all ↦
          let e : r ≡ 0 = ground arith in
          let n_zero : tenth 0 n ≡ 0 = ap (λ k. tenth k n) (sym e) ∙ none_above in
          rw all (record {
            low = omega arith;
            high = omega arith;
            above =
                let one : r + 1 ≡ 1 = omega arith in
                ap (λ k. tenth k n) one ∙ omega (arith, tenth-suc 0 n, n_zero);
            leading = inl (omega arith);
          })
      | inr some_left ↦ rw some_left (record {
        low = ground arith;
        high = le;
        above = none_above;
        leading = elim s.first [ inl z ↦ absurd (ground arith) | inr ne ↦ inr ne ];
      })
    ]

Decimal-Reversed :
    (temp : ℕ → ℕ) (n r : ℕ) (m' : ℕ → ℕ) (p : ℕ)
    → Holds temp n
    → Top temp n r
    → ((j : ℕ) → j ≤ r → m' (p + j) ≡ temp (r - j))
    → Decimal m' p r n
Decimal-Reversed temp n r m' p h t at =
    let low = t.low in
    let high = t.high in
    record {
      nonempty = low;
      within = high;
      digits = λ j lt.
          let c : m' (p + j) ≡ tenth (r - j - 1) n % 10 + b'0' =
            at j (omega arith) ∙ ap temp (omega arith) ∙ h.digit (r - j - 1) (omega arith) in
          (omega arith, omega arith);
      terminator = at r (omega arith) ∙ ap temp (omega arith) ∙ h.zeroth;
      leading = elim t.leading [
        | inl one ↦ inl one
        | inr ne ↦
            inr
              (λ e. ne (sym (ap m' (omega arith) ∙ at 0 (omega arith) ∙ ap temp (omega arith)) ∙ e))
      ];
      reads = value-tenth m' temp n p r 0 h high (λ j lt. at j (omega arith)) (sym t.above);
    }

-- `uint2str` writes the decimal digits of the number, at most ten and no needless zeros, and a 0;
-- read back, they are the number. No other byte is written, so at most 11.
pub uint2str-Decimal :
    (num : ℕ) (m : ℕ → ℕ) (str : ℕ)
    → num < word
    → (k : ℕ) × Decimal (uint2str num m str) str k num
      × ((x : ℕ) → (x < str) ⊎ (str + k < x) → uint2str num m str x ≡ m x)
unfolding uint2str
uint2str-Decimal num m str small =
    let temp = uint_digits 10 1 num blank_temp in
    let r = at_least_one (skip_zeros temp 10) in
    let h = uint_digits-Holds num in
    let c = copy_back-Reversed temp r m str in
    (
      r,
      Decimal-Reversed temp num r _ str h (at_least_one-Top temp num h (omega arith)) c.copied,
      c.kept,
    )

copy_signed-negative :
    (temp : ℕ → ℕ) (r : ℕ) (m : ℕ → ℕ) (str j : ℕ)
    → j ≤ r
    → copy_signed true temp r m str (str + 1 + j) ≡ temp (r - j)
unfolding copy_signed
copy_signed-negative temp r m str j le =
    let c = copy_back-Reversed (update temp (r + 1) b'-') (r + 1) m str in
    let far : (r + 1 == r - j) ≡ false = ground arith in
    let e : r + 1 - suc j ≡ r - j = omega arith in
    ap (copy_signed true temp r m str) (omega arith)
    ∙ c.copied (suc j) (omega arith)
    ∙ ap (update temp (r + 1) b'-') e
    ∙ rw far refl

copy_signed-sign :
    (temp : ℕ → ℕ) (r : ℕ) (m : ℕ → ℕ) (str : ℕ) → copy_signed true temp r m str str ≡ b'-'
unfolding copy_signed
copy_signed-sign temp r m str =
    let c = copy_back-Reversed (update temp (r + 1) b'-') (r + 1) m str in
    let here : (r + 1 == r + 1) ≡ true = ground arith in
    let e : r + 1 - 0 ≡ r + 1 = omega arith in
    ap (copy_signed true temp r m str) (omega arith)
    ∙ c.copied 0 (omega arith)
    ∙ ap (update temp (r + 1) b'-') e
    ∙ rw here refl

copy_signed-kept :
    (temp : ℕ → ℕ) (r : ℕ) (m : ℕ → ℕ) (str x : ℕ)
    → (x < str) ⊎ (str + 1 + r < x)
    → copy_signed true temp r m str x ≡ m x
unfolding copy_signed
copy_signed-kept temp r m str x out =
    (copy_back-Reversed (update temp (r + 1) b'-') (r + 1) m str).kept x (ground arith)

-- A string at `p` of `k` decimal digits, behind a minus sign if the number is negative.
abbrev pub Signed : (ℕ → ℕ) → ℕ → ℕ → ℤ → Type 0
Signed m p k (pos n) = Decimal m p k n
Signed m p k (negsuc n) = (m p ≡ b'-') × Decimal m (p + 1) k (suc n)

-- The length of such a string.
abbrev pub signed_length : ℕ → ℤ → ℕ
signed_length k (pos n) = k
signed_length k (negsuc n) = k + 1

-- `int2str` writes the decimal digits of an int, the least one included, behind a minus sign if it
-- is negative, and a 0; read back, they are the number. No other byte is written, so at most 12.
pub int2str-Signed :
    (num : ℤ) (m : ℕ → ℕ) (str : ℕ)
    → magnitude num ≤ 2 ^ 31
    → (k : ℕ) × Signed (int2str num m str) str k num
      × ((x : ℕ) → (x < str) ⊎ (str + signed_length k num < x) → int2str num m str x ≡ m x)
unfolding int2str
int2str-Signed (pos n) m str small =
    let temp = int_digits 10 false 1 (pos n) blank_temp in
    let r = at_least_one (skip_zeros temp 10) in
    let h = int_digits-Holds false n in
    let c = copy_back-Reversed temp r m str in
    (
      r,
      Decimal-Reversed temp n r _ str h (at_least_one-Top temp n h (omega arith)) c.copied,
      c.kept,
    )
int2str-Signed (negsuc n) m str small =
    let temp = int_digits 10 true 1 (negsuc n) blank_temp in
    let r = at_least_one (skip_zeros temp 10) in
    let h = int_digits-Holds true (suc n) in
    (
      r,
      (
        copy_signed-sign temp r m str,
        Decimal-Reversed temp (suc n) r _ (str + 1) h
            (at_least_one-Top temp (suc n) h (omega arith)) (copy_signed-negative temp r m str),
      ),
      λ x out. copy_signed-kept temp r m str x (ground arith),
    )
