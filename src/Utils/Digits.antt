-- ===== src/Utils/Digits.antt =====
-- The digits that the number routines compute.
use multi_process.Base.{
  ℕ, zero, suc, ◌+◌, ◌/◌, ◌%◌, ◌≤◌, ◌<◌, ◌≡◌, ◌≢◌, refl, ap, ◌∙◌, Bool, true, false, ◌==◌, update,
  Bool-cases, inl, inr, ◌⊎◌, arith,
}
use multi_process.Base.Int.{with_sign, times_sign, pos_part}
use multi_process.Utils.{uint_digits, int_digits, skip_zeros}

-- `n` without its last `d` digits.
abbrev pub tenth : ℕ → ℕ → ℕ
tenth zero n = n
tenth (suc d) n = tenth d (n / 10)

pub tenth-suc : (d n : ℕ) → tenth (suc d) n ≡ tenth d n / 10
tenth-suc zero n = refl
tenth-suc (suc d) n = tenth-suc d (n / 10)

uint_digits-below :
    (n i num : ℕ) (temp : ℕ → ℕ) (j : ℕ) → j < i → uint_digits n i num temp j ≡ temp j
unfolding uint_digits
uint_digits-below zero i num temp j lt = refl
uint_digits-below (suc n) i num temp j lt =
    let far : (i == j) ≡ false = ground arith in
    uint_digits-below n (i + 1) (num / 10) _ j (omega arith) ∙ rw far refl

-- Entry `i + d` is the character of digit `d`.
pub uint_digits_lem :
    (n i num : ℕ) (temp : ℕ → ℕ) (d : ℕ)
    → d < n
    → uint_digits n i num temp (i + d) ≡ tenth d num % 10 + b'0'
unfolding uint_digits
uint_digits_lem zero i num temp d lt = elim lt [ ]
uint_digits_lem (suc n) i num temp zero lt =
    let here : (i == i + 0) ≡ true = ground arith in
    uint_digits-below n (i + 1) (num / 10) _ (i + 0) (omega arith) ∙ rw here refl
uint_digits_lem (suc n) i num temp (suc d) lt =
    ap (uint_digits n (i + 1) (num / 10) _) (omega arith)
    ∙ uint_digits_lem n (i + 1) (num / 10) _ d (omega arith)

pub uint_digits-zero : (n num : ℕ) (temp : ℕ → ℕ) → uint_digits n 1 num temp 0 ≡ temp 0
uint_digits-zero n num temp = uint_digits-below n 1 num temp 0 (omega arith)

times_sign_self : (d : ℕ) → pos_part (times_sign true (with_sign true d)) ≡ d
times_sign_self zero = refl
times_sign_self (suc d) = refl

-- The signed loop computes the digits of the magnitude.
pub int_digits-uint_digits :
    (n : ℕ) (negative : Bool) (i num : ℕ) (temp : ℕ → ℕ)
    → int_digits n negative i (with_sign negative num) temp ≡ uint_digits n i num temp
unfolding int_digits uint_digits
int_digits-uint_digits zero negative i num temp = refl
int_digits-uint_digits (suc n) false i num temp =
    int_digits-uint_digits n false (i + 1) (num / 10) _
int_digits-uint_digits (suc n) true i zero temp =
    int_digits-uint_digits n true (i + 1) 0 (update temp i b'0')
int_digits-uint_digits (suc n) true i (suc num) temp =
    ap (λ d. int_digits n true (i + 1) (with_sign true (suc num / 10)) (update temp i (d + b'0')))
      (times_sign_self (suc num % 10))
    ∙ int_digits-uint_digits n true (i + 1) (suc num / 10) (update temp i (suc num % 10 + b'0'))

-- Where the zeros end.
pub record Skipped (temp : ℕ → ℕ) (i r : ℕ) : Type 0 where
  pub within : r ≤ i
  pub zeros : (j : ℕ) → r < j → j ≤ i → temp j ≡ b'0'
  pub first : (r ≡ 0) ⊎ (temp r ≢ b'0')

pub skip_zeros-Skipped : (temp : ℕ → ℕ) (i : ℕ) → Skipped temp i (skip_zeros temp i)
unfolding skip_zeros
skip_zeros-Skipped temp zero = record {
  within = omega arith;
  zeros = λ j lt le. absurd (omega arith);
  first = inl refl;
}
skip_zeros-Skipped temp (suc i) = elim (Bool-cases (temp (suc i) == b'0')) [
  | inl zero_here ↦ rw zero_here (
      let s = skip_zeros-Skipped temp i in
      let le = s.within in
      record {
        within = omega arith;
        zeros = λ j lt le. elim (Bool-cases (j == suc i)) [
          | inl last ↦ let e : suc i ≡ j = ground arith in rw (← e) (ground arith)
          | inr before ↦ s.zeros j lt (ground arith)
        ];
        first = s.first;
      })
  | inr other ↦ rw other (record {
    within = omega arith;
    zeros = λ j lt le. absurd (omega arith);
    first = inr (λ e. ground arith);
  })
]
