-- ===== src/Utils/Strings.antt =====
-- Strings that end in a 0.
use multi_process.Base.{
  ℕ, zero, suc, ◌+◌, ◌≤◌, ◌<◌, ◌≡◌, ◌≢◌, refl, sym, ap, ◌∙◌, true, false, some, ◌==◌, update, inl,
  ◌⊎◌, arith,
}
use multi_process.Utils.{strlen, strcpy}

-- A string of `n` characters stands at `p`.
pub record StringAt (m : ℕ → ℕ) (p n : ℕ) : Type 0 where
  pub characters : (i : ℕ) → i < n → m (p + i) ≢ 0
  pub terminator : m (p + n) ≡ 0

StringAt-next : (m : ℕ → ℕ) (p n : ℕ) → StringAt m p (suc n) → StringAt m (p + 1) n
StringAt-next m p n s = record {
  characters = λ i lt e. s.characters (suc i) (omega arith) (ap m (omega arith) ∙ e);
  terminator = ap m (omega arith) ∙ s.terminator;
}

StringAt-first : (m : ℕ → ℕ) (p n : ℕ) → StringAt m p (suc n) → m p ≢ 0
StringAt-first m p n s e = s.characters 0 (omega arith) (ap m (omega arith) ∙ e)

-- `strlen` returns the number of characters; a round more than there are characters is enough.
strlen_lem :
    (fuel : ℕ) (m : ℕ → ℕ) (p n len : ℕ)
    → StringAt m p n
    → n < fuel
    → strlen fuel m p len ≡ some (len + n)
unfolding strlen
strlen_lem zero m p n len s lt = absurd (omega arith)
strlen_lem (suc fuel) m p zero len s lt =
    let t : m p ≡ 0 = ap m (omega arith) ∙ s.terminator in
    let e : (m p == 0) ≡ true = ground arith in rw e (ap some (omega arith))
strlen_lem (suc fuel) m p (suc n) len s lt =
    let ne = StringAt-first m p n s in
    let e : (m p == 0) ≡ false = ground arith in
    rw e (
      strlen_lem fuel m (p + 1) n (len + 1) (StringAt-next m p n s) (omega arith)
      ∙ ap some (omega arith))

-- What `strcpy` leaves in the memory.
pub record Copied (m : ℕ → ℕ) (dst src n : ℕ) (m' : ℕ → ℕ) : Type 0 where
  pub copied : (i : ℕ) → i ≤ n → m' (dst + i) ≡ m (src + i)
  pub kept : (x : ℕ) → (x < dst) ⊎ (dst + n < x) → m' x ≡ m x

-- The first character in front of a copy.
characters-next :
    (m m' : ℕ → ℕ) (dst src n : ℕ)
    → ((i : ℕ) → i < suc (suc n) → update m dst (m src) (src + i) ≡ m (src + i))
    → Copied (update m dst (m src)) (dst + 1) (src + 1) n m'
    → (i : ℕ) → i ≤ suc n
    → m' (dst + i) ≡ m (src + i)
characters-next m m' dst src n far c zero le =
    let self : (dst == dst) ≡ true = ground arith in
    ap m' (omega arith) ∙ c.kept dst (inl (omega arith)) ∙ rw self (ap m (omega arith))
characters-next m m' dst src n far c (suc i) le =
    ap m' (omega arith)
    ∙ c.copied i (omega arith)
    ∙ ap (update m dst (m src)) (omega arith)
    ∙ far (suc i) (omega arith)

Copied-next :
    (m m' : ℕ → ℕ) (dst src n : ℕ)
    → ((i : ℕ) → i < suc (suc n) → update m dst (m src) (src + i) ≡ m (src + i))
    → Copied (update m dst (m src)) (dst + 1) (src + 1) n m'
    → Copied m dst src (suc n) m'
Copied-next m m' dst src n far c = record {
  copied = characters-next m m' dst src n far c;
  kept =
      λ x out. c.kept x (ground arith) ∙ (let no : (dst == x) ≡ false = ground arith in rw no refl);
}

-- `strcpy` copies a string with the 0 at its end to where it does not overlap, and changes nothing
-- else; a round more than there are characters is enough.
strcpy_lem :
    (fuel : ℕ) (m : ℕ → ℕ) (dst src n : ℕ)
    → StringAt m src n
    → (dst + n < src) ⊎ (src + n < dst)
    → n < fuel
    → (m' : ℕ → ℕ) × (strcpy fuel m dst src ≡ some m') × Copied m dst src n m'
unfolding strcpy
strcpy_lem zero m dst src n s apart lt = absurd (omega arith)
strcpy_lem (suc fuel) m dst src zero s apart lt =
    let t : m src ≡ 0 = ap m (omega arith) ∙ s.terminator in
    let e : (m src == 0) ≡ true = ground arith in
    (
      update m dst 0,
      rw e refl,
      record {
        copied = λ i le.
            let z : i ≡ 0 = omega arith in
            let self : (dst == dst + i) ≡ true = ground arith in
            rw self (sym s.terminator ∙ ap m (omega arith));
        kept = λ x out. let no : (dst == x) ≡ false = ground arith in rw no refl;
      },
    )
strcpy_lem (suc fuel) m dst src (suc n) s apart lt =
    let ne = StringAt-first m src n s in
    let e : (m src == 0) ≡ false = ground arith in
    let m1 = update m dst (m src) in
    let far : (i : ℕ) → i < suc (suc n) → m1 (src + i) ≡ m (src + i) =
      λ i h. let no : (dst == src + i) ≡ false = ground arith in rw no refl in
    let s1 : StringAt m1 src (suc n) = record {
      characters = λ i h q. s.characters i h (sym (far i (omega arith)) ∙ q);
      terminator = far (suc n) (omega arith) ∙ s.terminator;
    } in
    let (m', done, c) =
      strcpy_lem fuel m1 (dst + 1) (src + 1) n (StringAt-next m1 src n s1) (ground arith)
        (omega arith) in
    (m', rw e done, Copied-next m m' dst src n far c)
