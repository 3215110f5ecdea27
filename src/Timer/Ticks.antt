-- ===== src/Timer/Ticks.antt =====
-- The timer counts its interrupts.
use multi_process.Base.{
  sym, ap, word, add32, ℕ, zero, suc, ◌+◌, ◌*◌, ◌/◌, ◌%◌, ◌≤◌, ◌<◌, ◌≡◌, refl, false, ◌∙◌,
  Bool-cases, inl, inr, leb, arith,
}
use mathlib.Core.Path.{subst}
use native.Mathlib.Nat
use multi_process.Timer.{Timer, set_frequency, current, construct, handle_interrupt, waits}

abbrev pub interrupts : ℕ → Timer → Timer
interrupts zero t = t
interrupts (suc n) t = interrupts n (handle_interrupt t)

-- The interrupts counted so far.
abbrev pub counted : Timer → ℕ
counted t = t.seconds * t.hz + t.ticks

pub record IsValid (t : Timer) : Type 0 where
  pub runs : 0 < t.hz
  pub below : t.ticks < t.hz

record Step (t t' : Timer) : Type 0 where
  same : t'.hz ≡ t.hz
  one : counted t' ≡ counted t + 1
  up : t'.seconds ≤ t.seconds + 1
  valid : IsValid t'

handle_interrupt-Step : (t : Timer) → IsValid t → t.seconds + 1 < word → Step t (handle_interrupt t)
unfolding handle_interrupt
handle_interrupt-Step t v small =
    let r = v.runs in
    let b = v.below in
    let at : add32 (t.seconds) 1 ≡ t.seconds + 1 = ground arith in
    elim (Bool-cases (leb (t.hz) (t.ticks + 1))) [
      | inl wrap ↦
          let e : t.ticks + 1 ≡ t.hz = ground arith in
          rw (wrap, at)
            (record {
              same = refl;
              one = grind arith;
              up = omega arith;
              valid = record { runs = r; below = r };
            })
      | inr go ↦ rw go (record {
        same = refl;
        one = omega arith;
        up = omega arith;
        valid = record { runs = r; below = ground arith };
      })
    ]

-- However many interrupts there are, as long as the seconds cannot wrap, the seconds and the ticks
-- together have counted each of them, and the ticks stay below the frequency.
interrupts_lem :
    (n : ℕ) (t : Timer)
    → IsValid t
    → t.seconds + n < word
    → IsValid (interrupts n t)
      × ((interrupts n t).hz ≡ t.hz)
      × (counted (interrupts n t) ≡ counted t + n)
interrupts_lem zero t v small = (v, refl, omega arith)
interrupts_lem (suc n) t v small =
    let s = handle_interrupt-Step t v (omega arith) in
    let u = s.up in
    let (valid, same, count) = interrupts_lem n (handle_interrupt t) (s.valid) (omega arith) in
    (valid, same ∙ s.same, count ∙ ap (λ k. k + n) (s.one) ∙ omega arith)

-- Quotient and remainder are determined by the sum.
quotient : (m n q r : ℕ) → r < m → q * m + r ≡ n → (q ≡ n / m) × (r ≡ n % m)
quotient m n q r lt e =
    let pos : 0 < m = omega arith in
    (
      sym (rw (sym e, Nat.mul-add-div_right pos q r, Nat.div-eq_of_lt lt) omega arith),
      let d = Nat.div-add-mod' n m in
          let a : n / m ≡ q =
            rw (sym e, Nat.mul-add-div_right pos q r, Nat.div-eq_of_lt lt) omega arith in
          omega (arith, subst (λ k. k * m + n % m ≡ n) a d),
    )

-- A new timer of positive frequency shows, after `n` interrupts, `n / hz` seconds and `n % hz`
-- ticks.
construct-interrupts :
    (hz n : ℕ)
    → 0 < hz
    → n < word
    → ((interrupts n (construct hz).0).seconds ≡ n / hz)
      × ((interrupts n (construct hz).0).ticks ≡ n % hz)
unfolding construct set_frequency
construct-interrupts hz n pos small =
    let t = interrupts n (construct hz).0 in
    let (valid, same, count) =
      interrupts_lem n (construct hz).0 (record { runs = pos; below = pos }) (omega arith) in
    quotient hz n (t.seconds) (t.ticks) (subst (λ h. t.ticks < h) same (valid.below))
      (subst (λ h. t.seconds * h + t.ticks ≡ n) same (count ∙ omega arith))

-- The ticks at the call are not below themselves: `wait` ends at once however long it should last,
-- unless an interrupt falls between the reading of the time and the first test.
wait-returns : (t : Timer) (seconds : ℕ) → waits t seconds t ≡ false
unfolding waits current
wait-returns t seconds = ground arith
