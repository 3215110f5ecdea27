-- ===== src/Idt/Gates.antt =====
-- What the processor finds behind a gate.
use multi_process.Base.{
  Bool-cases, inl, inr, ◌⊎◌, ◌∙◌, ℕ, zero, suc, ◌+◌, ◌*◌, ◌%◌, ◌^◌, ◌≤◌, ◌<◌, ◌≡◌, refl, ◌==◌, word,
  arith, true, false,
}
use multi_process.Idt.{IdtEntry, Idt, set_gate, set_gates}

-- The address that a gate leads to, as the processor puts it together.
abbrev pub target : IdtEntry → ℕ
target e = e.base_hi * 2 ^ 16 + e.base_lo

-- An interrupt gate of ring 0 that is present, in the kernel's code segment.
pub record Leads (e : IdtEntry) (address : ℕ) : Type 0 where
  pub to : target e ≡ address
  pub segment : e.sel ≡ 0x08
  pub kind : e.flags ≡ 0x8e

set_gate_other :
    (idt : Idt) (num base sel flags k : ℕ)
    → num < 256
    → (num == k) ≡ false
    → set_gate idt num base sel flags k ≡ idt k
unfolding set_gate
set_gate_other idt num base sel flags k lt ne =
    let at : num % 2 ^ 8 ≡ num = omega arith in rw (at, ne)

set_gate_self :
    (idt : Idt) (num base : ℕ)
    → num < 256
    → base < word
    → Leads (set_gate idt num base 0x08 0x8e num) base
unfolding set_gate
set_gate_self idt num base lt small =
    let at : num % 2 ^ 8 ≡ num = omega arith in
    let self : (num == num) ≡ true = ground arith in
    rw (at, self) (record { to = omega arith; segment = refl; kind = refl })

-- After the calls, gate `first + i` leads to stub `i`, and every gate outside the range is as it
-- was.
pub set_gates_lem :
    (stub : ℕ → ℕ) (first count : ℕ) (idt : Idt)
    → first + count ≤ 256
    → ((i : ℕ) → stub i < word)
    → ((i : ℕ) → i < count → Leads (set_gates stub first count idt (first + i)) (stub i))
      × ((k : ℕ) → (k < first) ⊎ (first + count ≤ k) → set_gates stub first count idt k ≡ idt k)
unfolding set_gates
set_gates_lem stub first zero idt le small = (λ i lt. elim lt [ ], λ k out. refl)
set_gates_lem stub first (suc count) idt le small =
    let (inside, outside) = set_gates_lem stub first count idt (omega arith) small in
    (
      λ i lt. elim (Bool-cases (i == count)) [
        | inl e ↦
            let e' : i ≡ count = ground arith in
            rw e' (
              set_gate_self (set_gates stub first count idt) (first + count) (stub count)
                (omega arith) (small count))
        | inr ne ↦
            rw
              (set_gate_other (set_gates stub first count idt) (first + count) (stub count) 0x08
                0x8e (first + i) (omega arith) (ground arith))
              (inside i (ground arith))
      ],
      λ k out.
          set_gate_other (set_gates stub first count idt) (first + count) (stub count) 0x08 0x8e k
            (omega arith) (ground arith)
          ∙ outside k (ground arith),
    )
