-- ===== src/Irq/Tests.antt =====
-- Controllers that remember the first vector of each chip.
use multi_process.Base.{
  ℕ, ◌+◌, ◌-◌, ◌≡◌, ap, true, false, List, ◌∷◌, some, ltb, if◌then◌else◌, arith,
}
use multi_process.Idt
use multi_process.Idt.Gates.{Leads}
use multi_process.Interrupts.{init_dispatcher, irq_base}
use multi_process.Irq
use multi_process.Irq.Vectors.{Controllers, Documented, to_chip, irq_remap-init_dispatcher}

abbrev second : List (ℕ × ℕ) → ℕ
second (_ ∷ (_, b) ∷ _) = b
second _ = 0

-- Both chips with no input masked, the second wired to the first.
abbrev chips : Controllers
chips ws n =
    if ltb n 8
    then some (second (to_chip 0x20 ws) + n)
    else some (second (to_chip 0xa0 ws) + (n - 8))

chips-Documented : Documented chips
chips-Documented = record {
  first = λ v w m n ws e lt _ _.
      let low : ltb n 8 ≡ true = ground arith in rw low (ap (λ l. some (second l + n)) e);
  second = λ v w m v' i m' n ws _ e lt _ _ _ _.
      let high : ltb (8 + n) 8 ≡ false = ground arith in
      let at : 8 + n - 8 ≡ n = omega arith in rw (high, at) (ap (λ l. some (second l + n)) e);
}

abbrev stub : ℕ → ℕ
stub i = 0x100000

irq_remap-init_dispatcher_example :
    (chips Irq.init 9 ≡ some (irq_base + 9))
    × Leads ((init_dispatcher stub Idt.init).0 (irq_base + 9)) (stub 9)
irq_remap-init_dispatcher_example =
    irq_remap-init_dispatcher chips stub Idt.init 9 chips-Documented (λ i. omega arith)
      (omega arith) (omega arith)
