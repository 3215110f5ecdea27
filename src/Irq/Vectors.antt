-- ===== src/Irq/Vectors.antt =====
-- Where the interrupt requests arrive.
use multi_process.Base.{
  ℕ, ◌+◌, ◌-◌, ◌/◌, ◌%◌, ◌^◌, ◌<◌, ◌≡◌, ◌≢◌, ◌∙◌, ap, refl, List, [], ◌∷◌, Option, some, ◌==◌, ◌||◌,
  if◌then◌else◌, word, arith, check_of_passes, passes, dec_lt,
}
use multi_process.Irq
use multi_process.Irq.{irq_remap}
use multi_process.Idt.{Idt}
use multi_process.Idt.Gates.{Leads}
use multi_process.Interrupts.{init_dispatcher, irq_base}
use multi_process.Interrupts.Dispatch.{init_dispatcher_lem}

-- The writes that reach the controller with the command port `cmd`; its other port is the next one.
abbrev pub to_chip : ℕ → List (ℕ × ℕ) → List (ℕ × ℕ)
to_chip cmd [] = []
to_chip cmd ((port, byte) ∷ ws) =
    if port == cmd || port == cmd + 1 then (port, byte) ∷ to_chip cmd ws else to_chip cmd ws

-- A model of the controllers: the vector at which a request arrives behind the writes, if it does.
abbrev pub Controllers : Type 0
Controllers = List (ℕ × ℕ) → ℕ → Option ℕ

-- The initialization that the 8259 documents, as the words that reach one chip: a command that
-- announces four words, the first vector, the wiring, the mode, and behind these the mask.
abbrev pub words : ℕ → ℕ → ℕ → ℕ → List (ℕ × ℕ)
words cmd vector wiring mask =
    (cmd, 0x11) ∷ (cmd + 1, vector) ∷ (cmd + 1, wiring) ∷ (cmd + 1, 0x01) ∷ (cmd + 1, mask) ∷ []

-- Bit `n` is not set, and is set.
abbrev pub IsClear : ℕ → ℕ → Type 0
IsClear b n = b / 2 ^ n % 2 ≡ 0

abbrev pub IsSetBit : ℕ → ℕ → Type 0
IsSetBit b n = b / 2 ^ n % 2 ≡ 1

-- What is documented of the two chips, the second of which is connected to input 2 of the first. A
-- request of the first chip arrives if the input is not masked and no chip is announced there. A
-- request of the second arrives if it is masked by neither chip, the first has been told of a chip
-- at input 2, and the second that it is the one with that number.
pub record Documented (chips : Controllers) : Type 0 where
  pub first :
      (vector wiring mask n : ℕ) (ws : List (ℕ × ℕ))
      → to_chip 0x20 ws ≡ words 0x20 vector wiring mask
      → n < 8
      → IsClear wiring n
      → IsClear mask n
      → chips ws n ≡ some (vector + n)
  pub second :
      (vector wiring mask vector' number mask' n : ℕ) (ws : List (ℕ × ℕ))
      → to_chip 0x20 ws ≡ words 0x20 vector wiring mask
      → to_chip 0xa0 ws ≡ words 0xa0 vector' number mask'
      → n < 8
      → IsSetBit wiring 2
      → number ≡ 2
      → IsClear mask 2
      → IsClear mask' n
      → chips ws (8 + n) ≡ some (vector' + n)

-- Input `n` of the first chip, other than 2.
wiring-IsClear : (n : ℕ) → n < 8 → n ≢ 2 → IsClear 0x04 n
unfolding passes
wiring-IsClear n lt ne =
    let ok = check_of_passes (λ j. (j == 2) || (0x04 / 2 ^ j % 2 == 0)) {x = n} 8 refl lt in
    ground (arith, ok, ne)

mask-IsClear : (n : ℕ) → IsClear 0x0 n
mask-IsClear n = omega arith

arrives :
    (chips : Controllers) (n : ℕ)
    → Documented chips
    → n < 16
    → n ≢ 2
    → chips irq_remap n ≡ some (irq_base + n)
unfolding irq_remap
arrives chips n d lt ne = elim (dec_lt n 8) [
  | yes low ↦ d.first 0x20 0x04 0x0 n irq_remap refl low (wiring-IsClear n low ne) (mask-IsClear n)
  | no high ↦
      let e : n ≡ 8 + (n - 8) = omega arith in
      let at : 0x28 + (n - 8) ≡ irq_base + n = omega arith in
      ap (chips irq_remap) e
      ∙ d.second 0x20 0x04 0x0 0x28 0x02 0x0 (n - 8) irq_remap refl refl (omega arith) refl refl
          refl (mask-IsClear (n - 8))
      ∙ ap (λ v. some v) at
]

-- With controllers that behave as documented, the second connected to input 2 of the first: behind
-- the set-up each request other than that input, 0, 1 and 3 to 15, arrives, at the gate for the stub of
-- IRQ `n` that the interrupt dispatcher set, whose number is the one that it subtracts its base from.
pub irq_remap-init_dispatcher :
    (chips : Controllers) (irq : ℕ → ℕ) (idt : Idt) (n : ℕ)
    → Documented chips
    → ((i : ℕ) → irq i < word)
    → n < 16
    → n ≢ 2
    → (chips Irq.init n ≡ some (irq_base + n))
      × Leads ((init_dispatcher irq idt).0 (irq_base + n)) (irq n)
unfolding Irq.init
irq_remap-init_dispatcher chips irq idt n documented small lt ne =
    (arrives chips n documented lt ne, (init_dispatcher_lem irq idt small).0 n lt)
