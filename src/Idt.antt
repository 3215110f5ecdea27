-- ===== src/Idt.antt =====
-- The interrupt descriptor table of idt.C, and the gates that exceptions.C and interrupts.C set.
pub mod Gates
use multi_process.Base.{
  ℕ, zero, suc, ◌+◌, ◌-◌, ◌*◌, ◌/◌, ◌%◌, ◌^◌, ◌==◌, if◌then◌else◌, update, word,
}

-- `struct idt_entry`
pub record IdtEntry : Type 0 where
  pub base_lo : ℕ
  pub sel : ℕ
  pub always0 : ℕ
  pub flags : ℕ
  pub base_hi : ℕ

-- The table `idt`, by the number of the entry.
abbrev pub Idt : Type 0
Idt = ℕ → IdtEntry

-- `IDT::init`, as far as the table goes: every byte is cleared.
unfoldable pub init : Idt
init _ = record { base_lo = 0; sel = 0; always0 = 0; flags = 0; base_hi = 0 }

-- The arguments are truncated to their types. `& 0xFFFF` keeps the low 16 bits.
unfoldable pub set_gate : Idt → ℕ → ℕ → ℕ → ℕ → Idt
set_gate idt num base sel flags = update idt (num % 2 ^ 8) (record {
  base_lo = base % word % 2 ^ 16;
  sel = sel % 2 ^ 16;
  always0 = 0;
  flags = flags % 2 ^ 8;
  base_hi = base % word / 2 ^ 16 % 2 ^ 16;
})

-- The calls `set_gate(first + i, stub_i, 0x08, 0x8E)` for the `count` stubs, in order.
unfoldable pub set_gates : (ℕ → ℕ) → ℕ → ℕ → Idt → Idt
set_gates stub first zero idt = idt
set_gates stub first (suc count) idt =
    set_gate (set_gates stub first count idt) (first + count) (stub count) 0x08 0x8e
