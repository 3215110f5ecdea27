-- ===== src/Gdt.antt =====
-- The global descriptor table of gdt.C.
pub mod Segments
use multi_process.Base.{ℕ, ◌+◌, ◌*◌, ◌/◌, ◌%◌, ◌^◌, ◌==◌, if◌then◌else◌, update, word}

-- `struct gdt_entry`
pub record GdtEntry : Type 0 where
  pub limit_low : ℕ
  pub base_low : ℕ
  pub base_middle : ℕ
  pub access : ℕ
  pub granularity : ℕ
  pub base_high : ℕ

-- The table `gdt`, by the number of the entry.
abbrev pub Gdt : Type 0
Gdt = ℕ → GdtEntry

-- The arguments are truncated to their types. `& 0xFFFF`, `& 0xFF` and `& 0x0F` keep the low bits,
-- `& 0xF0` the upper half of a byte; the halves that `|=` joins have no bit in common.
unfoldable pub set_gate : Gdt → ℕ → ℕ → ℕ → ℕ → ℕ → Gdt
set_gate gdt num base limit access gran = update gdt num (record {
  limit_low = limit % word % 2 ^ 16;
  base_low = base % word % 2 ^ 16;
  base_middle = base % word / 2 ^ 16 % 2 ^ 8;
  access = access % 2 ^ 8;
  granularity = limit % word / 2 ^ 16 % 2 ^ 4 + gran % 2 ^ 8 / 2 ^ 4 * 2 ^ 4;
  base_high = base % word / 2 ^ 24 % 2 ^ 8;
})

-- `GDT::init`, as far as the table goes: the null, the code and the data segment.
unfoldable pub init : Gdt → Gdt
init gdt =
    set_gate (set_gate (set_gate gdt 0 0 0 0 0) 1 0 0xffffffff 0x9a 0xcf) 2 0 0xffffffff 0x92 0xcf
