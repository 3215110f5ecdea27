-- ===== src/Gdt/Segments.antt =====
-- What the processor reads from the descriptors.
use multi_process.Base.{
  ℕ, ◌+◌, ◌*◌, ◌/◌, ◌%◌, ◌^◌, ◌<◌, ◌≡◌, ◌≢◌, refl, Bool, true, false, ◌==◌, ltb, if◌then◌else◌,
  word, arith,
}
use multi_process.Gdt.{GdtEntry, Gdt, set_gate, init}

-- The base and the limit, as the processor puts them together.
abbrev pub segment_base : GdtEntry → ℕ
segment_base e = e.base_low + e.base_middle * 2 ^ 16 + e.base_high * 2 ^ 24

abbrev pub segment_limit : GdtEntry → ℕ
segment_limit e = e.limit_low + e.granularity % 2 ^ 4 * 2 ^ 16

-- Bit 7 of the flags: the limit counts pages of 4 KB.
abbrev pub in_pages : GdtEntry → Bool
in_pages e = ltb 127 (e.granularity)

-- The number of bytes of a segment.
abbrev pub segment_bytes : GdtEntry → ℕ
segment_bytes e = if in_pages e then (segment_limit e + 1) * 4096 else segment_limit e + 1

-- What was packed into a descriptor is what the processor reads: the base whole, the low 20 bits of
-- the limit, the access byte, and the upper half of the flags. The other descriptors stay.
set_gate_lem :
    (gdt : Gdt) (num base limit access gran : ℕ)
    → base < word
    → limit < word
    → access < 256
    → gran < 256
    → (segment_base (set_gate gdt num base limit access gran num) ≡ base)
      × (segment_limit (set_gate gdt num base limit access gran num) ≡ limit % 2 ^ 20)
      × ((set_gate gdt num base limit access gran num).access ≡ access)
      × ((set_gate gdt num base limit access gran num).granularity / 16 ≡ gran / 16)
      × ((k : ℕ) → num ≢ k → set_gate gdt num base limit access gran k ≡ gdt k)
unfolding set_gate
set_gate_lem gdt num base limit access gran b l a g =
    let self : (num == num) ≡ true = ground arith in
    rw self (
      omega arith,
      omega arith,
      omega arith,
      omega arith,
      λ k ne. let no : (num == k) ≡ false = ground arith in rw no refl,
    )

-- The code and the data segment are flat: they start at 0 and span the 4 GB of addresses.
init-flat :
    (gdt : Gdt)
    → (segment_base (init gdt 1) ≡ 0)
      × (segment_bytes (init gdt 1) ≡ word)
      × (segment_base (init gdt 2) ≡ 0)
      × (segment_bytes (init gdt 2) ≡ word)
unfolding init set_gate
init-flat gdt = (refl, refl, refl, refl)
