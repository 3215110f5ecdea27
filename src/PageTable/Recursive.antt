-- ===== src/PageTable/Recursive.antt =====
-- The window through which the kernel reaches its page tables.
use multi_process.Base.{ℕ, ◌+◌, ◌-◌, ◌*◌, ◌/◌, ◌%◌, ◌^◌, ◌<◌, ◌≡◌, refl, ap, ◌∙◌, true, word, arith}
use multi_process.PageTable.{Memory, page_size, is_present, frame_of, pte_address}

-- The translation of the processor, as documented: if the entry of the directory and that of the
-- table are present, the address is in the frame that the latter names.
abbrev pub Walks : (Memory → ℕ → ℕ → ℕ) → Type 0
Walks mmu =
    (m : Memory) (cr3 addr : ℕ)
    → addr < word
    → is_present (m (cr3 + 4 * (addr / 2 ^ 22))) ≡ true
    → is_present (m (frame_of (m (cr3 + 4 * (addr / 2 ^ 22))) + 4 * (addr / 2 ^ 12 % 2 ^ 10)))
      ≡ true
    → mmu m cr3 addr
      ≡ frame_of (m (frame_of (m (cr3 + 4 * (addr / 2 ^ 22))) + 4 * (addr / 2 ^ 12 % 2 ^ 10)))
        + addr % 2 ^ 12

-- The directory is its own table at place 255.
pub record Closed (m : Memory) (directory : ℕ) : Type 0 where
  pub aligned : directory % page_size ≡ 0
  pub itself : m (directory + 4 * 255) ≡ directory + 3

-- Where the entry for an address stands in its table.
abbrev pub slot : Memory → ℕ → ℕ → ℕ
slot m directory addr =
    frame_of (m (directory + 4 * (addr / 2 ^ 22))) + 4 * (addr / 2 ^ 12 % 2 ^ 10)

frame_of-directory : (d : ℕ) → d % page_size ≡ 0 → frame_of (d + 3) ≡ d
unfolding frame_of
frame_of-directory d al = omega arith

is_present-directory : (d : ℕ) → d % page_size ≡ 0 → is_present (d + 3) ≡ true
unfolding is_present
is_present-directory d al = ground arith

module _ (mmu : Memory → ℕ → ℕ → ℕ) (walks : Walks mmu) where
  -- With a directory that is its own table loaded, `pte_address` is a logical address of the entry
  -- for the given one: it translates to the place of that entry in its table, wherever the table
  -- is, as long as the directory has one.
  pub mmu-pte_address :
      (m : Memory) (directory addr : ℕ)
      → Closed m directory
      → addr < word
      → is_present (m (directory + 4 * (addr / 2 ^ 22))) ≡ true
      → mmu m directory (pte_address addr) ≡ slot m directory addr
  unfolding pte_address
  mmu-pte_address m d addr c small present =
      let p = (2 ^ 30 - 4 * 2 ^ 20 + addr % word / 2 ^ 10) / 4 * 4 in
      let top : p / 2 ^ 22 ≡ 255 = omega arith in
      let middle : p / 2 ^ 12 % 2 ^ 10 ≡ addr / 2 ^ 22 = omega arith in
      let low : p % 2 ^ 12 ≡ 4 * (addr / 2 ^ 12 % 2 ^ 10) = omega arith in
      let first : m (d + 4 * (p / 2 ^ 22)) ≡ d + 3 = ap (λ k. m (d + 4 * k)) top ∙ c.itself in
      let table : frame_of (m (d + 4 * (p / 2 ^ 22))) ≡ d =
        ap frame_of first ∙ frame_of-directory d c.aligned in
      let second : m (frame_of (m (d + 4 * (p / 2 ^ 22))) + 4 * (p / 2 ^ 12 % 2 ^ 10))
          ≡ m (d + 4 * (addr / 2 ^ 22)) =
        ap m (rw (table, middle) refl) in
      walks m d p (omega arith) (ap is_present first ∙ is_present-directory d c.aligned)
        (ap is_present second ∙ present)
      ∙ rw (second, low) refl
