-- ===== src/PageTable/Fault.antt =====
-- What a page fault leaves behind.
use multi_process.Base.{
  ℕ, ◌+◌, ◌*◌, ◌/◌, ◌%◌, ◌^◌, ◌<◌, ◌≡◌, ◌≢◌, refl, ap, ◌∙◌, true, false, word, arith, update,
}
use multi_process.ContFramePool
use multi_process.ContFramePool.{ContFramePool}
use multi_process.PageTable.{
  Memory, page_size, entry, is_present, frame_of, pte_address, page_fault,
}
use multi_process.PageTable.Recursive.{Walks, Closed, slot, mmu-pte_address}
use multi_process.PageTable.Directory.{update_self, update_other}

-- The address is not in the window to the tables, and the directory is loaded and is its own table.
pub record Ready (m : Memory) (d addr : ℕ) : Type 0 where
  pub closed : Closed m d
  pub small : addr < word
  pub outside : addr / 2 ^ 22 ≢ 255

-- The table that an entry of the directory names is not the directory.
pub record Apart (d e : ℕ) : Type 0 where
  pub present : is_present e ≡ true
  pub table : frame_of e ≢ d

pub frame_of-aligned : (e : ℕ) → frame_of e % page_size ≡ 0
unfolding frame_of
frame_of-aligned e = omega arith

-- An entry names its frame, and is present.
pub entry_lem :
    (f : ℕ) → f < 2 ^ 20 → (frame_of (entry f) ≡ page_size * f) × (is_present (entry f) ≡ true)
unfolding entry frame_of is_present
entry_lem f lt = (omega arith, ground arith)

module _ (mmu : Memory → ℕ → ℕ → ℕ) (walks : Walks mmu) where
  -- A store to the slot of an address does not disturb the walk to it.
  mmu-stored :
      (m : Memory) (d addr v : ℕ)
      → Ready m d addr
      → Apart d (m (d + 4 * (addr / 2 ^ 22)))
      → mmu (update m (slot m d addr) v) d (pte_address addr) ≡ slot m d addr
  mmu-stored m d addr v r a =
      let e = m (d + 4 * (addr / 2 ^ 22)) in
      let al = frame_of-aligned e in
      let c = r.closed in
      let c1 = c.aligned in
      let far : (k : ℕ) → k < 1024 → update m (slot m d addr) v (d + 4 * k) ≡ m (d + 4 * k) =
        λ k lt. update_other m (slot m d addr) v (d + 4 * k) (λ eq. a.table (omega arith)) in
      let small = r.small in
      let same = far (addr / 2 ^ 22) (omega arith) in
      mmu-pte_address mmu walks (update m (slot m d addr) v) d addr
        (record { aligned = c.aligned; itself = far 255 (omega arith) ∙ c.itself }) (r.small)
        (ap is_present same ∙ a.present)
      ∙ ap (λ t. frame_of t + 4 * (addr / 2 ^ 12 % 2 ^ 10)) same

  -- What a page fault makes of the memory, for the number of the frame.
  abbrev pub with_page : Memory → ℕ → ℕ → ℕ → Memory
  with_page m d addr f =
      update (update m (slot m d addr) (page_size * f % word)) (slot m d addr) (entry f)

  pub page_fault_lem :
      (p : ContFramePool) (m : Memory) (d addr : ℕ)
      → Ready m d addr
      → Apart d (m (d + 4 * (addr / 2 ^ 22)))
      → is_present (m (slot m d addr)) ≡ false
      → page_fault mmu d addr (p, m)
        ≡ ((ContFramePool.get_frames p 1).1, with_page m d addr (ContFramePool.get_frames p 1).0)
  unfolding page_fault entry
  page_fault_lem p m d addr r a gone =
      let x = slot m d addr in
      let f = (ContFramePool.get_frames p 1).0 in
      let at = mmu-pte_address mmu walks m d addr r.closed r.small a.present in
      let m1 = update m x (page_size * f % word) in
      let at1 = mmu-stored m d addr (page_size * f % word) r a in
      rw (at, gone, at1, update_self m x (page_size * f % word)) refl

  -- The address then leads to the frame.
  pub with_page-mmu :
      (m : Memory) (d addr f : ℕ)
      → Ready m d addr
      → Apart d (m (d + 4 * (addr / 2 ^ 22)))
      → f < 2 ^ 20
      → mmu (with_page m d addr f) d addr ≡ page_size * f + addr % page_size
  with_page-mmu m d addr f r a lt =
      let x = slot m d addr in
      let m1 = update m x (page_size * f % word) in
      let m2 = update m1 x (entry f) in
      let e = m (d + 4 * (addr / 2 ^ 22)) in
      let al = frame_of-aligned e in
      let c = r.closed in
      let c1 = c.aligned in
      let small = r.small in
      let ne : x ≢ d + 4 * (addr / 2 ^ 22) = λ eq. a.table (omega arith) in
      let same : m2 (d + 4 * (addr / 2 ^ 22)) ≡ e =
        update_other m1 x (entry f) (d + 4 * (addr / 2 ^ 22)) ne
        ∙ update_other m x (page_size * f % word) (d + 4 * (addr / 2 ^ 22)) ne in
      let there : m2 (frame_of (m2 (d + 4 * (addr / 2 ^ 22))) + 4 * (addr / 2 ^ 12 % 2 ^ 10))
          ≡ entry f =
        ap (λ t. m2 (frame_of t + 4 * (addr / 2 ^ 12 % 2 ^ 10))) same
        ∙ update_self m1 x (entry f) in
      walks m2 d addr r.small (ap is_present same ∙ a.present)
        (ap is_present there ∙ (entry_lem f lt).1)
      ∙ ap (λ t. frame_of t + addr % 2 ^ 12) there
      ∙ ap (λ k. k + addr % 2 ^ 12) (entry_lem f lt).0
