-- ===== src/PageTable/Return.antt =====
-- A page that a fault brought in and that free_page gives back.
use multi_process.Base.{
  ℕ, ◌+◌, ◌*◌, ◌/◌, ◌%◌, ◌^◌, ◌<◌, ◌≡◌, ◌≢◌, refl, ap, ◌∙◌, Bool, false, List, ◌∷◌, ◌++◌, word,
  arith, update,
}
use multi_process.ContFramePool
use multi_process.ContFramePool.{ContFramePool}
use multi_process.ContFramePool.Count.{IsValid}
use multi_process.ContFramePool.Chain.{AllElsewhere, SameFrames, get_frames-release_frames}
use multi_process.PageTable.{
  Memory, page_size, entry, absent, is_present, frame_of, pte_address, page_fault, free_page,
}
use multi_process.PageTable.Recursive.{Walks, slot, mmu-pte_address}
use multi_process.PageTable.Directory.{update_self, update_other}
use multi_process.PageTable.Fault.{
  Ready, Apart, entry_lem, frame_of-aligned, with_page, page_fault_lem,
}

-- An entry divided by the page size is the number of its frame.
entry-number : (f : ℕ) → f < 2 ^ 20 → entry f / page_size ≡ f
unfolding entry
entry-number f lt = omega arith

-- The memory `m` with the entry at `x` made absent, whatever it was.
pub record Vacated (m : Memory) (x : ℕ) (m' : Memory) : Type 0 where
  pub vacant : m' x ≡ absent
  pub others : (y : ℕ) → x ≢ y → m' y ≡ m y

module _ (mmu : Memory → ℕ → ℕ → ℕ) (walks : Walks mmu) where
  -- The walk to the entry of a page that is mapped.
  with_page-slot :
      (m : Memory) (d addr f : ℕ)
      → Ready m d addr
      → Apart d (m (d + 4 * (addr / 2 ^ 22)))
      → mmu (with_page mmu walks m d addr f) d (pte_address addr) ≡ slot m d addr
  with_page-slot m d addr f r a =
      let x = slot m d addr in
      let m1 = update m x (page_size * f % word) in
      let e = m (d + 4 * (addr / 2 ^ 22)) in
      let al = frame_of-aligned e in
      let c = r.closed in
      let c1 = c.aligned in
      let small = r.small in
      let far : (k : ℕ) → k < 1024 → with_page mmu walks m d addr f (d + 4 * k) ≡ m (d + 4 * k) =
        λ k lt.
          let ne : x ≢ d + 4 * k = λ eq. a.table (omega arith) in
          update_other m1 x (entry f) (d + 4 * k) ne
          ∙ update_other m x (page_size * f % word) (d + 4 * k) ne in
      let same = far (addr / 2 ^ 22) (omega arith) in
      mmu-pte_address mmu walks (with_page mmu walks m d addr f) d addr
        (record { aligned = c.aligned; itself = far 255 (omega arith) ∙ c.itself }) r.small
        (ap is_present same ∙ a.present)
      ∙ ap (λ t. frame_of t + 4 * (addr / 2 ^ 12 % 2 ^ 10)) same

  free_page-with_page :
      (m : Memory) (this d addr f : ℕ) (pools : List ContFramePool)
      → Ready m d addr
      → Apart d (m (d + 4 * (addr / 2 ^ 22)))
      → f < 2 ^ 20
      → free_page mmu this addr (d, (pools, with_page mmu walks m d addr f)) ≡ (
        this,
        (
          (ContFramePool.release_frames pools f).1,
          update (with_page mmu walks m d addr f) (slot m d addr) absent,
        ),
      )
  unfolding free_page
  free_page-with_page m this d addr f pools r a lt =
      let x = slot m d addr in
      let at = with_page-slot m d addr f r a in
      let there : with_page mmu walks m d addr f x ≡ entry f =
        update_self (update m x (page_size * f % word)) x (entry f) in
      rw (at, there, (entry_lem f lt).1, entry-number f lt) refl

  with_page-Vacated :
      (m : Memory) (d addr f : ℕ)
      → Vacated m (slot m d addr) (update (with_page mmu walks m d addr f) (slot m d addr) absent)
  with_page-Vacated m d addr f =
      let x = slot m d addr in
      let m1 = update m x (page_size * f % word) in
      record {
        vacant = update_self (with_page mmu walks m d addr f) x absent;
        others = λ y ne.
            update_other (with_page mmu walks m d addr f) x absent y ne
            ∙ update_other m1 x (entry f) y ne
            ∙ update_other m x (page_size * f % word) y ne;
      }

  -- A page fault, then `free_page` for the same address, with the directory loaded: the frame that
  -- the fault took goes back to its pool, whatever its place in the chain, and the pool answers as
  -- before; the entry of the page is absent; no other word has changed, and the page table that
  -- frees is loaded. The pool is valid and has a frame, below 2 ^ 20.
  pub free_page-page_fault :
      (m : Memory) (this d addr : ℕ) (before after : List ContFramePool) (p : ContFramePool)
      → Ready m d addr
      → Apart d (m (d + 4 * (addr / 2 ^ 22)))
      → is_present (m (slot m d addr)) ≡ false
      → IsValid p
      → 0 < (ContFramePool.get_frames p 1).0
      → (ContFramePool.get_frames p 1).0 < 2 ^ 20
      → AllElsewhere (ContFramePool.get_frames p 1).0 before
      → (q : ContFramePool) × (m' : Memory) × (free_page mmu this addr (
        d,
        (before ++ ((page_fault mmu d addr (p, m)).0 ∷ after), (page_fault mmu d addr (p, m)).1),
      )
          ≡ (this, (before ++ (q ∷ after), m')))
        × SameFrames p q
        × Vacated m (slot m d addr) m'
  free_page-page_fault m this d addr before after p r a gone v got small apart =
      let f = (ContFramePool.get_frames p 1).0 in
      let (q, back, same) = get_frames-release_frames before after p 1 v (omega arith) got apart in
      let fault = page_fault_lem mmu walks p m d addr r a gone in
      (
        q,
        update (with_page mmu walks m d addr f) (slot m d addr) absent,
        rw fault (
            free_page-with_page m this d addr f _ r a small
            ∙ ap
                (λ (o : Bool × List ContFramePool).
                  (this, (o.1, update (with_page mmu walks m d addr f) (slot m d addr) absent)))
                back),
        same,
        with_page-Vacated m d addr f,
      )
