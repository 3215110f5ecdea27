-- ===== src/PageTable/Handle.antt =====
-- The two faults of handle_fault together.
use multi_process.Base.{
  ltb, ltb→lt, ℕ, zero, suc, ◌+◌, ◌*◌, ◌/◌, ◌%◌, ◌^◌, ◌≤◌, ◌<◌, ◌≡◌, ◌≢◌, refl, sym, ap, ◌∙◌, true,
  word, arith, update, Bool-cases, inl, inr, ◌⊎◌,
}
use multi_process.ContFramePool
use multi_process.ContFramePool.{ContFramePool}
use multi_process.PageTable.{
  Memory, page_size, entry, absent, is_present, frame_of, pte_address, pde_address, fill,
  clear_table, make_table,
}
use multi_process.PageTable.Recursive.{Walks, mmu-pte_address}
use multi_process.PageTable.Directory.{update_self, update_other, fill-outside}
use multi_process.PageTable.Fault.{Ready, Apart, entry_lem, frame_of-aligned}

-- The directory lies in the first 4 MB, and these are mapped to themselves.
pub record Direct (m : Memory) (d : ℕ) : Type 0 where
  pub low : d + page_size ≤ 2 ^ 22
  pub present : is_present (m d) ≡ true
  pub identity : (i : ℕ) → i < 1024 → m (frame_of (m d) + 4 * i) ≡ page_size * i + 3

pub identity-entry :
    (i : ℕ)
    → (is_present (page_size * i + 3) ≡ true) × (frame_of (page_size * i + 3) ≡ page_size * i)
unfolding is_present frame_of
identity-entry i = (ground arith, omega arith)

-- A place of one page is outside another.
pub page_apart :
    (t d k n : ℕ)
    → t % page_size ≡ 0
    → d % page_size ≡ 0
    → t ≢ d
    → k < 1024
    → n ≤ 1024
    → (d + 4 * k < t) ⊎ (t + 4 * n ≤ d + 4 * k)
page_apart t d k n al al' ne lt le = elim (Bool-cases (ltb d t)) [
  | inl below ↦ inl (omega (arith, ltb→lt d t below))
  | inr above ↦ elim (Bool-cases (ltb t d)) [
    | inl h ↦ inr (omega (arith, ltb→lt t d h))
    | inr h ↦ let same : t ≡ d = ground arith in absurd (ne same)
  ]
]

-- The address of the first page of the table's range.
abbrev first_page : ℕ → ℕ
first_page addr = addr / 2 ^ 22 * 2 ^ 22

pte_address-first :
    (addr n : ℕ)
    → addr < word
    → n < 1024
    → pte_address (first_page addr) + 4 * n ≡ pte_address (first_page addr + 4096 * n)
unfolding pte_address
pte_address-first addr n small lt = omega arith

module _ (mmu : Memory → ℕ → ℕ → ℕ) (walks : Walks mmu) where
  pub mmu-pde_address :
      (m : Memory) (d addr : ℕ)
      → Direct m d
      → d % page_size ≡ 0
      → addr < word
      → mmu m d (pde_address d addr) ≡ d + 4 * (addr / 2 ^ 22)
  unfolding pde_address
  mmu-pde_address m d addr di al small =
      let low = di.low in
      let x = d + 4 * (addr / 2 ^ 22 % 2 ^ 10) in
      let i = x / 2 ^ 12 % 2 ^ 10 in
      let top : d + 4 * (x / 2 ^ 22) ≡ d = omega arith in
      let e : m (d + 4 * (x / 2 ^ 22)) ≡ m d = ap m top in
      let there : m (frame_of (m (d + 4 * (x / 2 ^ 22))) + 4 * i) ≡ page_size * i + 3 =
        ap (λ t. m (frame_of t + 4 * i)) e ∙ di.identity i (omega arith) in
      walks m d x (omega arith) (ap is_present e ∙ di.present)
        (ap is_present there ∙ (identity-entry i).0)
      ∙ ap (λ t. frame_of t + x % 2 ^ 12) there
      ∙ ap (λ k. k + x % 2 ^ 12) (identity-entry i).1
      ∙ omega arith

  -- Clearing the table through the window clears its frame.
  clear_table-fill :
      (m : Memory) (d addr n : ℕ)
      → Ready m d addr
      → Apart d (m (d + 4 * (addr / 2 ^ 22)))
      → n ≤ 1024
      → clear_table mmu d (pte_address (first_page addr)) n m
        ≡ fill (frame_of (m (d + 4 * (addr / 2 ^ 22)))) (λ _. absent) n m
  unfolding clear_table fill
  clear_table-fill m d addr zero r a le = refl
  clear_table-fill m d addr (suc n) r a le =
      let t = frame_of (m (d + 4 * (addr / 2 ^ 22))) in
      let m' = fill t (λ _. absent) n m in
      let al = frame_of-aligned (m (d + 4 * (addr / 2 ^ 22))) in
      let c = r.closed in
      let c1 = c.aligned in
      let small = r.small in
      let far : (k : ℕ) → k < 1024 → m' (d + 4 * k) ≡ m (d + 4 * k) = λ k lt.
        fill-outside t (λ _. absent) n m (d + 4 * k)
          (page_apart t d k n al c.aligned a.table lt (omega arith)) in
      let b = first_page addr + 4096 * n in
      let top : b / 2 ^ 22 ≡ addr / 2 ^ 22 = omega arith in
      let mid : b / 2 ^ 12 % 2 ^ 10 ≡ n = omega arith in
      let e : m' (d + 4 * (b / 2 ^ 22)) ≡ m (d + 4 * (addr / 2 ^ 22)) =
        ap (λ k. m' (d + 4 * k)) top ∙ far (addr / 2 ^ 22) (omega arith) in
      let at : mmu m' d (pte_address (first_page addr) + 4 * n) ≡ t + 4 * n =
        ap (mmu m' d) (pte_address-first addr n small (omega arith))
        ∙ mmu-pte_address mmu walks m' d b
            (record { aligned = c.aligned; itself = far 255 (omega arith) ∙ c.itself })
            (omega arith) (ap is_present e ∙ a.present)
        ∙ ap (λ k. frame_of k + 4 * (b / 2 ^ 12 % 2 ^ 10)) e
        ∙ ap (λ k. t + 4 * k) mid in
      rw (clear_table-fill m d addr n r a (omega arith), at) refl

  -- What a directory fault makes of the memory, for the number of the frame.
  abbrev pub with_table : Memory → ℕ → ℕ → ℕ → Memory
  with_table m d addr f =
      fill (page_size * f) (λ _. absent) 1024 (update m (d + 4 * (addr / 2 ^ 22)) (entry f))

  pub make_table_lem :
      (p : ContFramePool) (m : Memory) (d addr : ℕ)
      → Ready m d addr
      → Direct m d
      → (ContFramePool.get_frames p 1).0 < 2 ^ 20
      → page_size * (ContFramePool.get_frames p 1).0 ≢ d
      → make_table mmu d d addr (p, m)
        ≡ ((ContFramePool.get_frames p 1).1, with_table m d addr (ContFramePool.get_frames p 1).0)
  unfolding make_table
  make_table_lem p m d addr r di lt ne =
      let f = (ContFramePool.get_frames p 1).0 in
      let c = r.closed in
      let c1 = c.aligned in
      let small = r.small in
      let o = r.outside in
      let x = d + 4 * (addr / 2 ^ 22) in
      let at = mmu-pde_address m d addr di c.aligned r.small in
      let m1 = update m x (entry f) in
      let self : m1 x ≡ entry f = update_self m x (entry f) in
      let named : frame_of (m1 x) ≡ page_size * f = ap frame_of self ∙ (entry_lem f lt).0 in
      let ready : Ready m1 d addr = record {
        closed = record {
          aligned = c.aligned;
          itself = update_other m x (entry f) (d + 4 * 255) (λ e. o (omega arith)) ∙ c.itself;
        };
        small = r.small;
        outside = r.outside;
      } in
      let apart : Apart d (m1 x) = record {
        present = ap is_present self ∙ (entry_lem f lt).1;
        table = λ e. ne (sym named ∙ e);
      } in
      let cleared = clear_table-fill m1 d addr 1024 ready apart (omega arith) in
      ap
        (λ y. (
          (ContFramePool.get_frames p 1).1,
          clear_table mmu d (pte_address (first_page addr)) 1024 (update m y (entry f)),
        ))
        at
      ∙ ap (λ k. ((ContFramePool.get_frames p 1).1, k))
          (cleared ∙ ap (λ t. fill t (λ _. absent) 1024 m1) named)
