-- ===== src/PageTable/Boot.antt =====
-- The first page table, made at boot.
use multi_process.Base.{
  ℕ, zero, suc, ◌+◌, ◌*◌, ◌/◌, ◌%◌, ◌^◌, ◌≤◌, ◌<◌, ◌≡◌, ap, ◌∙◌, ◌⊎◌, inl, inr, word, arith, update,
}
use multi_process.ContFramePool.{ContFramePool, get_frames}
use multi_process.ContFramePool.Count.{IsUsable}
use multi_process.ContFramePool.Get.{get_frames_lem}
use multi_process.ContFramePool.Invariant.{get_frames-IsUsable}
use multi_process.PageTable.{
  Memory, page_size, entry, absent, is_present, frame_of, fill, kernel_tables, map_first,
  construct_kernel,
}
use multi_process.PageTable.Recursive.{Walks, Closed}
use multi_process.PageTable.Directory.{
  update_self, update_other, fill-outside, Mapped, map_first-entry, map_first-Mapped,
}
use multi_process.PageTable.Fault.{entry_lem}
use multi_process.PageTable.Handle.{Direct, identity-entry}

-- The frames of the pool stand behind the page of the directory, which is not the first page, and
-- are within 4 GB.
pub record Behind (d : ℕ) (p : ContFramePool) : Type 0 where
  pub usable : IsUsable p
  pub low : page_size ≤ d
  pub high : d + page_size ≤ page_size * p.base_frame_no
  pub placed : p.base_frame_no + p.nframes ≤ 2 ^ 20

-- The number of a frame whose page is not that of the directory.
record Elsewhere (d f : ℕ) : Type 0 where
  small : f < 2 ^ 20
  apart : (page_size * f + page_size ≤ d) ⊎ (d + page_size ≤ page_size * f)

-- What a request returns, 0 where there is no frame.
get_frames-Elsewhere :
    (d : ℕ) (p : ContFramePool)
    → Behind d p
    → Elsewhere d (get_frames p 1).0 × Behind d (get_frames p 1).1
get_frames-Elsewhere d p b =
    let u' = get_frames-IsUsable p 1 b.usable (omega arith) in
    elim (get_frames_lem p 1 b.usable (omega arith)) [
      | inl (start, g) ↦
          let a = g.allocated in
          (
            record {
              small = omega (arith, g.frame, a.fits, b.placed);
              apart = inr (omega (arith, g.frame, b.high));
            },
            record {
              usable = u';
              low = b.low;
              high = omega (arith, a.base, b.high);
              placed = omega (arith, a.base, a.size, b.placed);
            },
          )
      | inr r ↦ (
        record { small = omega (arith, r.failed); apart = inl (omega (arith, r.failed, b.low)) },
        record {
          usable = u';
          low = b.low;
          high = omega (arith, ap (λ (q : ContFramePool). q.base_frame_no) r.unchanged, b.high);
          placed = omega (
            arith,
            ap (λ (q : ContFramePool). q.base_frame_no) r.unchanged,
            ap (λ (q : ContFramePool). q.nframes) r.unchanged,
            b.placed,
          );
        },
      )
    ]

-- The pool and the first entry behind `n` rounds of the loop over the kernel's tables.
record FirstTable (d : ℕ) (p : ContFramePool) (n : ℕ) (s : ContFramePool × Memory) : Type 0 where
  behind : Behind d s.0
  first : 0 < n → s.1 d ≡ entry (get_frames p 1).0

-- A table in another page leaves the first entry; only the first round writes it.
first-entry :
    (d n f : ℕ) (m : Memory)
    → Elsewhere d f
    → 0 < n
    → update (fill (page_size * f % word) (λ _. absent) 1024 m) (d + 4 * n) (entry f) d ≡ m d
first-entry d n f m e pos =
    let small = e.small in
    let at : page_size * f % word ≡ page_size * f = omega arith in
    update_other (fill (page_size * f % word) (λ _. absent) 1024 m) (d + 4 * n) (entry f) d
      (λ e. omega arith)
    ∙ fill-outside (page_size * f % word) (λ _. absent) 1024 m d
        (elim e.apart [ inl a ↦ inr (omega arith) | inr a ↦ inl (omega arith) ])

kernel_tables-FirstTable :
    (d n : ℕ) (p : ContFramePool) (m : Memory)
    → Behind d p
    → FirstTable d p n (kernel_tables d n (p, m))
unfolding kernel_tables
kernel_tables-FirstTable d zero p m b = record { behind = b; first = λ lt. elim lt [ ] }
kernel_tables-FirstTable d (suc zero) p m b =
    let f = (get_frames p 1).0 in
    record {
      behind = (get_frames-Elsewhere d p b).1;
      first = λ lt.
          let filled = fill (page_size * f % word) (λ _. absent) 1024 m in
          let here : d ≡ d + 4 * 0 = omega arith in
          ap (update filled (d + 4 * 0) (entry f)) here ∙ update_self filled (d + 4 * 0) (entry f);
    }
kernel_tables-FirstTable d (suc (suc n)) p m b =
    let s = kernel_tables d (suc n) (p, m) in
    let t = kernel_tables-FirstTable d (suc n) p m b in
    let (e, b') = get_frames-Elsewhere d s.0 t.behind in
    record {
      behind = b';
      first = λ lt.
          first-entry d (suc n) (get_frames s.0 1).0 s.1 e (omega arith) ∙ t.first (omega arith);
    }

module _ (mmu : Memory → ℕ → ℕ → ℕ) (walks : Walks mmu) where
  -- An address of the first 4 MB, where these are mapped to themselves.
  mmu-identity : (m : Memory) (d addr : ℕ) → Direct m d → addr < 2 ^ 22 → mmu m d addr ≡ addr
  mmu-identity m d addr di lt =
      let i = addr / 2 ^ 12 % 2 ^ 10 in
      let top : d + 4 * (addr / 2 ^ 22) ≡ d = omega arith in
      let same : m (d + 4 * (addr / 2 ^ 22)) ≡ m d = ap m top in
      let there : m (frame_of (m (d + 4 * (addr / 2 ^ 22))) + 4 * i) ≡ page_size * i + 3 =
        ap (λ x. m (frame_of x + 4 * i)) same ∙ di.identity i (omega arith) in
      let (present, frame) = identity-entry i in
      walks m d addr (omega arith) (ap is_present same ∙ di.present) (ap is_present there ∙ present)
      ∙ ap (λ x. frame_of x + addr % 2 ^ 12) there
      ∙ ap (λ x. x + addr % 2 ^ 12) frame
      ∙ omega arith

  -- The constructor of the first page table, whose directory is an aligned page of the first 4 MB,
  -- not the first one, below the frames of a usable process pool that ends within 4 GB: behind it
  -- the directory is its own last table of the kernel's half, the entries behind that half are
  -- absent, and with it loaded each address of the first 4 MB translates to itself. This holds even
  -- if the pool runs out of frames.
  pub construct_kernel-Mapped :
      (d : ℕ) (p : ContFramePool) (m : Memory)
      → d % page_size ≡ 0
      → d + page_size ≤ 2 ^ 22
      → Behind d p
      → let m' = (construct_kernel d (p, m)).1 in
        Mapped d m'
        × Closed m' d
        × Direct m' d
        × ((addr : ℕ) → addr < 2 ^ 22 → mmu m' d addr ≡ addr)
  unfolding construct_kernel
  construct_kernel-Mapped d p m al low b =
      let s = kernel_tables d 256 (p, m) in
      let f = (get_frames p 1).0 in
      let e = (get_frames-Elsewhere d p b).0 in
      let (frame, present) = entry_lem f e.small in
      let first : s.1 d ≡ entry f = (kernel_tables-FirstTable d 256 p m b).first (omega arith) in
      let at : frame_of (s.1 d) ≡ page_size * f = ap frame_of first ∙ frame in
      let apart : (frame_of (s.1 d) + page_size ≤ d) ⊎ (d + page_size ≤ frame_of (s.1 d)) =
        elim e.apart [ inl a ↦ inl (omega arith) | inr a ↦ inr (omega arith) ] in
      let mapped = map_first-Mapped d s.1 apart in
      let direct : Direct (map_first d s.1) d = record {
        low = low;
        present = ap is_present (map_first-entry d s.1 apart ∙ first) ∙ present;
        identity = mapped.identity;
      } in
      (
        mapped,
        record { aligned = al; itself = mapped.itself },
        direct,
        λ addr lt. mmu-identity (map_first d s.1) d addr direct lt,
      )
