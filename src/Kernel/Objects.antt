-- ===== src/Kernel/Objects.antt =====
-- Where the objects stand that main makes with `new`: each in a page of its own.
use multi_process.Base.{
  ℕ, zero, suc, ◌+◌, ◌*◌, ◌^◌, ◌<◌, ◌≤◌, ◌≡◌, refl, sym, ap, ◌∙◌, true, false, ◌||◌, ltb, leb,
  get_or, some, none, ◌==◌, passes, check_of_passes, sub32, update, arith, [],
}
use multi_process.Heap.{operator_new}
use multi_process.VmPool
use multi_process.VmPool.{
  VmPool, page_size, round_up, Outcome, done, failed, no_free_region, no_alloc_region, no_region,
  allocate, address, first_index, carve,
}
use multi_process.Thread.Life
use multi_process.Thread.Life.{World, ThreadObject, construct_process}
use multi_process.Thread.Lifetime.{update_self}
use multi_process.Kernel.Main.{Linked, main_world}

-- The pool of main when `k` pages have been allocated.
unfoldable pub granted : ℕ → VmPool
granted zero = VmPool.initial_tables (2 ^ 29) (2 ^ 28)
granted (suc k) = (allocate (granted k) page_size).1

-- The address of the next page.
abbrev pub page : ℕ → ℕ
page k = 2 ^ 29 + (k + 2) * page_size

allocate-size : (p : VmPool) (n : ℕ) → (allocate p n).1.size ≡ p.size
unfolding allocate carve
allocate-size p n = ground arith

granted-size : (k : ℕ) → (granted k).size ≡ 2 ^ 28
unfolding granted VmPool.initial_tables
granted-size zero = refl
granted-size (suc k) = allocate-size (granted k) page_size ∙ granted-size k

granted-page : (k : ℕ) → k < 16 → address (allocate (granted k) page_size).0 ≡ page k
unfolding granted allocate VmPool.initial_tables first_index carve round_up passes
granted-page k lt =
    let ok =
      check_of_passes (λ j. address (allocate (granted j) page_size).0 == page j) {x = k} 16 ran
        lt in
    ground (arith, ok)
  where
    ran : passes (λ j. address (allocate (granted j) page_size).0 == page j) 16 ≡ true
    ran = refl

-- A request of a valid size, by that size in whole pages.
abbrev of_pages : VmPool → ℕ → Outcome ℕ × VmPool
of_pages p adj_size = elim (first_index (λ r. leb adj_size r.size) p.free) [
  | none ↦ (failed no_free_region, p)
  | some idx ↦ elim (first_index (λ r. r.size == 0) p.alloc) [
    | none ↦ (failed no_alloc_region, p)
    | some i ↦ (done (get_or p.free idx no_region).base_address, carve p adj_size idx i)
  ]
]

allocate-of_pages :
    (p : VmPool) (n : ℕ)
    → p.size ≡ 2 ^ 28
    → 0 < n
    → n ≤ page_size
    → allocate p n ≡ of_pages p (round_up n)
unfolding allocate
allocate-of_pages p n size pos small =
    let valid : (n == 0 || ltb (sub32 p.size (2 * page_size)) n) ≡ false = ground (arith, size) in
    rw valid refl

-- Up to a page, the size of a request makes no difference.
allocate-page :
    (p : VmPool) (n : ℕ)
    → p.size ≡ 2 ^ 28
    → 0 < n
    → n ≤ page_size
    → allocate p n ≡ allocate p page_size
unfolding round_up
allocate-page p n size pos small =
    let same : round_up n ≡ round_up page_size = omega arith in
    allocate-of_pages p n size pos small
    ∙ ap (of_pages p) same
    ∙ sym (allocate-of_pages p page_size size (omega arith) (omega arith))

-- In `w`, the pool of main is in use, `k` pages of it are allocated, and `i` ids are given.
pub record Stocked (l : Linked) (w : World) (k i : ℕ) : Type 0 where
  pub in_use : w.memory_pool ≡ l.pool
  pub pool : w.pools l.pool ≡ granted k
  pub ids : w.next_free_pid ≡ i
  pub freed : w.freed ≡ []
  pub kernel : w.kernel_page_table ≡ l.pt1

-- The sizes and addresses that matter to these objects.
pub record Small (l : Linked) : Type 0 where
  pub rr_scheduler : (0 < l.sizeof_rr_scheduler) × (l.sizeof_rr_scheduler ≤ page_size)
  pub thread : (0 < l.sizeof_thread) × (l.sizeof_thread ≤ page_size)
  pub page_table : (0 < l.sizeof_page_table) × (l.sizeof_page_table ≤ page_size)
  pub vm_pool : (0 < l.sizeof_vm_pool) × (l.sizeof_vm_pool ≤ page_size)
  pub low : l.pool < 2 ^ 29

pub operator_new-page :
    (k n : ℕ)
    → 0 < n
    → n ≤ page_size
    → k < 16
    → ((operator_new (granted k) n).0 ≡ page k) × ((operator_new (granted k) n).1 ≡ granted (suc k))
unfolding operator_new granted
operator_new-page k n pos small lt =
    let e = allocate-page (granted k) n (granted-size k) pos small in
    (
      ap (λ (o : Outcome ℕ × VmPool). address o.0) e ∙ granted-page k lt,
      ap (λ (o : Outcome ℕ × VmPool). o.1) e,
    )

-- A pool as it was given.
abbrev same_new : (p q : VmPool) (n : ℕ) → p ≡ q → operator_new p n ≡ operator_new q n
same_new p q n e = ap (λ r. operator_new r n) e

-- `new` of an object of at most a page.
pub new-Stocked :
    (l : Linked) (w : World) (k i n : ℕ)
    → Stocked l w k i
    → 0 < n
    → n ≤ page_size
    → k < 16
    → ((Life.new n w).0 ≡ page k) × Stocked l (Life.new n w).1 (suc k) i
unfolding Life.new
new-Stocked l w k i n t pos small lt =
    let (at, left) = operator_new-page k n pos small lt in
    let e : operator_new (w.pools w.memory_pool) n ≡ operator_new (granted k) n =
      ap (λ a. operator_new (w.pools a) n) t.in_use ∙ same_new _ _ n t.pool in
    (
      ap (λ (o : ℕ × VmPool). o.0) e ∙ at,
      record {
        in_use = t.in_use;
        pool =
            ap (λ a. update w.pools a (operator_new (w.pools w.memory_pool) n).1 l.pool) t.in_use
            ∙ update_self w.pools l.pool (operator_new (w.pools w.memory_pool) n).1
            ∙ ap (λ (o : ℕ × VmPool). o.1) e
            ∙ left;
        ids = t.ids;
        freed = t.freed;
        kernel = t.kernel;
      },
    )

pub main_world-Stocked :
    (l : Linked) (pools : ℕ → VmPool) (words : ℕ → ℕ)
    → Stocked l (main_world l pools words (VmPool.initial_tables (2 ^ 29) (2 ^ 28))) 0 0
unfolding main_world granted
main_world-Stocked l pools words = record {
  in_use = refl;
  pool = update_self pools l.pool _;
  ids = refl;
  freed = refl;
  kernel = refl;
}
