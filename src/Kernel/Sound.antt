-- ===== src/Kernel/Sound.antt =====
-- The invariant of Life: whatever the order of interrupts and returns, each thread is reclaimed.
use multi_process.Base.{
  some, get_elem?, ℕ, ◌*◌, ◌<◌, ◌≡◌, sym, ap, ◌∙◌, [], ◌∷◌, ◌==◌, arith, Bool-cases, inl, inr,
}
use mathlib.Core.Path.{subst}
use multi_process.PageTable.{Memory}
use multi_process.Scheduler.{Thread, Scheduler}
use multi_process.Scheduler.Population.{count}
use multi_process.Thread.Life.{ThreadObject}
use multi_process.Thread.Switch.{Switch}
use multi_process.Thread.End.{Owns, Unmoved}
use multi_process.Kernel.Main.{Linked, Kernel}
use multi_process.Kernel.Creation.{Made}
use multi_process.Kernel.Multitasking.{Reachable}
use multi_process.Kernel.Started.{Started}
use multi_process.Kernel.Exit.{object_at}
use multi_process.VmPool.{region, page_size}
use multi_process.Kernel.Objects.{granted, page}
use multi_process.Kernel.Stock.{Keeps, granted-held, granted-IsPartition, spare_at}
use multi_process.Kernel.Life.{created, Placed, Sound}

-- What holds of the four threads holds of each created one.
created-each :
    (P : Thread → Type 0) (a b c d t : Thread)
    → P a
    → P b
    → P c
    → P d
    → 0 < count t (a ∷ b ∷ c ∷ d ∷ [])
    → P t
unfolding count
created-each P a b c d t pa pb pc pd h = elim (Bool-cases (a == t)) [
  | inl e ↦ subst P (ground (arith, e)) pa
  | inr na ↦ elim (Bool-cases (b == t)) [
    | inl e ↦ subst P (ground (arith, e)) pb
    | inr nb ↦ elim (Bool-cases (c == t)) [
      | inl e ↦ subst P (ground (arith, e)) pc
      | inr nc ↦ subst P (ground (arith, na, nb, nc, h)) pd
    ]
  ]
]

Made-Placed :
    (l : Linked) (k : Kernel) (i j : ℕ) (o : ℕ × ThreadObject)
    → Made l (3 * i) j o
    → k.switch.thread o.0 ≡ o.1
    → Placed l k o.0
Made-Placed l k i j o m e = record {
  i = i;
  at = m.at;
  pool = ap (λ (t : ThreadObject). t.pool) e ∙ m.own_pool;
  kernel = ap (λ (t : ThreadObject). t.kernel_memory_pool) e ∙ m.kernel_pool;
}

Started-Keeps :
    (mmu : Memory → ℕ → ℕ → ℕ) (l : Linked) (k : Kernel)
    → Started mmu l k
    → Keeps (k.switch.world.pools l.pool) (created k) k.scheduler.deleted
unfolding count
Started-Keeps mmu l k st =
    let (h1, h2, h3, h4) = granted-held in
    let there : (j m : ℕ) (a : Thread)
        → a ≡ page m
        → get_elem? (granted 15).alloc j ≡ some (region (page m) page_size)
        → (i : ℕ) × (get_elem? (granted 15).alloc i ≡ some (region a page_size)) =
      λ j m a e h. (j, h ∙ ap (λ b. some (region b page_size)) (sym e)) in
    subst (λ p. Keeps p (created k) k.scheduler.deleted) (sym st.stocked.pool)
      (subst (Keeps (granted 15) (created k)) (sym st.running.none_deleted) (record {
        parted = granted-IsPartition 15;
        held = λ t lt.
            created-each
              (λ a. (i : ℕ) × (get_elem? (granted 15).alloc i ≡ some (region a page_size)))
              (k.threads 1).0 (k.threads 2).0 (k.threads 3).0 (k.threads 4).0 t
              (there 4 3 (k.threads 1).0 st.one.at h1) (there 7 6 (k.threads 2).0 st.two.at h2)
              (there 10 9 (k.threads 3).0 st.three.at h3)
              (there 13 12 (k.threads 4).0 st.four.at h4) lt;
        spare = λ j pos le. spare_at j pos le;
      }))

pub Started-Sound :
    (mmu : Memory → ℕ → ℕ → ℕ) (l : Linked) (k : Kernel) → Started mmu l k → Sound l k
unfolding count
Started-Sound mmu l k st =
    let (e1, e2, e3, e4) = object_at mmu l k st in
    let (o1, o2, o3, o4) = st.owns in
    let own : (o : ℕ × ThreadObject)
        → k.switch.thread o.0 ≡ o.1
        → Owns 1024 o.1 k.switch.world
        → Owns 1024 (k.switch.thread o.0) k.switch.world =
      λ o e w. subst (λ t. Owns 1024 t k.switch.world) (sym e) w in
    record {
      reachable = st.running.reachable;
      table =
          st.in_force.0
          ∙ ap (λ (t : ThreadObject). t.pt) (sym e1)
          ∙ ap (λ a. (k.switch.thread a).pt) (sym st.running.runs.current);
      owns = λ t lt.
          created-each (λ a. Owns 1024 (k.switch.thread a) k.switch.world) (k.threads 1).0
            (k.threads 2).0 (k.threads 3).0 (k.threads 4).0 t (own (k.threads 1) e1 o1)
            (own (k.threads 2) e2 o2) (own (k.threads 3) e3 o3) (own (k.threads 4) e4 o4)
            (omega (arith, lt));
      placed = λ t pos.
          created-each (Placed l k) (k.threads 1).0 (k.threads 2).0 (k.threads 3).0 (k.threads 4).0
            t (Made-Placed l k 1 1 (k.threads 1) st.one e1)
            (Made-Placed l k 2 2 (k.threads 2) st.two e2)
            (Made-Placed l k 3 3 (k.threads 3) st.three e3)
            (Made-Placed l k 4 4 (k.threads 4) st.four e4) pos;
      stock = Started-Keeps mmu l k st;
    }

-- The place of a thread is that of its object.
pub Placed-thread :
    (l : Linked) (k k' : Kernel) (t : Thread)
    → k'.switch.thread ≡ k.switch.thread
    → Placed l k t
    → Placed l k' t
Placed-thread l k k' t e p = record {
  i = p.i;
  at = p.at;
  pool = ap (λ (f : ℕ → ThreadObject). (f t).pool) e ∙ p.pool;
  kernel = ap (λ (f : ℕ → ThreadObject). (f t).kernel_memory_pool) e ∙ p.kernel;
}

pub Owns-pool :
    (n : ℕ) (s s' : Switch) (t : Thread)
    → s'.thread ≡ s.thread
    → s'.world.pools (s.thread t).pool ≡ s.world.pools (s.thread t).pool
    → Owns n (s.thread t) s.world
    → Owns n (s'.thread t) s'.world
Owns-pool n s s' t e same o =
    subst (λ (f : ℕ → ThreadObject). Owns n (f t) s'.world) (sym e)
      (record { stack = o.stack; own = same ∙ o.own; apart = o.apart })

-- A step that deletes no thread and moves no pool.
pub Unmoved-Sound :
    (l : Linked) (k : Kernel) (s : Scheduler) (sw : Switch)
    → Sound l k
    → Unmoved k.switch sw
    → s.deleted ≡ k.scheduler.deleted
    → Reachable s (created k)
    → sw.cr3 ≡ (k.switch.thread s.current).pt
    → Sound l (record k { scheduler = s; switch = sw })
Unmoved-Sound l k s sw h u kept r table = record {
  reachable = r;
  table = table ∙ ap (λ (f : ℕ → ThreadObject). (f s.current).pt) (sym u.thread);
  owns = λ t lt.
      Owns-pool 1024 k.switch sw t u.thread (ap (λ p. p (k.switch.thread t).pool) u.pools)
        (h.owns t (omega (arith, lt, ap (count t) kept)));
  placed = λ t pos.
      Placed-thread l k (record k { scheduler = s; switch = sw }) t u.thread (h.placed t pos);
  stock =
      subst (λ p. Keeps (p l.pool) (created k) s.deleted) (sym u.pools)
        (subst (Keeps (k.switch.world.pools l.pool) (created k)) (sym kept) h.stock);
}
