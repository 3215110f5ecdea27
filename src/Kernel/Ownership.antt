-- ===== src/Kernel/Ownership.antt =====
-- Each thread that main makes keeps the memory pool that its constructor gave it.
use multi_process.Base.{ℕ, suc, ◌<◌, ◌≡◌, ◌≢◌, ◌∙◌, arith, update}
use multi_process.Heap.{operator_new}
use multi_process.Thread.Life
use multi_process.Thread.Life.{World, ThreadObject, construct_process, finish, make_pool}
use multi_process.Thread.Lifetime.{thread_pool, update_other}
use multi_process.Thread.End.{Owns}
use multi_process.Kernel.Main.{Linked, main_objects, new_thread, new_scheduler}
use multi_process.Kernel.Objects.{Stocked, Small}
use multi_process.Kernel.Creation.{Made, new_thread-Made, new_scheduler-Stocked}

construct_process-others :
    (s1 s2 shut start f n b : ℕ) (w : World)
    → w.memory_pool ≢ b
    → (construct_process s1 s2 shut start f n w).0.pool ≢ b
    → (construct_process s1 s2 shut start f n w).1.pools b ≡ w.pools b
unfolding construct_process finish make_pool Life.new
construct_process-others s1 s2 shut start f n b w ne ne' =
    let mp = w.memory_pool in
    let one = operator_new (w.pools mp) s1 in
    let m1 = update w.pools mp one.1 in
    let two = operator_new (m1 mp) s2 in
    let m3 = update m1 mp two.1 in
    let m4 = update m3 two.0 thread_pool in
    update_other m4 two.0 b (operator_new (m4 two.0) n).1 ne'
    ∙ update_other m3 two.0 b thread_pool ne'
    ∙ update_other m1 mp b two.1 ne
    ∙ update_other w.pools mp b one.1 ne

new_thread-others :
    (l : Linked) (f b : ℕ) (w : World)
    → w.memory_pool ≢ b
    → (new_thread l f w).0.1.pool ≢ b
    → (new_thread l f w).1.pools b ≡ w.pools b
unfolding new_thread Life.new
new_thread-others l f b w ne ne' =
    construct_process-others l.sizeof_page_table l.sizeof_vm_pool l.thread_shutdown l.thread_start f
      1024 b (Life.new l.sizeof_thread w).1 ne ne'
    ∙ update_other w.pools w.memory_pool b (operator_new (w.pools w.memory_pool) l.sizeof_thread).1
        ne

-- The making of another thread leaves a thread its pool.
new_thread-Owns :
    (l : Linked) (w : World) (k j i i' f : ℕ) (o : ℕ × ThreadObject)
    → Small l
    → Stocked l w k i
    → suc (suc k) < 16
    → Made l j i' o
    → j < k
    → Owns 1024 o.1 w
    → Owns 1024 o.1 (new_thread l f w).1
new_thread-Owns l w k j i i' f o small s room m lt own =
    let (made, _, _, _) = new_thread-Made l w k i f small s room in
    record {
      stack = own.stack;
      own =
          new_thread-others l f o.1.pool w (λ e. omega (arith, e, s.in_use, small.low, m.own_pool))
            (λ e. omega (arith, e, made.own_pool, m.own_pool, lt))
          ∙ own.own;
      apart = own.apart;
    }

pub main_objects-Owns :
    (l : Linked) (w : World)
    → Small l
    → Stocked l w 0 0
    → let o = main_objects l w in
      Owns 1024 (o.1 1).1 o.2
      × Owns 1024 (o.1 2).1 o.2
      × Owns 1024 (o.1 3).1 o.2
      × Owns 1024 (o.1 4).1 o.2
unfolding main_objects
main_objects-Owns l w small s =
    let (_, _, s0) = new_scheduler-Stocked l w 0 0 small s (omega arith) in
    let w0 = (new_scheduler l w).2 in
    let (one, s1, _, own1) = new_thread-Made l w0 3 1 (l.functions 1) small s0 (omega arith) in
    let t1 = (new_thread l (l.functions 1) w0).0 in
    let w1 = (new_thread l (l.functions 1) w0).1 in
    let (two, s2, _, own2) = new_thread-Made l w1 6 2 (l.functions 2) small s1 (omega arith) in
    let t2 = (new_thread l (l.functions 2) w1).0 in
    let w2 = (new_thread l (l.functions 2) w1).1 in
    let (three, s3, _, own3) = new_thread-Made l w2 9 3 (l.functions 3) small s2 (omega arith) in
    let t3 = (new_thread l (l.functions 3) w2).0 in
    let w3 = (new_thread l (l.functions 3) w2).1 in
    let (_, _, _, own4) = new_thread-Made l w3 12 4 (l.functions 4) small s3 (omega arith) in
    let third =
      λ (j i' : ℕ) (o : ℕ × ThreadObject) (m : Made l j i' o) (lt : j < 12)
          (own : Owns 1024 o.1 w3).
        new_thread-Owns l w3 12 j 4 i' (l.functions 4) o small s3 (omega arith) m lt own in
    let second =
      λ (j i' : ℕ) (o : ℕ × ThreadObject) (m : Made l j i' o) (lt : j < 9) (own : Owns 1024 o.1 w2).
        new_thread-Owns l w2 9 j 3 i' (l.functions 3) o small s2 (omega arith) m lt own in
    let own1' =
      new_thread-Owns l w1 6 3 2 1 (l.functions 2) t1 small s1 (omega arith) one (omega arith)
        own1 in
    (
      third 3 1 t1 one (omega arith) (second 3 1 t1 one (omega arith) own1'),
      third 6 2 t2 two (omega arith) (second 6 2 t2 two (omega arith) own2),
      third 9 3 t3 three (omega arith) own3,
      own4,
    )
