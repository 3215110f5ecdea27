-- ===== src/Kernel/Boot.antt =====
-- The frame pools when the boot is done.
use multi_process.Base.{
  ℕ, ◌<◌, ◌≡◌, ◌≢◌, refl, sym, ap, ◌∙◌, inl, inr, ◌==◌, if◌then◌else◌, ltb, dec_lt, arith,
}
use mathlib.Core.Path.{subst}
use multi_process.ContFramePool.{
  ContFramePool, free, used, hos, get_state, construct, get_frames, needed_info_frames,
  info_frame_capacity, mark_inaccessible,
}
use multi_process.ContFramePool.Count.{IsUsable, within}
use multi_process.ContFramePool.Scan.{FreeRun}
use multi_process.ContFramePool.Get.{Granted, get_frames_lem}
use multi_process.ContFramePool.Invariant.{get_frames-IsUsable}
use multi_process.ContFramePool.Boot.{Fresh, construct-Fresh}
use multi_process.ContFramePool.Hole.{InPool, mark_inaccessible_lem, mark_inaccessible-IsUsable}
use multi_process.Kernel.{boot_pools}

-- A request for one frame is granted at the first free one.
pub get_frames-first :
    (p : ContFramePool) (k : ℕ)
    → IsUsable p
    → k < p.nframes
    → ((g : ℕ) → g < k → get_state p g ≢ free)
    → get_state p k ≡ free
    → Granted p 1 k (get_frames p 1)
get_frames-first p k u lt below here =
    let run : FreeRun p 1 k = λ g lo hi. let e : g ≡ k = omega arith in ap (get_state p) e ∙ here in
    elim (get_frames_lem p 1 u (omega arith)) [
      | inl (start, g) ↦
          let at : start ≡ k = elim (dec_lt k start) [
            | yes above ↦ absurd (g.least k above run)
            | no not_above ↦ elim (dec_lt start k) [
              | yes under ↦
                  absurd (below start under (g.allocated.was start (omega arith) (omega arith)))
              | no not_under ↦ omega arith
            ]
          ] in
          subst (λ s. Granted p 1 s (get_frames p 1)) at g
      | inr r ↦ absurd (r.absent k (omega arith) run)
    ]

-- What the two pools are at boot.
pub record Booted (kernel process : ContFramePool) : Type 0 where
  pub kernel_valid : IsUsable kernel
  pub kernel_states : (g : ℕ) → g < 512 → get_state kernel g ≡ (if ltb g 2 then hos else free)
  pub kernel_count : kernel.n_free_frames ≡ 510
  pub process_valid : IsUsable process
  pub process_states :
      (g : ℕ)
      → g < 7168
      → get_state process g ≡ (if g == 3840 then hos else if within 2816 256 g then used else free)
  pub process_count : process.n_free_frames ≡ 7168
  pub kernel_place : (kernel.base_frame_no ≡ 512) × (kernel.nframes ≡ 512)
  pub process_place : (process.base_frame_no ≡ 1024) × (process.nframes ≡ 7168)

one_frame : (n : ℕ) → n < info_frame_capacity → 0 < n → needed_info_frames n ≡ 1
unfolding needed_info_frames
one_frame n small pos = ground arith

module _ (memory : ℕ → ℕ) (bytes : (i : ℕ) → memory i < 256) where
  kernel_new : Fresh 512 512 1 (construct memory 512 512 0) × IsUsable (construct memory 512 512 0)
  kernel_new =
      let (f, v) = construct-Fresh memory 512 512 0 bytes (omega arith) (omega arith) in
      (
        subst (λ k. Fresh 512 512 k (construct memory 512 512 0))
            (one_frame 512 (omega arith) (omega arith)) f,
        v.usable,
      )

  process_new :
      Fresh 1024 7168 0 (construct memory 1024 7168 513) × IsUsable (construct memory 1024 7168 513)
  process_new =
      let (f, v) = construct-Fresh memory 1024 7168 513 bytes (omega arith) (omega arith) in
      (f, v.usable)

  kernel-Granted :
      Granted (construct memory 512 512 0) 1 1 (get_frames (construct memory 512 512 0) 1)
  kernel-Granted =
      let f = kernel_new.0 in
      get_frames-first (construct memory 512 512 0) 1 kernel_new.1 (omega (arith, f.size))
        (λ g lt e. ground (arith, f.states g)) (ground (arith, f.states 1))

  info_frame : (get_frames (construct memory 512 512 0) 1).0 ≡ 513
  info_frame = omega (arith, kernel-Granted.frame, kernel_new.0.at)

  hole_InPool : InPool (construct memory 1024 7168 513) 3840 256
  hole_InPool =
      let f = process_new.0 in
      record {
        usable = process_new.1;
        below = omega (arith, f.at);
        above = omega (arith, f.at, f.size);
        low = omega arith;
      }

  boot_pools-eq : boot_pools memory ≡ (
    (get_frames (construct memory 512 512 0) 1).1,
    mark_inaccessible (construct memory 1024 7168 513) 3840 256,
  )
  unfolding boot_pools
  boot_pools-eq = rw (one_frame 7168 (omega arith) (omega arith), info_frame) refl

  -- Whatever the memory held, the boot leaves the kernel's pool with the frames of the two bitmaps
  -- in use, and the process pool with the memory hole in use and, besides, frame 3840 of the pool
  -- marked as a head. Its count of free frames is still the whole of 7168 frames.
  pub boot_pools-Booted : Booted (boot_pools memory).0 (boot_pools memory).1
  boot_pools-Booted =
      let kf = kernel_new.0 in
      let g = kernel-Granted.allocated in
      let pf = process_new.0 in
      let m = mark_inaccessible_lem (construct memory 1024 7168 513) 3840 256 hole_InPool in
      subst (λ (b : ContFramePool × ContFramePool). Booted b.0 b.1) (sym boot_pools-eq)
        (record {
          kernel_valid =
              get_frames-IsUsable (construct memory 512 512 0) 1 kernel_new.1 (omega arith);
          kernel_states = λ f lt. ground (arith, g.states f, kf.states f);
          kernel_count = omega (arith, g.count, kf.count);
          process_valid =
              mark_inaccessible-IsUsable (construct memory 1024 7168 513) 3840 256 hole_InPool;
          process_states = λ f lt. ground (arith, m.states f, pf.states f, pf.at);
          process_count = omega (arith, m.count, pf.count);
          kernel_place = (omega (arith, g.base, kf.at), omega (arith, g.size, kf.size));
          process_place = (omega (arith, m.base, pf.at), omega (arith, m.size, pf.size));
        })
