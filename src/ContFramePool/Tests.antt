-- ===== src/ContFramePool/Tests.antt =====
-- Runs of the frame pool, and its theorems at small pools.
use multi_process.Base.{
  ℕ, zero, suc, ◌+◌, ◌<◌, ◌≤◌, ◌≡◌, ◌≢◌, refl, true, [], ◌∷◌, ◌++◌, ◌⊎◌, inr, arith, ◌==◌,
  if◌then◌else◌,
}
use multi_process.ContFramePool.{
  ContFramePool, free, used, hos, get_state, set_state, set_states, construct, initial_pool,
  reserve_info, needed_info_frames, scan, take_frames, get_frames, mark_inaccessible, free_frame,
  release_loop, release_own, release_frames, read_byte, write_byte,
}
use multi_process.ContFramePool.Bits.{get_state-set_state}
use multi_process.ContFramePool.Count.{IsValid}
use multi_process.ContFramePool.Get.{Granted, Refused, get_frames_lem}
use multi_process.ContFramePool.Release.{Sequence, Released, release_own_lem}
use multi_process.ContFramePool.Invariant.{get_frames-IsUsable}
use multi_process.ContFramePool.Chain.{SameFrames, get_frames-release_frames}
use multi_process.ContFramePool.Reachable.{
  AllValid, Reachable, start, next, request, give_back, Reachable-AllValid,
}
use multi_process.ContFramePool.Boot.{Fresh, info_frames, construct-Fresh}
use multi_process.ContFramePool.Hole.{
  InPool, mark_inaccessible-IsUsable, mark_inaccessible-get_frames, release_own-overruns,
}

-- Eight frames from 16 on; the pool holds its own bitmap. The memory holds rubbish before.
abbrev pool : ContFramePool
pool = construct (λ _. 0xa5) 16 8 0

-- Eight frames from 4 on, with the bitmap elsewhere.
abbrev other : ContFramePool
other = construct (λ _. 0xff) 4 8 2

pool-Fresh : Fresh 16 8 (info_frames 8 0) pool × IsValid pool
pool-Fresh = construct-Fresh (λ _. 0xa5) 16 8 0 (λ i. omega arith) (omega arith) (omega arith)

other-Fresh : Fresh 4 8 (info_frames 8 2) other × IsValid other
other-Fresh = construct-Fresh (λ _. 0xff) 4 8 2 (λ i. omega arith) (omega arith) (omega arith)

-- everything that a run computes with
runs : ContFramePool → ℕ → ℕ
unfolding construct initial_pool reserve_info set_states set_state read_byte write_byte get_state
    needed_info_frames scan take_frames get_frames release_frames release_own release_loop
    free_frame mark_inaccessible
runs p n = (get_frames p n).0

get_frames_run : runs pool 3 ≡ 17
unfolding runs
get_frames_run = refl

-- A request for no frames marks the frame behind the first one in use as a head, uncounted.
get_frames_none :
    (get_state (get_frames pool 0).1 1 ≡ hos) × ((get_frames pool 0).1.n_free_frames ≡ 7)
unfolding runs
get_frames_none = (refl, refl)

get_frames_refuses : runs pool 8 ≡ 0
unfolding runs
get_frames_refuses = refl

release_frames_run : get_state (release_own (get_frames pool 3).1 1) 3 ≡ free
unfolding runs
release_frames_run = refl

get_frames_lem_example :
    ((start : ℕ) × Granted pool 3 start (get_frames pool 3)) ⊎ Refused pool 3 (get_frames pool 3)
get_frames_lem_example = get_frames_lem pool 3 pool-Fresh.1.usable (omega arith)

get_frames-release_frames_example :
    (q : ContFramePool) × (release_frames
        ((other ∷ []) ++ ((get_frames pool 3).1 ∷ []))
        (get_frames pool 3).0
      ≡ (true, (other ∷ []) ++ (q ∷ [])))
    × SameFrames pool q
unfolding runs
get_frames-release_frames_example =
    get_frames-release_frames (other ∷ []) [] pool 3 pool-Fresh.1 (omega arith) (omega arith)
      (record { placed = omega arith; outside = inr (omega arith) }, tt)

get_state-set_state_example :
    get_state (set_state pool 5 hos) 6 ≡ (if 5 == 6 then hos else get_state pool 6)
get_state-set_state_example =
    get_state-set_state pool 5 6 hos pool-Fresh.1.usable.bytes (omega arith) (omega arith)

release_own_lem_example :
    ((m : ℕ) × Sequence pool 0 m × Released pool 0 m (release_own pool 0))
    ⊎ ((get_state pool 0 ≢ hos) × (release_own pool 0 ≡ pool))
unfolding runs
release_own_lem_example = release_own_lem pool 0 pool-Fresh.1.usable (omega arith)

-- Frames 7 and 8 of the machine, numbers 3 and 4 of `other`.
hole : InPool other 7 2
unfolding runs
hole = record {
  usable = other-Fresh.1.usable;
  below = omega arith;
  above = omega arith;
  low = omega arith;
}

abbrev holed : ContFramePool
holed = mark_inaccessible other 7 2

mark_inaccessible-get_frames_example :
    ((start : ℕ) × Granted holed 2 start (get_frames holed 2)
      × ((f : ℕ)
          → 7 ≤ other.base_frame_no + f
          → other.base_frame_no + f < 7 + 2
          → (f < start) ⊎ (start + 2 ≤ f)))
    ⊎ Refused holed 2 (get_frames holed 2)
mark_inaccessible-get_frames_example = mark_inaccessible-get_frames other 7 2 hole 2 (omega arith)

other-free :
    (g : ℕ) → 7 ≤ other.base_frame_no + g → other.base_frame_no + g < 9 → get_state other g ≡ free
unfolding runs
other-free g lo hi = ground (arith, other-Fresh.0.states g)

-- The three frames below the hole, allocated.
abbrev full : ContFramePool
full = (get_frames holed 3).1

full-used : (f : ℕ) → 0 < f → f < 0 + 3 → get_state full f ≡ used
unfolding runs
full-used zero lo hi = absurd (omega arith)
full-used (suc zero) lo hi = refl
full-used (suc (suc zero)) lo hi = refl
full-used (suc (suc (suc f))) lo hi = absurd (omega arith)

release_own-overruns_example : get_state (release_own full 0) (0 + 3) ≡ free
unfolding runs
release_own-overruns_example =
    release_own-overruns full 0 3
      (get_frames-IsUsable holed 3 (mark_inaccessible-IsUsable other 7 2 hole) (omega arith))
      (omega arith) (omega arith) refl full-used refl

-- Three frames of the second pool, then the release of one that no pool manages.
abbrev history :
    Reachable (other ∷ pool ∷ []) (release_frames (other ∷ (get_frames pool 3).1 ∷ []) 100).1
history =
    next (next start (request (other ∷ []) [] pool 3 refl (omega arith) refl)) (give_back 100 refl)

Reachable-AllValid_example : AllValid (release_frames (other ∷ (get_frames pool 3).1 ∷ []) 100).1
Reachable-AllValid_example = Reachable-AllValid (other-Fresh.1, (pool-Fresh.1, tt)) history
