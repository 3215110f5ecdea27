-- ===== src/ContFramePool/Hole.antt =====
-- `mark_inaccessible`, by which the kernel takes the memory hole out of a pool.
use multi_process.Base.{
  ap, ℕ, ◌+◌, ◌-◌, ◌≤◌, ◌<◌, ◌^◌, ◌≡◌, arith, ◌⊎◌, ◌==◌, if◌then◌else◌, inl, inr, add32, sub32, ◌∙◌,
  dec_lt,
}
use multi_process.ContFramePool.{
  ContFramePool, free, used, hos, get_state, set_state, set_states, mark_inaccessible, release_own,
  get_frames,
}
use multi_process.ContFramePool.Bits.{Bytes, get_state-set_state, set_state-Bytes}
use multi_process.ContFramePool.Count.{
  IsUsable, IsValid, Taken, within, count_free, count_free-Taken, count_free_mono,
  set_states-fields, set_states-Bytes, get_state-set_states,
}
use multi_process.ContFramePool.Get.{Granted, Refused, get_frames_lem}
use multi_process.ContFramePool.Release.{release_own_lem}

-- The pool `q` is `p` with the `n` frames that the machine numbers from `at` made inaccessible.
pub record Marked (p : ContFramePool) (at n : ℕ) (q : ContFramePool) : Type 0 where
  pub states :
      (g : ℕ)
      → g < 2 ^ 31
      → get_state q g ≡ (
          if g == at
          then hos
          else if within (at - p.base_frame_no) n g
          then used
          else get_state p g)
  pub bytes : Bytes q
  pub count : q.n_free_frames ≡ p.n_free_frames
  pub base : q.base_frame_no ≡ p.base_frame_no
  pub size : q.nframes ≡ p.nframes

-- A range that lies in a usable pool.
pub record InPool (p : ContFramePool) (at n : ℕ) : Type 0 where
  pub usable : IsUsable p
  pub open usable use *
  pub below : p.base_frame_no ≤ at
  pub above : at + n ≤ p.base_frame_no + p.nframes
  pub low : at < 2 ^ 31

module _ (p : ContFramePool) (at n : ℕ) (v : InPool p at n) where
  -- the pool when the loop is done, before the last call of `set_state`
  looped : ContFramePool
  looped = set_states used n (at - p.base_frame_no) p

  looped-Bytes : Bytes looped
  unfolding looped
  looped-Bytes = set_states-Bytes used n (at - p.base_frame_no) p v.bytes

  get_state-looped :
      (g : ℕ)
      → g < 2 ^ 31
      → get_state looped g ≡ (if within (at - p.base_frame_no) n g then used else get_state p g)
  unfolding looped
  get_state-looped g hg =
      get_state-set_states used n (at - p.base_frame_no) g p v.bytes
        (omega (arith, v.below, v.above, v.small)) hg

  fields-looped :
      (looped.nframes ≡ p.nframes)
      × (looped.base_frame_no ≡ p.base_frame_no)
      × (looped.n_free_frames ≡ p.n_free_frames)
  unfolding looped
  fields-looped = set_states-fields used n (at - p.base_frame_no) p

  mark_inaccessible-looped : mark_inaccessible p at n ≡ set_state looped at hos
  unfolding mark_inaccessible looped
  mark_inaccessible-looped =
      let rounds : add32 at n - at ≡ n = omega (arith, v.placed, v.above) in
      let start : sub32 at p.base_frame_no ≡ at - p.base_frame_no =
        omega (arith, v.placed, v.below, v.low) in
      rw (rounds, start)

  -- For a range inside a usable pool: the frames of the range are marked as in use, the frame
  -- whose number within the pool is `at` becomes a head, and no other state and no count changes.
  pub mark_inaccessible_lem : Marked p at n (mark_inaccessible p at n)
  unfolding set_state
  mark_inaccessible_lem = rw mark_inaccessible-looped (record {
    states = λ g hg.
        get_state-set_state looped at g hos looped-Bytes v.low hg
        ∙ ap (λ s. if at == g then hos else s) (get_state-looped g hg)
        ∙ ground arith;
    bytes = set_state-Bytes looped at hos looped-Bytes;
    count = fields-looped.2;
    base = fields-looped.1;
    size = fields-looped.0;
  })

  count_free-marked : count_free (mark_inaccessible p at n) p.nframes ≤ count_free looped p.nframes
  count_free-marked =
      count_free_mono looped (mark_inaccessible p at n) p.nframes
        λ g lt fr. ground (arith, mark_inaccessible_lem.states g, get_state-looped g, v.small)

  -- The pool with the hole can go on being used.
  pub mark_inaccessible-IsUsable : IsUsable (mark_inaccessible p at n)
  mark_inaccessible-IsUsable = record {
    bytes = m.bytes;
    small = omega (arith, m.size, v.small);
    placed = omega (arith, m.size, m.base, v.placed);
    enough = simp m.size (
        omega (
          arith,
          count_free_mono p (mark_inaccessible p at n) p.nframes
              (λ g lt fr. ground (arith, m.states g, v.small)),
          m.count,
          v.enough,
        ));
    room = omega (arith, m.count, m.size, v.room);
  }
    where
      m : Marked p at n (mark_inaccessible p at n)
      m = mark_inaccessible_lem

  -- No frame of the run that a pool grants after the call is a frame of the range.
  Granted-outside :
      (k start : ℕ) (out : ℕ × ContFramePool)
      → Granted (mark_inaccessible p at n) k start out
      → (f : ℕ) → at ≤ p.base_frame_no + f
      → p.base_frame_no + f < at + n
      → (f < start) ⊎ (start + k ≤ f)
  Granted-outside k start out g f lo hi = elim (dec_lt f start) [
    | yes lt ↦ inl lt
    | no ge ↦ elim (dec_lt f (start + k)) [
      | yes lt ↦
          let fr = g.allocated.was f (omega arith) lt in
          absurd (ground (arith, fr, mark_inaccessible_lem.states f, v.above, v.small))
      | no le ↦ inr (omega arith)
    ]
  ]

  -- A request for at least one frame, to a pool in which a range was marked as inaccessible, is
  -- granted at a run that lies outside the range, or refused since there is no run of that many
  -- free frames.
  pub mark_inaccessible-get_frames :
      (k : ℕ)
      → 0 < k
      → ((start : ℕ) × Granted
            (mark_inaccessible p at n)
            k
            start
            (get_frames (mark_inaccessible p at n) k)
          × ((f : ℕ)
              → at ≤ p.base_frame_no + f
              → p.base_frame_no + f < at + n
              → (f < start) ⊎ (start + k ≤ f)))
        ⊎ Refused (mark_inaccessible p at n) k (get_frames (mark_inaccessible p at n) k)
  mark_inaccessible-get_frames k pos =
      elim (get_frames_lem (mark_inaccessible p at n) k mark_inaccessible-IsUsable pos) [
        | inl (start, g) ↦ inl (start, g, Granted-outside k start _ g)
        | inr r ↦ inr r
      ]

  -- If the range was free, the count of free frames is now more than the free frames: the call
  -- never leaves a valid pool.
  mark_inaccessible-not-IsValid :
      0 < n
      → p.n_free_frames ≡ count_free p p.nframes
      → ((g : ℕ) → at ≤ p.base_frame_no + g → p.base_frame_no + g < at + n → get_state p g ≡ free)
      → ¬ (IsValid (mark_inaccessible p at n))
  mark_inaccessible-not-IsValid pos exact was valid = absurd (
      omega (
        arith,
        valid.counted,
        same_size,
        m.count,
        count_free-marked,
        count_free-Taken p looped (at - p.base_frame_no) n p.nframes taken
            (omega (arith, v.below, v.above)),
      ))
    where
      m : Marked p at n (mark_inaccessible p at n)
      m = mark_inaccessible_lem

      same_size :
          count_free (mark_inaccessible p at n) (mark_inaccessible p at n).nframes
          ≡ count_free (mark_inaccessible p at n) p.nframes
      same_size = ap (count_free (mark_inaccessible p at n)) m.size

      taken : Taken p looped (at - p.base_frame_no) n p.nframes
      taken = record {
        was = λ g lo hi. was g (omega (arith, v.below)) (omega (arith, v.below));
        now = λ g lo hi is. ground (arith, get_state-looped g, v.below, v.above, v.small);
        other = λ g lt out. ground (arith, get_state-looped g, v.small);
      }

-- The loop of `_release_frames` does not know where a sequence ends that a frame in use follows:
-- if the frame behind the sequence is marked as in use, as the first frame of a hole is, the
-- release frees that frame too.
pub release_own-overruns :
    (p : ContFramePool) (start n : ℕ)
    → IsUsable p
    → 0 < n
    → start + n < p.nframes
    → get_state p start ≡ hos
    → ((f : ℕ) → start < f → f < start + n → get_state p f ≡ used)
    → get_state p (start + n) ≡ used
    → get_state (release_own p start) (start + n) ≡ free
release_own-overruns p start n v pos inside head rest behind =
    elim (release_own_lem p start v (omega arith)) [
      | inl (m, s, r) ↦ elim (dec_lt n m) [
        | yes longer ↦ ground (arith, r.states (start + n), v.small)
        | no le ↦ absurd (ground (arith, s.ends, rest (start + m), s.nonempty))
      ]
      | inr (no_head, _) ↦ absurd (no_head head)
    ]
