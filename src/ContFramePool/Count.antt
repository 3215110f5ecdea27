-- ===== src/ContFramePool/Count.antt =====
-- The free frames counted, the loop that marks a range, and the invariant of a pool.
use multi_process.Base.{
  ℕ, zero, suc, ◌+◌, ◌-◌, ◌≤◌, ◌<◌, ◌^◌, min, ◌≡◌, refl, ◌≢◌, Bool, false, ◌&&◌, arith, ltb, leb,
  if◌then◌else◌, word,
}
use multi_process.ContFramePool.{
  ContFramePool, FrameState, free, used, is_free, get_state, set_state, set_states,
}
use multi_process.ContFramePool.Bits.{Bytes, set_state-Bytes, get_state-set_state}

-- How many of the frames below `n` are free.
unfoldable pub count_free : ContFramePool → ℕ → ℕ
count_free p zero = 0
count_free p (suc n) = count_free p n + (if is_free (get_state p n) then 1 else 0)

-- `g` lies in the range of `n` frames from `a`.
abbrev pub within : ℕ → ℕ → ℕ → Bool
within a n g = leb a g && ltb g (a + n)

-- What every method needs: it holds of any pool in use, one with an inaccessible range too.
pub record IsUsable (p : ContFramePool) : Type 0 where
  pub bytes : Bytes p
  pub small : p.nframes < 2 ^ 31
  pub placed : p.base_frame_no + p.nframes < word
  pub enough : count_free p p.nframes ≤ p.n_free_frames
  pub room : p.n_free_frames ≤ p.nframes

-- The invariant of a pool with no inaccessible range: the count of free frames is exact, and each
-- frame in use that is not a head continues a sequence.
pub record IsValid (p : ContFramePool) : Type 0 where
  pub usable : IsUsable p
  pub open usable use *
  pub counted : p.n_free_frames ≡ count_free p p.nframes
  pub first : 0 < p.nframes → get_state p 0 ≢ used
  pub linked : (f : ℕ) → suc f < p.nframes → get_state p f ≡ free → get_state p (suc f) ≢ used

module _ (s t : ContFramePool) (a n limit : ℕ) where
  -- The frames of the range are free in `s`, not free in `t`, and the others agree.
  pub record Taken : Type 0 where
    pub was : (g : ℕ) → a ≤ g → g < a + n → get_state s g ≡ free
    pub now : (g : ℕ) → a ≤ g → g < a + n → get_state t g ≢ free
    pub other : (g : ℕ) → g < limit → within a n g ≡ false → get_state t g ≡ get_state s g

  count_free-below :
      Taken → (k : ℕ) → k ≤ limit → count_free t k + (min k (a + n) - min k a) ≡ count_free s k
  unfolding count_free
  count_free-below h zero le = omega arith
  count_free-below h (suc k) le = ground (arith, count_free-below h k, h.was k, h.now k, h.other k)

  pub count_free-Taken : Taken → a + n ≤ limit → count_free t limit + n ≡ count_free s limit
  count_free-Taken h fits = omega (arith, count_free-below h limit (omega arith))

pub set_states-Bytes :
    (st : FrameState) (k f : ℕ) (p : ContFramePool) → Bytes p → Bytes (set_states st k f p)
unfolding set_states
set_states-Bytes st zero f p h = h
set_states-Bytes st (suc k) f p h =
    set_states-Bytes st k (f + 1) (set_state p f st) (set_state-Bytes p f st h)

-- The loop sets exactly the range.
pub get_state-set_states :
    (st : FrameState) (k f g : ℕ) (p : ContFramePool)
    → Bytes p
    → f + k ≤ 2 ^ 31
    → g < 2 ^ 31
    → get_state (set_states st k f p) g ≡ (if within f k g then st else get_state p g)
unfolding set_states
get_state-set_states st zero f g p h hf hg = ground arith
get_state-set_states st (suc k) f g p h hf hg = ground (
  arith,
  get_state-set_states st k (f + 1) g (set_state p f st) (set_state-Bytes p f st h),
  get_state-set_state p f g st h,
)

pub count_free-le : (p : ContFramePool) (k : ℕ) → count_free p k ≤ k
unfolding count_free
count_free-le p zero = omega arith
count_free-le p (suc k) = ground (arith, count_free-le p k)

pub count_free-ge :
    (p : ContFramePool) (a n k : ℕ)
    → ((g : ℕ) → a ≤ g → g < a + n → get_state p g ≡ free)
    → min k (a + n) - min k a ≤ count_free p k
unfolding count_free
count_free-ge p a n zero h = omega arith
count_free-ge p a n (suc k) h = ground (arith, count_free-ge p a n k h, h k)

-- The loop touches nothing but the bitmap.
pub set_states-fields :
    (st : FrameState) (k f : ℕ) (p : ContFramePool)
    → ((set_states st k f p).nframes ≡ p.nframes)
      × ((set_states st k f p).base_frame_no ≡ p.base_frame_no)
      × ((set_states st k f p).n_free_frames ≡ p.n_free_frames)
unfolding set_states set_state
set_states-fields st zero f p = (refl, refl, refl)
set_states-fields st (suc k) f p = set_states-fields st k (f + 1) (set_state p f st)

-- A pool whose free frames are free in another has no more of them.
pub count_free_mono :
    (p q : ContFramePool) (k : ℕ)
    → ((g : ℕ) → g < k → get_state q g ≡ free → get_state p g ≡ free)
    → count_free q k ≤ count_free p k
unfolding count_free
count_free_mono p q zero h = omega arith
count_free_mono p q (suc k) h =
    ground (arith, count_free_mono p q k (λ g lt. h g (omega arith)), h k (omega arith))
