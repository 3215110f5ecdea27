-- ===== src/ContFramePool/Release.antt =====
-- `_release_frames` frees exactly the sequence whose head it is given.
use multi_process.Base.{
  ℕ, zero, suc, ◌+◌, ◌-◌, ◌≤◌, ◌<◌, ◌^◌, ◌≡◌, refl, ◌≢◌, arith, ◌⊎◌, if◌then◌else◌, word,
  Bool-cases, inl, inr, ◌∙◌, dec_lt,
}
use multi_process.ContFramePool.{
  ContFramePool, free, used, hos, is_used, is_hos, get_state, set_state, free_frame, release_loop,
  release_own,
}
use multi_process.ContFramePool.Bits.{Bytes, get_state-set_state, set_state-Bytes, get_state-count}
use multi_process.ContFramePool.Count.{IsUsable, within}

-- From `start` on `p` holds an allocated sequence of `m` frames: its head, then frames in use, up
-- to the end of the pool or a frame that is not in use.
pub record Sequence (p : ContFramePool) (start m : ℕ) : Type 0 where
  pub nonempty : 0 < m
  pub fits : start + m ≤ p.nframes
  pub head : get_state p start ≡ hos
  pub rest : (f : ℕ) → start < f → f < start + m → get_state p f ≡ used
  pub ends : start + m < p.nframes → get_state p (start + m) ≢ used

-- The pool `q` is `p` with the `m` frames from `start` freed.
pub record Released (p : ContFramePool) (start m : ℕ) (q : ContFramePool) : Type 0 where
  pub states :
      (g : ℕ) → g < 2 ^ 31 → get_state q g ≡ (if within start m g then free else get_state p g)
  pub bytes : Bytes q
  pub count : q.n_free_frames ≡ p.n_free_frames + m
  pub base : q.base_frame_no ≡ p.base_frame_no
  pub size : q.nframes ≡ p.nframes

-- What the loop does that starts at frame `fno` and may go on for `rounds` more.
record Cleared (p : ContFramePool) (fno rounds m : ℕ) (q : ContFramePool) : Type 0 where
  some_frame : 0 < m
  bounded : m ≤ rounds + 1
  rest : (f : ℕ) → fno < f → f < fno + m → get_state p f ≡ used
  ends : m < rounds + 1 → get_state p (fno + m) ≢ used
  released : Released p fno m q

free_frame-Released :
    (p : ContFramePool) (f : ℕ)
    → Bytes p
    → f < 2 ^ 31
    → p.n_free_frames + 1 < word
    → Released p f 1 (free_frame p f)
unfolding free_frame set_state
free_frame-Released p f b hf hn = record {
  states = λ g hg.
      get_state-count (set_state p f free) _ g ∙ ground (arith, get_state-set_state p f g free b);
  bytes = set_state-Bytes p f free b;
  count = omega arith;
  base = refl;
  size = refl;
}

Cleared-one :
    (p : ContFramePool) (fno rounds : ℕ) (q : ContFramePool)
    → Released p fno 1 q
    → (0 < rounds → get_state p (fno + 1) ≢ used)
    → Cleared p fno rounds 1 q
Cleared-one p fno rounds q r stop = record {
  some_frame = omega arith;
  bounded = omega arith;
  rest = λ f lo hi. absurd (omega arith);
  ends = λ lt. stop (omega arith);
  released = r;
}

Cleared-more :
    (p p' : ContFramePool) (fno rounds m : ℕ) (q : ContFramePool)
    → fno + suc rounds < 2 ^ 31
    → Released p fno 1 p'
    → get_state p (fno + 1) ≡ used
    → Cleared p' (fno + 1) rounds m q
    → Cleared p fno (suc rounds) (m + 1) q
Cleared-more p p' fno rounds m q small r us c = record {
  some_frame = omega arith;
  bounded = omega (arith, c.bounded);
  rest = λ f lo hi. ground (arith, c.rest f, r.states f, c.bounded);
  ends = λ lt is. ground (arith, c.ends, r.states (fno + 1 + m), c.bounded);
  released = record {
    states = λ g hg. ground (arith, c.released.states g, r.states g);
    bytes = c.released.bytes;
    count = omega (arith, c.released.count, r.count);
    base = c.released.base ∙ r.base;
    size = c.released.size ∙ r.size;
  };
}

release_loop_lem :
    (rounds fno : ℕ) (p : ContFramePool)
    → Bytes p
    → fno + rounds < 2 ^ 31
    → p.n_free_frames + rounds + 1 < word
    → (m : ℕ) × Cleared p fno rounds m (release_loop rounds fno p)
unfolding release_loop
release_loop_lem zero fno p b hf hn = (
  1,
  Cleared-one p fno 0 _ (free_frame-Released p fno b (omega arith) (omega arith))
      (λ lt. absurd (omega arith)),
)
release_loop_lem (suc k) fno p b hf hn =
    let r = free_frame-Released p fno b (omega arith) (omega arith) in
    let same : get_state (free_frame p fno) (fno + 1) ≡ get_state p (fno + 1) =
      ground (arith, r.states (fno + 1)) in
    elim (Bool-cases (is_used (get_state (free_frame p fno) (fno + 1)))) [
      | inl us ↦
          let (m, c) =
            release_loop_lem k (fno + 1) (free_frame p fno) r.bytes (omega arith)
              (omega (arith, r.count)) in
          (m + 1, rw us (Cleared-more p (free_frame p fno) fno k m _ hf r (ground arith) c))
      | inr stop ↦ (1, rw stop (Cleared-one p fno (suc k) _ r (λ _. ground arith)))
    ]

module _ (p : ContFramePool) (start : ℕ) (v : IsUsable p) (inside : start < p.nframes) where
  -- `_release_frames` given a frame of a usable pool: at the head of a sequence it frees all
  -- frames of that sequence, counts them and touches no other frame; elsewhere it changes nothing.
  pub release_own_lem :
      ((m : ℕ) × Sequence p start m × Released p start m (release_own p start))
      ⊎ ((get_state p start ≢ hos) × (release_own p start ≡ p))
  unfolding release_own
  release_own_lem = elim (Bool-cases (is_hos (get_state p start))) [
    | inl h ↦
        let (m, c) =
          release_loop_lem (p.nframes - (start + 1)) start p v.bytes (omega (arith, v.small))
            (omega (arith, v.small, v.room)) in
        inl (
          m,
          record {
            nonempty = c.some_frame;
            fits = omega (arith, c.bounded);
            head = ground arith;
            rest = c.rest;
            ends = λ lt. c.ends (omega arith);
          },
          rw h c.released,
        )
    | inr h ↦ inr (ground arith, rw h)
  ]

-- A sequence has one length.
pub Sequence-unique :
    (p : ContFramePool) (start m n : ℕ) → Sequence p start m → Sequence p start n → m ≡ n
Sequence-unique p start m n a b = elim (dec_lt m n) [
  | yes lt ↦ absurd (
      a.ends (omega (arith, b.fits)) (b.rest (start + m) (omega (arith, a.nonempty)) (omega arith)))
  | no ge ↦ elim (dec_lt n m) [
    | yes lt ↦ absurd (
        b.ends (omega (arith, a.fits))
          (a.rest (start + n) (omega (arith, b.nonempty)) (omega arith)))
    | no le ↦ omega arith
  ]
]
