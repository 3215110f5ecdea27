-- ===== src/ContFramePool/Chain.antt =====
-- The static `release_frames` over all pools, and allocation followed by release.
use multi_process.Base.{
  lt→ltb, ℕ, suc, ◌+◌, ◌-◌, ◌≤◌, ◌<◌, ◌^◌, ◌≡◌, refl, true, false, arith, ltb, ◌⊎◌, word, inl, inr,
  sub32, ◌∙◌, List, [], ◌∷◌, ◌++◌,
}
use multi_process.ContFramePool.{ContFramePool, get_state, get_frames, release_own, release_frames}
use multi_process.ContFramePool.Count.{IsValid}
use multi_process.ContFramePool.Get.{Allocated, get_frames_lem}
use multi_process.ContFramePool.Invariant.{Allocated-IsValid}
use mathlib.Core.Path.{subst}
use multi_process.ContFramePool.Release.{Sequence, Released, release_own_lem, Sequence-unique}

-- The pool manages frames of 32-bit numbers, this one not among them.
pub record Elsewhere (first : ℕ) (p : ContFramePool) : Type 0 where
  pub placed : p.base_frame_no + p.nframes < word
  pub outside : (first < p.base_frame_no) ⊎ (p.base_frame_no + p.nframes ≤ first)

abbrev pub AllElsewhere : ℕ → List ContFramePool → Type 0
AllElsewhere first [] = Unit {0}
AllElsewhere first (p ∷ ps) = Elsewhere first p × AllElsewhere first ps

-- The unsigned subtraction makes a frame below the pool look far beyond its end.
Elsewhere-test :
    (first : ℕ) (p : ContFramePool)
    → first < word
    → Elsewhere first p
    → ltb (sub32 first p.base_frame_no) p.nframes ≡ false
Elsewhere-test first p h e = ground (arith, e.placed, e.outside)

-- The frame is released in the first pool along the chain that manages it, under its number within
-- that pool, and no other pool changes.
release_frames-owner :
    (before after : List ContFramePool) (owner : ContFramePool) (f : ℕ)
    → AllElsewhere (owner.base_frame_no + f) before
    → f < owner.nframes
    → owner.base_frame_no + owner.nframes < word
    → release_frames (before ++ (owner ∷ after)) (owner.base_frame_no + f)
      ≡ (true, before ++ (release_own owner f ∷ after))
unfolding release_frames
release_frames-owner [] after owner f e lt placed =
    let adjusted : sub32 (owner.base_frame_no + f) owner.base_frame_no ≡ f = omega arith in
    rw (adjusted, lt→ltb _ _ lt)
release_frames-owner (p ∷ ps) after owner f (e, es) lt placed = rw (
  Elsewhere-test (owner.base_frame_no + f) p (omega arith) e,
  release_frames-owner ps after owner f es lt placed,
)

-- A frame that no pool manages is reported, and every pool stays as it is.
release_frames-none :
    (pools : List ContFramePool) (first : ℕ)
    → first < word
    → AllElsewhere first pools
    → release_frames pools first ≡ (false, pools)
unfolding release_frames
release_frames-none [] first h e = refl
release_frames-none (p ∷ ps) first h (e, es) =
    rw (Elsewhere-test first p h e, release_frames-none ps first h es)

-- What a pool answers to its methods: the state of each frame, and the count.
pub record SameFrames (p q : ContFramePool) : Type 0 where
  pub states : (g : ℕ) → g < 2 ^ 31 → get_state q g ≡ get_state p g
  pub count : q.n_free_frames ≡ p.n_free_frames
  pub base : q.base_frame_no ≡ p.base_frame_no
  pub size : q.nframes ≡ p.nframes

module _ (p : ContFramePool) (n start : ℕ) (q : ContFramePool) (v : IsValid p) (pos : 0 < n)
    (a : Allocated p n start q) where
  Allocated-Sequence : Sequence q start n
  Allocated-Sequence = record {
    nonempty = pos;
    fits = omega (arith, a.fits, a.size);
    head = ground (arith, a.states start, a.fits, v.small);
    rest = λ f lo hi. ground (arith, a.states f, a.fits, v.small);
    ends = λ lt is.
        let e : suc (start + n - 1) ≡ start + n = omega arith in
        v.linked (start + n - 1) (omega (arith, a.size))
          (a.was (start + n - 1) (omega arith) (omega arith))
          (rw e (ground (arith, a.states (start + n), v.small, a.size)));
  }

  Released-SameFrames : (q' : ContFramePool) → Released q start n q' → SameFrames p q'
  Released-SameFrames q' r = record {
    states = λ g hg. ground (arith, r.states g, a.states g, a.was g);
    count = omega (arith, r.count, a.count);
    base = r.base ∙ a.base;
    size = r.size ∙ a.size;
  }

  release_own-SameFrames : SameFrames p (release_own q start)
  release_own-SameFrames =
      elim (release_own_lem q start get-valid.usable (omega (arith, a.fits, a.size))) [
        | inl (m, s, r) ↦
            let e : m ≡ n = Sequence-unique q start m n s Allocated-Sequence in
            Released-SameFrames _ (subst (λ k. Released q start k (release_own q start)) e r)
        | inr (no_head, _) ↦ absurd (no_head Allocated-Sequence.head)
      ]
    where
      get-valid : IsValid q
      get-valid = Allocated-IsValid p n start q v pos a

-- Frames, at least one, that `get_frames` returned out of a valid pool and that `release_frames` gets
-- back: when the pools before it in the chain do not manage the first frame, the pool that granted
-- them is found, whatever its place in the chain, and each of its frames and its count are as before
-- the allocation. No other pool changes. A pool is valid if its count is the number of its free frames
-- and each frame in use that is not a head continues a sequence; one with a hole that
-- `mark_inaccessible` made in free frames is not.
pub get_frames-release_frames :
    (before after : List ContFramePool) (p : ContFramePool) (n : ℕ)
    → IsValid p
    → 0 < n
    → 0 < (get_frames p n).0
    → AllElsewhere (get_frames p n).0 before
    → (q : ContFramePool) × (release_frames
          (before ++ ((get_frames p n).1 ∷ after))
          (get_frames p n).0
        ≡ (true, before ++ (q ∷ after)))
      × SameFrames p q
get_frames-release_frames before after p n v pos got apart =
    elim (get_frames_lem p n v.usable pos) [
      | inl (start, g) ↦
          let q = (get_frames p n).1 in
          let a = g.allocated in
          let at : (get_frames p n).0 ≡ q.base_frame_no + start = omega (arith, g.frame, a.base) in
          (
            release_own q start,
            rw at (
                release_frames-owner before after q start
                  (subst (λ r. AllElsewhere r before) at apart) (omega (arith, a.fits, a.size))
                  (omega (arith, a.base, a.size, v.placed))),
            release_own-SameFrames p n start q v pos a,
          )
      | inr r ↦ absurd (omega (arith, r.failed))
    ]
