-- ===== src/ContFramePool/Get.antt =====
-- `ContFramePool::get_frames`: what it grants, and when it refuses.
use multi_process.Base.{
  ==_iff, ◌∙◌, ltb→lt, ℕ, ◌+◌, ◌-◌, ◌≤◌, ◌<◌, ◌^◌, ◌≡◌, refl, false, arith, ltb, ◌⊎◌, ◌==◌,
  if◌then◌else◌, Bool-cases, inl, inr, add32,
}
use multi_process.ContFramePool.{
  ContFramePool, used, hos, get_state, set_state, set_states, scan, get_frames, take_frames,
}
use multi_process.ContFramePool.Bits.{Bytes, get_state-set_state, set_state-Bytes, get_state-count}
use multi_process.ContFramePool.Count.{
  IsUsable, within, count_free, count_free-ge, get_state-set_states, set_states-Bytes,
  set_states-fields,
}
use multi_process.ContFramePool.Scan.{FreeRun, NoRun, Looking-start, scan_lem}

-- The pool `q` is `p` with the `n` frames from `start` allocated as one sequence.
pub record Allocated (p : ContFramePool) (n start : ℕ) (q : ContFramePool) : Type 0 where
  pub fits : start + n ≤ p.nframes
  pub was : FreeRun p n start
  pub states :
      (g : ℕ)
      → g < 2 ^ 31
      → get_state q g
        ≡ (if g == start then hos else if within start n g then used else get_state p g)
  pub bytes : Bytes q
  pub count : q.n_free_frames + n ≡ p.n_free_frames
  pub base : q.base_frame_no ≡ p.base_frame_no
  pub size : q.nframes ≡ p.nframes

pub record Granted (p : ContFramePool) (n start : ℕ) (out : ℕ × ContFramePool) : Type 0 where
  pub frame : out.0 ≡ p.base_frame_no + start
  pub least : (a : ℕ) → a < start → ¬ (FreeRun p n a)
  pub allocated : Allocated p n start out.1

pub record Refused (p : ContFramePool) (n : ℕ) (out : ℕ × ContFramePool) : Type 0 where
  pub failed : out.0 ≡ 0
  pub unchanged : out.1 ≡ p
  pub absent : NoRun p n p.nframes

marked : ContFramePool → ℕ → ℕ → ContFramePool
marked p n start = set_state (set_states used n start p) start hos

get_state-marked :
    (p : ContFramePool) (n start g : ℕ)
    → Bytes p
    → 0 < n
    → start + n ≤ 2 ^ 31
    → g < 2 ^ 31
    → get_state (marked p n start) g
      ≡ (if g == start then hos else if within start n g then used else get_state p g)
unfolding marked
get_state-marked p n start g b pos h hg = ground (
  arith,
  get_state-set_state (set_states used n start p) start g hos (set_states-Bytes used n start p b),
  get_state-set_states used n start g p b,
)

marked-Bytes : (p : ContFramePool) (n start : ℕ) → Bytes p → Bytes (marked p n start)
unfolding marked
marked-Bytes p n start b =
    set_state-Bytes (set_states used n start p) start hos (set_states-Bytes used n start p b)

fields-marked :
    (p : ContFramePool) (n start : ℕ)
    → ((marked p n start).nframes ≡ p.nframes)
      × ((marked p n start).base_frame_no ≡ p.base_frame_no)
      × ((marked p n start).n_free_frames ≡ p.n_free_frames)
unfolding marked set_state
fields-marked p n start = set_states-fields used n start p

run-le-count : (p : ContFramePool) (n a k : ℕ) → FreeRun p n a → a + n ≤ k → n ≤ count_free p k
run-le-count p n a k run fits = omega (arith, count_free-ge p a n k run)

module _ (p : ContFramePool) (n : ℕ) (v : IsUsable p) (pos : 0 < n) where
  take_frames-Allocated :
      (start : ℕ)
      → start + n ≤ p.nframes
      → FreeRun p n start
      → Allocated p n start (take_frames p n start)
  unfolding take_frames marked
  take_frames-Allocated start fits run =
      let rounds : add32 start n - start ≡ n = omega (arith, v.small) in
      rw rounds (record {
        fits = fits;
        was = run;
        states = λ g small.
            get_state-count (marked p n start) _ g
            ∙ get_state-marked p n start g v.bytes pos (omega (arith, v.small)) small;
        bytes = marked-Bytes p n start v.bytes;
        count = omega (
          arith,
          fields-marked p n start,
          run-le-count p n start p.nframes run fits,
          v.enough,
          v.room,
          v.small,
        );
        base = (fields-marked p n start).1;
        size = (fields-marked p n start).0;
      })

  -- On a usable pool a request for at least one frame is granted at the lowest run of that many
  -- free frames, if there is one. Otherwise it returns 0 and changes nothing.
  pub get_frames_lem :
      ((start : ℕ) × Granted p n start (get_frames p n)) ⊎ Refused p n (get_frames p n)
  unfolding get_frames
  get_frames_lem = elim (Bool-cases (ltb p.n_free_frames n)) [
    | inl few ↦ inr (
        rw few (record {
          failed = refl;
          unchanged = refl;
          absent = λ a fits run.
              absurd
                (omega (arith, run-le-count p n a p.nframes run fits, v.enough, ltb→lt _ _ few));
        }))
    | inr enough ↦
        elim (scan_lem p n p.nframes 0 0 p.nframes (Looking-start p n pos) (omega arith) v.small) [
          | inl f ↦ inl (
            (scan p n p.nframes 0 0).1,
            rw (enough, (==_iff _ n).1 f.enough)
                (record {
                  frame = omega (arith, f.fits, v.placed);
                  least = f.least;
                  allocated = take_frames-Allocated (scan p n p.nframes 0 0).1 f.fits f.run;
                }),
          )
          | inr m ↦
              let no_run : ((scan p n p.nframes 0 0).0 == n) ≡ false = ground (arith, m.short) in
              inr (
                rw (enough, no_run) (record { failed = refl; unchanged = refl; absent = m.absent }))
        ]
  ]
