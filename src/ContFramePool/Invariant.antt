-- ===== src/ContFramePool/Invariant.antt =====
-- Every method keeps the invariant of a pool.
use multi_process.Base.{ℕ, suc, ◌+◌, ◌<◌, ◌≡◌, arith, inl, inr}
use multi_process.ContFramePool.{ContFramePool, get_frames, release_own}
use multi_process.ContFramePool.Count.{
  IsUsable, IsValid, Taken, count_free, count_free-Taken, count_free-le,
}
use multi_process.ContFramePool.Get.{Allocated, get_frames_lem}
use multi_process.ContFramePool.Release.{Sequence, Released, release_own_lem}

module _ (p : ContFramePool) (n start : ℕ) (q : ContFramePool) (v : IsUsable p) (pos : 0 < n)
    (a : Allocated p n start q) where
  count_free-Allocated : count_free q p.nframes + n ≡ count_free p p.nframes
  count_free-Allocated =
      count_free-Taken p q start n p.nframes
        (record {
          was = a.was;
          now = λ g lo hi is. ground (arith, a.states g, a.fits, v.small);
          other = λ g lt out. ground (arith, a.states g, v.small);
        })
        a.fits

  Allocated-IsUsable : IsUsable q
  Allocated-IsUsable = record {
    bytes = a.bytes;
    small = omega (arith, a.size, v.small);
    placed = omega (arith, a.size, a.base, v.placed);
    enough = simp a.size (omega (arith, count_free-Allocated, a.count, v.enough));
    room = omega (arith, a.count, a.size, v.room);
  }

pub Allocated-IsValid :
    (p : ContFramePool) (n start : ℕ) (q : ContFramePool)
    → IsValid p
    → 0 < n
    → Allocated p n start q
    → IsValid q
Allocated-IsValid p n start q v pos a = record {
  usable = Allocated-IsUsable p n start q v.usable pos a;
  counted =
      simp a.size
        (omega (arith, count_free-Allocated p n start q v.usable pos a, a.count, v.counted));
  first = λ lt is. ground (arith, a.states 0, v.first, a.size);
  linked = λ f lt fr us. ground (arith, a.states f, a.states (suc f), v.linked f, a.size, v.small);
}

Released-IsValid :
    (p : ContFramePool) (start m : ℕ) (q : ContFramePool)
    → IsValid p
    → Sequence p start m
    → Released p start m q
    → IsValid q
Released-IsValid p start m q v s r = record {
  usable = record {
    bytes = r.bytes;
    small = omega (arith, r.size, v.small);
    placed = omega (arith, r.size, r.base, v.placed);
    enough = simp r.size (omega (arith, counted));
    room = omega (arith, counted, count_free-le q p.nframes, r.size);
  };
  counted = simp r.size counted;
  first = λ lt is. ground (arith, r.states 0, v.first, r.size);
  linked = λ f lt fr us.
      ground (arith, r.states f, r.states (suc f), v.linked f, s.ends, r.size, v.small);
}
  where
    taken : Taken q p start m p.nframes
    taken = record {
      was = λ g lo hi. ground (arith, r.states g, s.fits, v.small);
      now = λ g lo hi is. ground (arith, s.head, s.rest g);
      other = λ g lt out. ground (arith, r.states g, v.small);
    }

    counted : q.n_free_frames ≡ count_free q p.nframes
    counted = omega (arith, count_free-Taken q p start m p.nframes taken s.fits, r.count, v.counted)

-- A request on a usable pool leaves a usable pool.
pub get_frames-IsUsable :
    (p : ContFramePool) (n : ℕ) → IsUsable p → 0 < n → IsUsable (get_frames p n).1
get_frames-IsUsable p n v pos = elim (get_frames_lem p n v pos) [
  | inl (start, g) ↦ Allocated-IsUsable p n start _ v pos g.allocated
  | inr r ↦ rw r.unchanged v
]

-- A request for at least one frame, granted or refused, leaves a valid pool.
pub get_frames-IsValid :
    (p : ContFramePool) (n : ℕ) → IsValid p → 0 < n → IsValid (get_frames p n).1
get_frames-IsValid p n v pos = elim (get_frames_lem p n v.usable pos) [
  | inl (start, g) ↦ Allocated-IsValid p n start _ v pos g.allocated
  | inr r ↦ rw r.unchanged v
]

-- Releasing any frame of a valid pool leaves a valid pool.
pub release_own-IsValid :
    (p : ContFramePool) (start : ℕ) → IsValid p → start < p.nframes → IsValid (release_own p start)
release_own-IsValid p start v inside = elim (release_own_lem p start v.usable inside) [
  | inl (m, s, r) ↦ Released-IsValid p start m _ v s r
  | inr (_, same) ↦ rw same v
]
