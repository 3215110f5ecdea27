-- ===== src/ContFramePool/Reachable.antt =====
-- Any history of requests and releases on the chain of frame pools.
use multi_process.Base.{
  ℕ, ◌<◌, ◌≡◌, sym, ltb, ltb→lt, sub32, List, [], ◌∷◌, ◌++◌, Bool-cases, inl, inr,
}
use mathlib.Core.Path.{subst}
use multi_process.ContFramePool.{ContFramePool, get_frames, release_frames}
use multi_process.ContFramePool.Count.{IsValid}
use multi_process.ContFramePool.Invariant.{get_frames-IsValid, release_own-IsValid}

abbrev pub AllValid : List ContFramePool → Type 0
AllValid [] = Unit {0}
AllValid (p ∷ ps) = IsValid p × AllValid ps

-- One call on the chain: a request for at least one frame to one of the pools, or a release of any frame number.
pub data Step (s t : List ContFramePool) : Type 0 where
  request :
      (before after : List ContFramePool) (p : ContFramePool) (n : ℕ)
      → s ≡ before ++ (p ∷ after)
      → 0 < n
      → t ≡ before ++ ((get_frames p n).1 ∷ after)
      → Step s t
  give_back : (frame_no : ℕ) → t ≡ (release_frames s frame_no).1 → Step s t

-- The chains that calls lead to, from `s` on.
pub data Reachable (s : List ContFramePool) : List ContFramePool → Type 0 where
  start : Reachable s s
  next : {t u : List ContFramePool} → Reachable s t → Step t u → Reachable s u

request-AllValid :
    (before after : List ContFramePool) (p q : ContFramePool)
    → (IsValid p → IsValid q)
    → AllValid (before ++ (p ∷ after))
    → AllValid (before ++ (q ∷ after))
request-AllValid [] after p q keep (v, vs) = (keep v, vs)
request-AllValid (b ∷ before) after p q keep (v, vs) =
    (v, request-AllValid before after p q keep vs)

release_frames-AllValid :
    (s : List ContFramePool) (f : ℕ) → AllValid s → AllValid (release_frames s f).1
unfolding release_frames
release_frames-AllValid [] f vs = tt
release_frames-AllValid (p ∷ ps) f (v, vs) =
    elim (Bool-cases (ltb (sub32 f p.base_frame_no) p.nframes)) [
      | inl mine ↦ rw mine (release_own-IsValid p (sub32 f p.base_frame_no) v (ltb→lt _ _ mine), vs)
      | inr other ↦ rw other (v, release_frames-AllValid ps f vs)
    ]

Step-AllValid : {s t : List ContFramePool} → AllValid s → Step s t → AllValid t
Step-AllValid vs (request before after p n from pos to) = subst AllValid (sym to) (
    request-AllValid before after p (get_frames p n).1 (λ v. get_frames-IsValid p n v pos)
      (subst AllValid from vs))
Step-AllValid {s} vs (give_back f to) = subst AllValid (sym to) (release_frames-AllValid s f vs)

-- From valid pools, every history of requests for at least one frame and of releases, granted or
-- refused, of frames that some pool manages or of none, leaves every pool of the chain valid: its count is the number of
-- its free frames, and each frame in use that is not a head continues a sequence.
pub Reachable-AllValid : {s t : List ContFramePool} → AllValid s → Reachable s t → AllValid t
Reachable-AllValid vs start = vs
Reachable-AllValid vs (next r step) = Step-AllValid (Reachable-AllValid vs r) step
