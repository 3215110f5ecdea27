-- ===== src/ContFramePool/Bits.antt =====
-- The two-bit encoding: a byte read after a write.
use multi_process.Base.{
  Bool-cases, inl, inr, ℕ, ◌*◌, ◌/◌, ◌%◌, ◌^◌, ◌<◌, ◌≡◌, refl, Bool, true, false, ◌&&◌, arith, ◌==◌,
  if◌then◌else◌, passes, check_of_passes,
}
use multi_process.ContFramePool.{
  ContFramePool, FrameState, free, used, hos, read_byte, write_byte, bit_slot, bit_shift, get_state,
  set_state,
}

same : FrameState → FrameState → Bool
same free free = true
same used used = true
same hos hos = true
same _ _ = false

same_sound : (s t : FrameState) → same s t ≡ true → s ≡ t
unfolding same
same_sound s t h = ground arith

reads_back : ℕ → ℕ → ℕ → FrameState → Bool
reads_back b k j s =
    same (read_byte (write_byte b (k * 2) s) (j * 2)) (if k == j then s else read_byte b (j * 2))

table : ℕ → ℕ → ℕ → Bool
table k j b = reads_back b k j free && (reads_back b k j used && reads_back b k j hos)

table_holds : passes (λ k. passes (λ j. passes (λ b. table k j b) 256) 4) 4 ≡ true
unfolding passes table reads_back same read_byte write_byte
table_holds = refl

table_at : (k j b : ℕ) → k < 4 → j < 4 → b < 256 → table k j b ≡ true
table_at k j b hk hj hb =
    check_of_passes _ 256 (check_of_passes _ 4 (check_of_passes _ 4 table_holds hk) hj) hb

read_byte-write_byte :
    (b k j : ℕ) (s : FrameState)
    → k < 4
    → j < 4
    → b < 256
    → read_byte (write_byte b (k * 2) s) (j * 2) ≡ (if k == j then s else read_byte b (j * 2))
unfolding table reads_back
read_byte-write_byte b k j free hk hj hb = same_sound _ _ (ground (arith, table_at k j b hk hj hb))
read_byte-write_byte b k j used hk hj hb = same_sound _ _ (ground (arith, table_at k j b hk hj hb))
read_byte-write_byte b k j hos hk hj hb = same_sound _ _ (ground (arith, table_at k j b hk hj hb))

write_byte-lt : (b k : ℕ) (s : FrameState) → write_byte b k s < 256
unfolding write_byte
write_byte-lt b k free = omega arith
write_byte-lt b k used = omega arith
write_byte-lt b k hos = omega arith

-- The bitmap holds bytes, which is what lets the tables speak of it.
abbrev pub Bytes : ContFramePool → Type 0
Bytes p = (i : ℕ) → p.bitmap i < 256

pub set_state-Bytes :
    (p : ContFramePool) (f : ℕ) (s : FrameState) → Bytes p → Bytes (set_state p f s)
unfolding set_state
set_state-Bytes p f s h i =
    ground (arith, h i, write_byte-lt (p.bitmap (bit_slot f)) (bit_shift f) s)

-- Below `2 ^ 31` the frames lie four to a byte.
slot-eq : (f : ℕ) → f < 2 ^ 31 → bit_slot f ≡ f / 4
slot-eq f h = omega arith

shift-eq : (f : ℕ) → f < 2 ^ 31 → bit_shift f ≡ f % 4 * 2
shift-eq f h = omega arith

get_state-at :
    (p : ContFramePool) (f : ℕ)
    → f < 2 ^ 31
    → get_state p f ≡ read_byte (p.bitmap (f / 4)) (f % 4 * 2)
unfolding get_state
get_state-at p f h = rw (slot-eq f h, shift-eq f h)

bitmap-set_state :
    (p : ContFramePool) (f i : ℕ) (s : FrameState)
    → f < 2 ^ 31
    → (set_state p f s).bitmap i
      ≡ (if f / 4 == i then write_byte (p.bitmap (f / 4)) (f % 4 * 2) s else p.bitmap i)
unfolding set_state
bitmap-set_state p f i s h = rw (slot-eq f h, shift-eq f h)

-- A frame reads back the state that was set, and every other frame keeps its own.
pub get_state-set_state :
    (p : ContFramePool) (f g : ℕ) (s : FrameState)
    → Bytes p
    → f < 2 ^ 31
    → g < 2 ^ 31
    → get_state (set_state p f s) g ≡ (if f == g then s else get_state p g)
get_state-set_state p f g s h hf hg =
    rw (get_state-at _ g hg, get_state-at _ g hg, bitmap-set_state p f (g / 4) s hf)
      (elim (Bool-cases (f / 4 == g / 4)) [
        | inl e ↦
            ground (arith, read_byte-write_byte (p.bitmap (f / 4)) (f % 4) (g % 4) s, h (f / 4))
        | inr e ↦ ground arith
      ])

-- The count of free frames is no part of the bitmap.
pub get_state-count :
    (p : ContFramePool) (k g : ℕ) → get_state (record p { n_free_frames = k }) g ≡ get_state p g
unfolding get_state
get_state-count p k g = refl
