-- ===== src/ContFramePool.antt =====
-- The contiguous frame pool of cont_frame_pool.C: two bits of state for each frame, kept in a
-- bitmap of bytes. A method that changes `*this` returns the new pool.
mod Bits
pub mod Count
pub mod Scan
pub mod Get
pub mod Release
pub mod Invariant
pub mod Chain
pub mod Boot
pub mod Hole
pub mod Reachable
mod Tests
use multi_process.Base.{
  ℕ, zero, suc, ◌+◌, ◌-◌, ◌*◌, ◌/◌, ◌%◌, ◌^◌, Bool, true, false, List, [], ◌∷◌, Option, none, some,
  bit_and, bit_or, ltb, ◌==◌, if◌then◌else◌, word, add32, sub32, update,
}

-- `Machine::PAGE_SIZE`, and what the header derives from it.
abbrev pub frame_size : ℕ
frame_size = 4096

abbrev pub frames_per_byte : ℕ
frames_per_byte = 4

abbrev pub info_frame_capacity : ℕ
info_frame_capacity = frames_per_byte * frame_size

-- `enum class FrameState`; `HoS` is the head of a sequence.
pub data FrameState : Type 0 where
  free used hos : FrameState

abbrev pub is_free : FrameState → Bool
is_free free = true
is_free _ = false

abbrev pub is_used : FrameState → Bool
is_used used = true
is_used _ = false

abbrev pub is_hos : FrameState → Bool
is_hos hos = true
is_hos _ = false

-- `bitmap_addr` is the address held by the pointer `bitmap`, and `bitmap` the bytes behind it.
pub record ContFramePool : Type 0 where
  pub bitmap_addr : ℕ
  pub bitmap : ℕ → ℕ
  pub n_free_frames : ℕ
  pub base_frame_no : ℕ
  pub nframes : ℕ
  pub info_frame_no : ℕ

abbrev pub bit_slot : ℕ → ℕ
bit_slot frame_no = frame_no * 2 % word / 8

-- `& (BYTE - 1)`
abbrev pub bit_shift : ℕ → ℕ
bit_shift frame_no = frame_no * 2 % word % 8

-- The test of `get_state` on one byte: two masks of type `unsigned char`.
unfoldable pub read_byte : ℕ → ℕ → FrameState
read_byte byte shift =
    let mask_1 = 2 ^ shift % 256 in
    let mask_2 = mask_1 * 2 % 256 in
    if bit_and byte mask_1 == 0 then free else if bit_and byte mask_2 == 0 then used else hos

-- The update of `set_state` on one byte: both bits are zeroed, then those of the state are set.
-- The arithmetic is that of `int`; a store to `unsigned char` keeps the low eight bits.
unfoldable pub write_byte : ℕ → ℕ → FrameState → ℕ
write_byte byte shift state =
    let cleared = bit_and byte (word - 1 - 3 * 2 ^ shift) % 256 in
    elim state [
      | free ↦ cleared
      | used ↦ bit_or cleared (2 ^ shift) % 256
      | hos ↦ bit_or cleared (3 * 2 ^ shift) % 256
    ]

unfoldable pub get_state : ContFramePool → ℕ → FrameState
get_state p frame_no = read_byte (p.bitmap (bit_slot frame_no)) (bit_shift frame_no)

unfoldable pub set_state : ContFramePool → ℕ → FrameState → ContFramePool
set_state p frame_no state = record p {
  bitmap =
      update p.bitmap (bit_slot frame_no)
        (write_byte (p.bitmap (bit_slot frame_no)) (bit_shift frame_no) state);
}

-- `for (fno = first; ...; fno++) set_state(fno, state)`, over the rounds that the bound allows.
unfoldable pub set_states : FrameState → ℕ → ℕ → ContFramePool → ContFramePool
set_states state zero fno p = p
set_states state (suc rounds) fno p = set_states state rounds (fno + 1) (set_state p fno state)

unfoldable pub needed_info_frames : ℕ → ℕ
needed_info_frames n_frames =
    n_frames / info_frame_capacity + (if ltb 0 (n_frames % info_frame_capacity) then 1 else 0)

-- The constructor up to the loop that frees every frame. `memory` is what the bytes of the
-- machine's memory hold before.
unfoldable pub initial_pool : (ℕ → ℕ) → ℕ → ℕ → ℕ → ContFramePool
initial_pool memory base n_frames info =
    let addr = (if info == 0 then base else info) * frame_size % word in
    set_states free n_frames 0 (record {
      bitmap_addr = addr;
      bitmap = λ i. memory (addr + i);
      n_free_frames = n_frames;
      base_frame_no = base;
      nframes = n_frames;
      info_frame_no = info;
    })

-- What the constructor does where the pool holds its own bitmap.
unfoldable pub reserve_info : ContFramePool → ℕ → ContFramePool
reserve_info p n_info_frames =
    let marked = set_states used n_info_frames 0 p in
    set_state (record marked { n_free_frames = sub32 marked.n_free_frames n_info_frames }) 0 hos

unfoldable pub construct : (ℕ → ℕ) → ℕ → ℕ → ℕ → ContFramePool
construct memory base n_frames info =
    let p = initial_pool memory base n_frames info in
    if info == 0 then reserve_info p (needed_info_frames n_frames) else p

-- The search loop of `get_frames`, entered at frame `fno` with `rounds` frames left and a run of
-- `run` free frames behind it. It returns `free` and `start`.
unfoldable pub scan : ContFramePool → ℕ → ℕ → ℕ → ℕ → ℕ × ℕ
scan p n zero fno run = (run, 0)
scan p n (suc rounds) fno run =
    let run' = (if is_free (get_state p fno) then add32 run 1 else 0) in
    let rest = scan p n rounds (fno + 1) run' in
    if run' == n then (run', add32 (sub32 fno run') 1) else rest

-- What `get_frames` does with the run that it found.
unfoldable pub take_frames : ContFramePool → ℕ → ℕ → ContFramePool
take_frames p n start =
    let marked = set_state (set_states used (add32 start n - start) start p) start hos in
    record marked { n_free_frames = sub32 marked.n_free_frames n }

-- The result is the frame number, or 0 after an error message.
unfoldable pub get_frames : ContFramePool → ℕ → ℕ × ContFramePool
get_frames p n =
    let (run, start) = scan p n p.nframes 0 0 in
    if ltb p.n_free_frames n
    then (0, p)
    else if run == n
    then (add32 start p.base_frame_no, take_frames p n start)
    else (0, p)

unfoldable pub mark_inaccessible : ContFramePool → ℕ → ℕ → ContFramePool
mark_inaccessible p base n =
    set_state (set_states used (add32 base n - base) (sub32 base p.base_frame_no) p) base hos

-- One round of the loop of `_release_frames`.
unfoldable pub free_frame : ContFramePool → ℕ → ContFramePool
free_frame p fno =
    let p' = set_state p fno free in record p' { n_free_frames = add32 p'.n_free_frames 1 }

-- The `do ... while` loop: `rounds` is how often `fno < nframes` can still hold after the round.
unfoldable pub release_loop : ℕ → ℕ → ContFramePool → ContFramePool
release_loop zero fno p = free_frame p fno
release_loop (suc rounds) fno p =
    let p' = free_frame p fno in
    let rest = release_loop rounds (fno + 1) p' in
    if is_used (get_state p' (fno + 1)) then rest else p'

unfoldable pub release_own : ContFramePool → ℕ → ContFramePool
release_own p first =
    if is_hos (get_state p first) then release_loop (p.nframes - (first + 1)) first p else p

-- The static `release_frames`: the pools from `head` along `next`, and whether one was found.
unfoldable pub release_frames : List ContFramePool → ℕ → Bool × List ContFramePool
release_frames [] first = (false, [])
release_frames (cursor ∷ pools) first =
    let adjusted = sub32 first cursor.base_frame_no in
    let rest = release_frames pools first in
    if ltb adjusted cursor.nframes
    then (true, release_own cursor adjusted ∷ pools)
    else (rest.0, cursor ∷ rest.1)
