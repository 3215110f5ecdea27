-- ===== src/EarlyPools.antt =====
-- The pools of frame_pool.C and mem_pool.C, which hand out memory and never take it back. The
-- release functions have empty bodies.
pub mod Disjoint
use multi_process.Base.{ℕ, zero, suc, ◌+◌, add32}

-- `next_free_frame` after the constructor, 2 MB.
abbrev pub first_frame : ℕ
first_frame = 0x200000

abbrev pub page_size : ℕ
page_size = 4096

-- `FramePool::get_frame`: the address of the frame and the new `next_free_frame`.
unfoldable pub get_frame : ℕ → ℕ × ℕ
get_frame next_free_frame = (next_free_frame, add32 next_free_frame page_size)

-- The frames that the constructor of `MemPool` takes behind the first one.
unfoldable pub take_rest : ℕ → ℕ → ℕ
unfolding get_frame
take_rest zero next_free_frame = next_free_frame
take_rest (suc n) next_free_frame = take_rest n (get_frame next_free_frame).1

-- The constructor of `MemPool` for `1 + rest` frames: `start_address` and `next_free_frame`.
unfoldable pub construct_mem_pool : ℕ → ℕ → ℕ × ℕ
unfolding get_frame take_rest
construct_mem_pool rest next_free_frame =
    let (start_address, next) = get_frame next_free_frame in (start_address, take_rest rest next)

-- `MemPool::allocate`: the address and the new `start_address`.
unfoldable pub allocate_bytes : ℕ → ℕ → ℕ × ℕ
allocate_bytes start_address size = (start_address, add32 start_address size)
