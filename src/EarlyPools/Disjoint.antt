-- ===== src/EarlyPools/Disjoint.antt =====
-- What a pool of memory hands out lies in its frames, as long as they suffice.
use multi_process.Base.{ℕ, zero, suc, ◌+◌, ◌*◌, ◌<◌, ◌≡◌, refl, ap, ◌∙◌, add32, word, arith}
use multi_process.EarlyPools.{page_size, get_frame, take_rest, construct_mem_pool, allocate_bytes}

take_rest_lem : (n next : ℕ) → next + page_size * n < word → take_rest n next ≡ next + page_size * n
unfolding take_rest get_frame
take_rest_lem zero next small = omega arith
take_rest_lem (suc n) next small =
    let at : add32 next page_size ≡ next + page_size = ground arith in
    ap (take_rest n) at ∙ take_rest_lem n (next + page_size) (omega arith) ∙ omega arith

-- A pool of `1 + rest` frames starts at the first of them, and the next pool starts behind the
-- last.
construct_mem_pool_lem :
    (rest next : ℕ)
    → next + page_size * suc rest < word
    → (construct_mem_pool rest next).0 ≡ next
      × ((construct_mem_pool rest next).1 ≡ next + page_size * suc rest)
unfolding construct_mem_pool get_frame
construct_mem_pool_lem rest next small =
    let at : add32 next page_size ≡ next + page_size = ground arith in
    (
      refl,
      ap (take_rest rest) at ∙ take_rest_lem rest (next + page_size) (omega arith) ∙ omega arith,
    )

-- Two allocations in a row do not overlap, as long as the addresses do not wrap.
allocate_bytes-behind :
    (start size size' : ℕ)
    → start + size < word
    → (allocate_bytes start size).0 + size ≡ (allocate_bytes (allocate_bytes start size).1 size').0
unfolding allocate_bytes
allocate_bytes-behind start size size' small = ground arith
