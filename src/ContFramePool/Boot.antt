-- ===== src/ContFramePool/Boot.antt =====
-- The constructor, and the memory hole that the kernel takes out of a pool.
use multi_process.Base.{
  ap, ℕ, zero, suc, ◌+◌, ◌-◌, ◌*◌, ◌%◌, ◌≤◌, ◌<◌, ◌^◌, ◌≡◌, arith, ltb, ◌==◌, if◌then◌else◌, word,
  Bool-cases, inl, inr, sub32, ◌∙◌,
}
use multi_process.ContFramePool.{
  ContFramePool, free, used, hos, get_state, set_state, set_states, needed_info_frames,
  info_frame_capacity, construct, initial_pool, reserve_info, frame_size,
}
use multi_process.ContFramePool.Bits.{Bytes, get_state-set_state, set_state-Bytes, get_state-count}
use multi_process.ContFramePool.Count.{
  IsValid, count_free, set_states-fields, set_states-Bytes, get_state-set_states,
}

-- The information frames hold two bits for every frame, and no frame more is reserved than that
-- takes.
needed_info_frames-ceil :
    (n : ℕ)
    → (n ≤ needed_info_frames n * info_frame_capacity)
      × (needed_info_frames n * info_frame_capacity < n + info_frame_capacity)
unfolding needed_info_frames
needed_info_frames-ceil n = ground arith

needed_info_frames-le : (n : ℕ) → needed_info_frames n ≤ n
unfolding needed_info_frames
needed_info_frames-le n = ground arith

needed_info_frames-pos : (n : ℕ) → 0 < n → 0 < needed_info_frames n
unfolding needed_info_frames
needed_info_frames-pos n h = ground arith

-- A pool whose first `k` frames are one sequence and whose others are free.
pub record Fresh (base n k : ℕ) (p : ContFramePool) : Type 0 where
  pub states :
      (g : ℕ) → g < n → get_state p g ≡ (if ltb g k then (if g == 0 then hos else used) else free)
  pub count : p.n_free_frames + k ≡ n
  pub at : p.base_frame_no ≡ base
  pub size : p.nframes ≡ n
  pub bytes : Bytes p

count_free-Fresh :
    (base n k j : ℕ) (p : ContFramePool) → Fresh base n k p → j ≤ n → count_free p j ≡ j - k
unfolding count_free
count_free-Fresh base n k zero p f h = omega arith
count_free-Fresh base n k (suc j) p f h =
    ground (arith, count_free-Fresh base n k j p f, f.states j)

Fresh-IsValid :
    (base n k : ℕ) (p : ContFramePool) → n < 2 ^ 31 → base + n < word → Fresh base n k p → IsValid p
Fresh-IsValid base n k p small placed f = record {
  usable = record {
    bytes = f.bytes;
    small = omega (arith, f.size);
    placed = omega (arith, f.size, f.at);
    enough = omega (arith, counted);
    room = omega (arith, f.count, f.size);
  };
  counted = counted;
  first = λ lt is. ground (arith, f.states 0, f.size);
  linked = λ g lt fr us. ground (arith, f.states g, f.states (suc g), f.size);
}
  where
    counted : p.n_free_frames ≡ count_free p p.nframes
    counted = simp f.size (omega (arith, count_free-Fresh base n k n p f, f.count))

-- The frames that the constructor sets aside for the bitmap.
abbrev pub info_frames : ℕ → ℕ → ℕ
info_frames n info = if info == 0 then needed_info_frames n else 0

initial_pool-Fresh :
    (memory : ℕ → ℕ) (base n info : ℕ)
    → ((i : ℕ) → memory i < 256)
    → n < 2 ^ 31
    → Fresh base n 0 (initial_pool memory base n info)
unfolding initial_pool
initial_pool-Fresh memory base n info bytes small = record {
  states = λ g lt. ground (arith, get_state-set_states free n 0 g blank blank-Bytes);
  count = omega (arith, set_states-fields free n 0 blank);
  at = (set_states-fields free n 0 blank).1;
  size = (set_states-fields free n 0 blank).0;
  bytes = set_states-Bytes free n 0 blank blank-Bytes;
}
  where
    blank : ContFramePool
    blank = record {
      bitmap_addr = (if info == 0 then base else info) * frame_size % word;
      bitmap = λ i. memory ((if info == 0 then base else info) * frame_size % word + i);
      n_free_frames = n;
      base_frame_no = base;
      nframes = n;
      info_frame_no = info;
    }

    blank-Bytes : Bytes blank
    blank-Bytes i = bytes ((if info == 0 then base else info) * frame_size % word + i)

reserve_info-fields :
    (p : ContFramePool) (k : ℕ)
    → ((reserve_info p k).nframes ≡ p.nframes)
      × ((reserve_info p k).base_frame_no ≡ p.base_frame_no)
      × ((reserve_info p k).n_free_frames ≡ sub32 p.n_free_frames k)
unfolding reserve_info set_state
reserve_info-fields p k =
    let (size, at, count) = set_states-fields used k 0 p in (size, at, ap (λ c. sub32 c k) count)

reserve_info-Fresh :
    (base n k : ℕ) (p : ContFramePool)
    → n < 2 ^ 31
    → k ≤ n
    → (0 < n → 0 < k)
    → Fresh base n 0 p
    → Fresh base n k (reserve_info p k)
unfolding reserve_info
reserve_info-Fresh base n k p small le pos f = record {
  states = λ g lt. ground (
    arith,
    get_state-set_state counted 0 g hos (set_states-Bytes used k 0 p f.bytes),
    get_state-count (set_states used k 0 p) counted.n_free_frames g,
    get_state-set_states used k 0 g p f.bytes,
    f.states g,
  );
  count = omega (arith, reserve_info-fields p k, f.count);
  at = (reserve_info-fields p k).1 ∙ f.at;
  size = (reserve_info-fields p k).0 ∙ f.size;
  bytes = set_state-Bytes counted 0 hos (set_states-Bytes used k 0 p f.bytes);
}
  where
    counted : ContFramePool
    counted = record (set_states used k 0 p) {
      n_free_frames = sub32 (set_states used k 0 p).n_free_frames k;
    }

-- A new pool is valid: every frame is free but those that hold its own bitmap, and the count says
-- so.
pub construct-Fresh :
    (memory : ℕ → ℕ) (base n info : ℕ)
    → ((i : ℕ) → memory i < 256)
    → n < 2 ^ 31
    → base + n < word
    → Fresh base n (info_frames n info) (construct memory base n info)
      × IsValid (construct memory base n info)
unfolding construct
construct-Fresh memory base n info bytes small placed =
    (fresh, Fresh-IsValid base n (info_frames n info) _ small placed fresh)
  where
    fresh : Fresh base n (info_frames n info) (construct memory base n info)
    fresh = elim (Bool-cases (info == 0)) [
      | inl own ↦ rw own (
          reserve_info-Fresh base n (needed_info_frames n) (initial_pool memory base n info) small
            (needed_info_frames-le n) (needed_info_frames-pos n)
            (initial_pool-Fresh memory base n info bytes small))
      | inr given ↦ rw given (initial_pool-Fresh memory base n info bytes small)
    ]
