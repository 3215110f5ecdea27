-- ===== src/PageTable/Directory.antt =====
-- The loops that fill tables, and what they leave of other pages.
use multi_process.Base.{
  ℕ, zero, suc, ◌+◌, ◌-◌, ◌*◌, ◌≤◌, ◌<◌, ◌≡◌, ◌≢◌, refl, ap, ◌∙◌, true, false, arith, ◌==◌, update,
  Bool-cases, inl, inr, ◌⊎◌,
}
use multi_process.PageTable.{
  Memory, page_size, fill, copy, construct_user, absent, frame_of, map_first,
}

pub update_self : (m : Memory) (x v : ℕ) → update m x v x ≡ v
update_self m x v = let e : (x == x) ≡ true = ground arith in rw e refl

pub update_other : (m : Memory) (x v y : ℕ) → x ≢ y → update m x v y ≡ m y
update_other m x v y ne = let e : (x == y) ≡ false = ground arith in rw e refl

pub fill-outside :
    (at : ℕ) (f : ℕ → ℕ) (n : ℕ) (m : Memory) (x : ℕ)
    → (x < at) ⊎ (at + 4 * n ≤ x)
    → fill at f n m x ≡ m x
unfolding fill
fill-outside at f zero m x out = refl
fill-outside at f (suc n) m x out =
    update_other (fill at f n m) (at + 4 * n) (f n) x (λ e. ground arith)
    ∙ fill-outside at f n m x (ground arith)

pub fill-inside :
    (at : ℕ) (f : ℕ → ℕ) (n : ℕ) (m : Memory) (i : ℕ) → i < n → fill at f n m (at + 4 * i) ≡ f i
unfolding fill
fill-inside at f zero m i lt = elim lt [ ]
fill-inside at f (suc n) m i lt = elim (Bool-cases (i == n)) [
  | inl e ↦ let e' : n ≡ i = ground arith in rw e' (update_self (fill at f i m) (at + 4 * i) (f i))
  | inr ne ↦
      update_other (fill at f n m) (at + 4 * n) (f n) (at + 4 * i) (λ e. ground arith)
      ∙ fill-inside at f n m i (ground arith)
]

copy-outside :
    (at from n : ℕ) (m : Memory) (x : ℕ) → (x < at) ⊎ (at + 4 * n ≤ x) → copy at from n m x ≡ m x
unfolding copy
copy-outside at from zero m x out = refl
copy-outside at from (suc n) m x out =
    update_other (copy at from n m) (at + 4 * n) _ x (λ e. ground arith)
    ∙ copy-outside at from n m x (ground arith)

copy-inside :
    (at from n : ℕ) (m : Memory) (i : ℕ)
    → (from + 4 * n ≤ at) ⊎ (at + 4 * n ≤ from)
    → i < n
    → copy at from n m (at + 4 * i) ≡ m (from + 4 * i)
unfolding copy
copy-inside at from zero m i apart lt = elim lt [ ]
copy-inside at from (suc n) m i apart lt = elim (Bool-cases (i == n)) [
  | inl e ↦
      let e' : n ≡ i = ground arith in
      rw e' (
        update_self (copy at from i m) (at + 4 * i) _
        ∙ copy-outside at from i m (from + 4 * i) (ground arith))
  | inr ne ↦
      update_other (copy at from n m) (at + 4 * n) _ (at + 4 * i) (λ e. ground arith)
      ∙ copy-inside at from n m i (ground arith) (ground arith)
]

-- A later page table shares the kernel's entries 0 to 254, has itself as entry 255, and keeps as
-- its entries 256 to 1023 whatever its frame held before; every other page is as it was.
pub construct_user_lem :
    (kernel_page_directory directory : ℕ) (m : Memory)
    → (kernel_page_directory + page_size ≤ directory)
      ⊎ (directory + page_size ≤ kernel_page_directory)
    → ((i : ℕ)
        → i < 255
        → construct_user kernel_page_directory directory m (directory + 4 * i)
          ≡ m (kernel_page_directory + 4 * i))
      × (construct_user kernel_page_directory directory m (directory + 4 * 255) ≡ directory + 3)
      × ((i : ℕ)
          → 256 ≤ i
          → construct_user kernel_page_directory directory m (directory + 4 * i)
            ≡ m (directory + 4 * i))
      × ((x : ℕ)
          → (x < directory) ⊎ (directory + page_size ≤ x)
          → construct_user kernel_page_directory directory m x ≡ m x)
unfolding construct_user
construct_user_lem k d m apart =
    let m' = copy d k 256 m in
    (
      λ i lt.
          update_other m' (d + 1020) (d + 3) (d + 4 * i) (λ e. omega arith)
          ∙ copy-inside d k 256 m i (ground arith) (omega arith),
      update_self m' (d + 1020) (d + 3),
      λ i le.
          update_other m' (d + 1020) (d + 3) (d + 4 * i) (λ e. omega arith)
          ∙ copy-outside d k 256 m (d + 4 * i) (ground arith),
      λ x out.
          update_other m' (d + 1020) (d + 3) x (λ e. ground arith)
          ∙ copy-outside d k 256 m x (ground arith),
    )

before : (d t : ℕ) → (t + page_size ≤ d) ⊎ (d + page_size ≤ t) → (d < t) ⊎ (t + 4 * 1024 ≤ d)
before d t apart = elim apart [ inl a ↦ inr (omega arith) | inr a ↦ inl (omega arith) ]

behind :
    (d t i : ℕ)
    → i < 1024
    → (t + page_size ≤ d) ⊎ (d + page_size ≤ t)
    → (t + 4 * i < d + 1024) ⊎ (d + 1024 + 4 * 768 ≤ t + 4 * i)
behind d t i lt apart = elim apart [ inl a ↦ inl (omega arith) | inr a ↦ inr (omega arith) ]

clash : (d t i : ℕ) → i < 1024 → (t + page_size ≤ d) ⊎ (d + page_size ≤ t) → d + 1020 ≢ t + 4 * i
clash d t i lt apart e = elim apart [ inl a ↦ omega arith | inr a ↦ omega arith ]

-- What the first page table holds.
pub record Mapped (d : ℕ) (r : Memory) : Type 0 where
  pub identity : (i : ℕ) → i < 1024 → r (frame_of (r d) + 4 * i) ≡ page_size * i + 3
  pub itself : r (d + 4 * 255) ≡ d + 3
  pub rest : (i : ℕ) → 256 ≤ i → i < 1024 → r (d + 4 * i) ≡ absent

pub map_first-entry :
    (d : ℕ) (m : Memory)
    → (frame_of (m d) + page_size ≤ d) ⊎ (d + page_size ≤ frame_of (m d))
    → map_first d m d ≡ m d
unfolding map_first
map_first-entry d m apart =
    let t = frame_of (m d) in
    let m1 = fill t (λ i. page_size * i + 3) 1024 m in
    update_other (fill (d + 1024) (λ _. absent) 768 m1) (d + 1020) (d + 3) d (λ e. omega arith)
    ∙ fill-outside (d + 1024) (λ _. absent) 768 m1 d (inl (omega arith))
    ∙ fill-outside t (λ i. page_size * i + 3) 1024 m d (before d t apart)

-- If the table that the first page table got for the first 4 MB is not the directory itself, the
-- last part of the constructor makes its entries map these 4 MB to themselves, present and
-- writable; the kernel's last entry is the directory, and all entries behind the kernel's half are
-- absent.
pub map_first-Mapped :
    (d : ℕ) (m : Memory)
    → (frame_of (m d) + page_size ≤ d) ⊎ (d + page_size ≤ frame_of (m d))
    → Mapped d (map_first d m)
unfolding map_first
map_first-Mapped d m apart =
    let t = frame_of (m d) in
    let m1 = fill t (λ i. page_size * i + 3) 1024 m in
    let m2 = fill (d + 1024) (λ _. absent) 768 m1 in
    let r = update m2 (d + 1020) (d + 3) in
    let first : r d ≡ m d = map_first-entry d m apart in
    record {
      identity = λ i lt.
          ap (λ x. r (frame_of x + 4 * i)) first
          ∙ update_other m2 (d + 1020) (d + 3) (t + 4 * i) (λ e. clash d t i lt apart e)
          ∙ fill-outside (d + 1024) (λ _. absent) 768 m1 (t + 4 * i) (behind d t i lt apart)
          ∙ fill-inside t (λ i. page_size * i + 3) 1024 m i lt;
      itself = update_self m2 (d + 1020) (d + 3);
      rest = λ i le lt.
          update_other m2 (d + 1020) (d + 3) (d + 4 * i) (λ e. omega arith)
          ∙ ap m2 (omega arith)
          ∙ fill-inside (d + 1024) (λ _. absent) 768 m1 (i - 256) (omega arith);
    }
