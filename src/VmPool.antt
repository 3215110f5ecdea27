-- ===== src/VmPool.antt =====
-- The virtual memory pool of vm_pool.C: two tables of regions, allocated and free, of fixed length.
-- An entry of size 0 is unused. A method that changes `*this` returns the new pool.
pub mod Regions
pub mod Allocate
pub mod Release
pub mod Return
pub mod Access
pub mod Reachable
mod Tests
use multi_process.Base.{
  ℕ, zero, suc, ◌+◌, ◌-◌, ◌*◌, ◌/◌, ◌%◌, ◌^◌, Bool, true, false, List, [], ◌∷◌, Option, none, some,
  ltb, leb, ◌==◌, ◌&&◌, ◌||◌, if◌then◌else◌, word, add32, sub32, set, get_or, replicate,
}

abbrev pub page_size : ℕ
page_size = 4096

-- `PAGE_SIZE / sizeof(struct Region)`, two words of four bytes.
abbrev pub max_regions : ℕ
max_regions = page_size / 8

pub record Region : Type 0 where
  pub base_address : ℕ
  pub size : ℕ

abbrev pub region : ℕ → ℕ → Region
region b s = record { base_address = b; size = s }

abbrev pub no_region : Region
no_region = region 0 0

-- The error numbers of vm_pool.H.
pub data Error : Type 0 where
  invalid_size no_free_region no_alloc_region oob_addr invalid_addr : Error

-- How a call ends: with its result, or at the label `error` with the number that it prints.
pub data Outcome (A : Type 0) : Type 0 where
  done : A → Outcome A
  failed : Error → Outcome A

pub record VmPool : Type 0 where
  pub base_address : ℕ
  pub size : ℕ
  pub alloc : List Region
  pub free : List Region

-- The index of the first entry that passes the test, as the `for` loops with `goto found` find it.
unfoldable pub first_index : (Region → Bool) → List Region → Option ℕ
first_index test [] = none
first_index test (r ∷ rs) =
    if test r then some 0 else elim (first_index test rs) [ none ↦ none | some i ↦ some (suc i) ]

-- What the constructor writes: two cleared tables, and their first entries.
unfoldable pub initial_tables : ℕ → ℕ → VmPool
initial_tables base size = record {
  base_address = base;
  size = size;
  alloc = set (replicate max_regions no_region) 0 (region base (page_size * 2));
  free =
      set (replicate max_regions no_region) 0
        (region (add32 base (page_size * 2)) (sub32 size (2 * page_size)));
}

-- The constructor; `none` is the failed assertion.
unfoldable pub construct : ℕ → ℕ → Option VmPool
construct base size = if ltb (2 * page_size) size then some (initial_tables base size) else none

-- `((_size + PAGE_SIZE - 1) / PAGE_SIZE) * PAGE_SIZE`
unfoldable pub round_up : ℕ → ℕ
round_up size = sub32 (add32 size page_size) 1 / page_size * page_size % word

-- The two writes of `allocate`: entry `i` of `alloc`, and what is left of entry `idx` of `free`.
unfoldable pub carve : VmPool → ℕ → ℕ → ℕ → VmPool
carve p adj_size idx i =
    let r = get_or p.free idx no_region in
    record p {
      alloc = set p.alloc i (region r.base_address adj_size);
      free = set p.free idx (region (add32 r.base_address adj_size) (sub32 r.size adj_size));
    }

unfoldable pub allocate : VmPool → ℕ → Outcome ℕ × VmPool
allocate p size =
    let adj_size = round_up size in
    if size == 0 || ltb (sub32 p.size (2 * page_size)) size
    then (failed invalid_size, p)
    else elim (first_index (λ r. leb adj_size r.size) p.free) [
      | none ↦ (failed no_free_region, p)
      | some idx ↦ elim (first_index (λ r. r.size == 0) p.alloc) [
        | none ↦ (failed no_alloc_region, p)
        | some i ↦ (done (get_or p.free idx no_region).base_address, carve p adj_size idx i)
      ]
    ]

-- What the caller of `allocate` gets: 0 stands for every error.
abbrev pub address : Outcome ℕ → ℕ
address (done a) = a
address (failed e) = 0

-- `PageTable::free_page`, called for each page of a region; `Pt` is the state of the page table.
module _ {Pt : Type 0} (free_page : ℕ → Pt → Pt) where
  -- `for (addr = start; addr < end; addr += PAGE_SIZE)`
  unfoldable pub free_pages : ℕ → ℕ → ℕ → Pt → Pt
  free_pages zero addr end pt = pt
  free_pages (suc fuel) addr end pt =
      let rest = free_pages fuel (add32 addr page_size) end (free_page addr pt) in
      if ltb addr end then rest else pt

  -- The writes of `release` and the loop behind them. The fuel is one round for each page and one
  -- more.
  unfoldable pub give_back : VmPool → ℕ → ℕ → ℕ → Pt → VmPool × Pt
  give_back p start idx i pt =
      let region_size = (get_or p.alloc idx no_region).size in
      (
        record p {
          alloc = set p.alloc idx (region (get_or p.alloc idx no_region).base_address 0);
          free = set p.free i (region start region_size);
        },
        free_pages (region_size / page_size + 1) start (add32 start region_size) pt,
      )

  unfoldable pub release : VmPool → ℕ → Pt → Outcome (Unit {0}) × VmPool × Pt
  release p start pt =
      if ltb start p.base_address || leb (add32 p.base_address p.size) start
      then (failed oob_addr, p, pt)
      else elim (first_index (λ r. start == r.base_address && ltb 0 r.size) p.alloc) [
        | none ↦ (failed invalid_addr, p, pt)
        | some idx ↦ elim (first_index (λ r. r.size == 0) p.free) [
          | none ↦ (failed no_free_region, p, pt)
          | some i ↦ let (p', pt') = give_back p start idx i pt in (done tt, p', pt')
        ]
      ]

-- The loop of `is_legitimate`.
unfoldable pub in_some_region : ℕ → List Region → Bool
in_some_region a [] = false
in_some_region a (r ∷ rs) =
    (leb r.base_address a && ltb a (add32 r.base_address r.size)) || in_some_region a rs

unfoldable pub is_legitimate : VmPool → ℕ → Bool
is_legitimate p a =
    (leb p.base_address a && ltb a (add32 p.base_address (2 * page_size)))
    || in_some_region a p.alloc
