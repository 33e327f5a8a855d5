-- ===== src/Xms/Pool.antt =====
-- src/kernel/xms.c: the handle table and the pool allocator, a first fit over a walk through the
-- gaps. Sizes and bases are in KB. The walks are `for (;;)` loops in the source: they take fuel here,
-- and `none` means that it ran out.
pub mod Next
pub mod Round
pub mod Ahead
pub mod Walk
pub mod Query
use liberdos.Base.{
  ℕ, zero, suc, ◌+◌, ◌-◌, ◌≤◌, ◌<◌, ◌≡◌, ◌≢◌, ◌⊎◌, Bool, true, ◌&&◌, Option, none, some, ltb, leb,
  if◌then◌else◌, Array,
}
use liberdos.Base.Word.{u32}

-- `xhandle`.
pub record Handle : Type 0 where
  pub used : Bool
  pub locks : ℕ
  pub base_kb : ℕ
  pub size_kb : ℕ

abbrev pub handle_count : ℕ
handle_count = 16

abbrev pub pool_start_kb : ℕ
pool_start_kb = 1088

-- The body of the loop of `next_block_above`.
abbrev pub better : Array Handle → ℕ → ℕ → Option ℕ → Option ℕ
better xh from i best =
    if (xh i).used && leb from (xh i).base_kb
    then elim best [
      | none ↦ some i
      | some b ↦ if ltb (xh i).base_kb (xh b).base_kb then some i else some b
    ]
    else best

unfoldable pub next_loop : Array Handle → ℕ → ℕ → ℕ → Option ℕ → Option ℕ
next_loop xh from zero i best = best
next_loop xh from (suc n) i best = next_loop xh from n (i + 1) (better xh from i best)

-- `none` is the -1 of the source.
unfoldable pub next_block_above : Array Handle → ℕ → Option ℕ
unfolding next_loop
next_block_above xh from = next_loop xh from handle_count 0 none

-- The loop of `find_gap` from a candidate on; 0 is its answer for "no room".
unfoldable pub gap_loop : ℕ → Array Handle → ℕ → ℕ → ℕ → Option ℕ
gap_loop zero xh pool_end size cand = none
gap_loop (suc fuel) xh pool_end size cand = elim (next_block_above xh cand) [
  | none ↦ if leb (u32 (cand + size)) pool_end then some cand else some 0
  | some nb ↦
      let rest = gap_loop fuel xh pool_end size (u32 ((xh nb).base_kb + (xh nb).size_kb)) in
      if leb (u32 (cand + size)) (xh nb).base_kb then some cand else rest
]

-- One round for each handle, and the last.
abbrev pub walk_fuel : ℕ
walk_fuel = 17

unfoldable pub find_gap : Array Handle → ℕ → ℕ → Option ℕ
find_gap xh pool_end size = gap_loop walk_fuel xh pool_end size pool_start_kb

-- The loop of `query_free`; `limit - cand` is taken only below the limit.
abbrev pub widen : ℕ → ℕ → ℕ × ℕ → ℕ × ℕ
widen limit cand (largest, total) =
    if ltb cand limit
    then (
      if ltb largest (limit - cand) then limit - cand else largest,
      u32 (total + (limit - cand)),
    )
    else (largest, total)

unfoldable pub query_loop : ℕ → Array Handle → ℕ → ℕ → ℕ × ℕ → Option (ℕ × ℕ)
query_loop zero xh pool_end cand acc = none
query_loop (suc fuel) xh pool_end cand acc = elim (next_block_above xh cand) [
  | none ↦ some (widen pool_end cand acc)
  | some nb ↦
      query_loop fuel xh pool_end (u32 ((xh nb).base_kb + (xh nb).size_kb))
        (widen (xh nb).base_kb cand acc)
]

-- The largest gap and the sum of the gaps.
unfoldable pub query_free : Array Handle → ℕ → Option (ℕ × ℕ)
query_free xh pool_end = query_loop walk_fuel xh pool_end pool_start_kb (0, 0)

-- The blocks lie inside the pool and apart from one another. The BIOS reports at most 65535 KB.
pub record IsPool (xh : Array Handle) (pool_end : ℕ) : Type 0 where
  pub start : pool_start_kb ≤ pool_end
  pub bound : pool_end < 1024 + 65536
  pub inside :
      (i : ℕ)
      → i < handle_count
      → (xh i).used ≡ true
      → (pool_start_kb ≤ (xh i).base_kb) × ((xh i).base_kb + (xh i).size_kb ≤ pool_end)
  pub apart :
      (i j : ℕ)
      → i < handle_count
      → j < handle_count
      → i ≢ j
      → (xh i).used ≡ true
      → (xh j).used ≡ true
      → ((xh i).base_kb + (xh i).size_kb ≤ (xh j).base_kb)
        ⊎ ((xh j).base_kb + (xh j).size_kb ≤ (xh i).base_kb)
  pub locks : (i : ℕ) → i < handle_count → (xh i).locks < 256

-- No block in use is empty.
abbrev pub HasSizes : Array Handle → Type 0
HasSizes xh = (i : ℕ) → i < handle_count → (xh i).used ≡ true → 0 < (xh i).size_kb

-- `size` KB from `base` on lie in the pool and meet no block in use.
pub record IsPlace (xh : Array Handle) (pool_end size base : ℕ) : Type 0 where
  pub from : pool_start_kb ≤ base
  pub below : base + size ≤ pool_end
  pub free :
      (i : ℕ)
      → i < handle_count
      → (xh i).used ≡ true
      → ((xh i).base_kb + (xh i).size_kb ≤ base) ⊎ (base + size ≤ (xh i).base_kb)
