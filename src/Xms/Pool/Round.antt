-- ===== src/Xms/Pool/Round.antt =====
-- src/kernel/xms.c: one round of the loop of `find_gap`, and a walk that never ends.
use liberdos.Base.{
  ℕ, zero, suc, ◌+◌, ◌<◌, ◌≡◌, refl, ap, ◌∙◌, none, some, arith, leb, Array, if◌then◌else◌,
}
use liberdos.Base.Word.{u32}
use liberdos.Xms.Pool.{
  Handle, pool_start_kb, next_block_above, gap_loop, find_gap, query_loop, widen, IsPool,
}
use liberdos.Xms.Pool.Next.{nothing, lowest, next_block_above-Lowest}

abbrev pub end_of : Handle → ℕ
end_of b = b.base_kb + b.size_kb

module _ (xh : Array Handle) (pool_end size : ℕ) where
  -- The two ways through the loop's body.
  pub gap_last :
      (fuel cand : ℕ)
      → next_block_above xh cand ≡ none
      → gap_loop (suc fuel) xh pool_end size cand
        ≡ (if leb (u32 (cand + size)) pool_end then some cand else some 0)
  unfolding gap_loop
  gap_last fuel cand e = rw (e, gap_loop)

  pub gap_next :
      (fuel cand nb : ℕ)
      → next_block_above xh cand ≡ some nb
      → gap_loop (suc fuel) xh pool_end size cand ≡ (
          if leb (u32 (cand + size)) (xh nb).base_kb
          then some cand
          else gap_loop fuel xh pool_end size (u32 (end_of (xh nb))))
  unfolding gap_loop
  gap_next fuel cand nb e = rw (e, gap_loop)

-- An empty block in use at the start of the pool, where it is the block that the walk meets, holds
-- the walk for ever: the next candidate is the same one.
pub gap_loop_stuck :
    (xh : Array Handle) (pool_end size nb fuel : ℕ)
    → 0 < size
    → size < 65536
    → next_block_above xh pool_start_kb ≡ some nb
    → (xh nb).base_kb ≡ pool_start_kb
    → (xh nb).size_kb ≡ 0
    → gap_loop fuel xh pool_end size pool_start_kb ≡ none
unfolding gap_loop
gap_loop_stuck xh pool_end size nb zero pos small at base empty = refl
gap_loop_stuck xh pool_end size nb (suc fuel) pos small at base empty =
    gap_next xh pool_end size fuel pool_start_kb nb at
    ∙ ground (
      arith,
      gap_loop_stuck xh pool_end size nb fuel pos small at base empty,
      ap (λ c. gap_loop fuel xh pool_end size c) again,
    )
  where
    again : u32 (end_of (xh nb)) ≡ pool_start_kb
    again = omega arith

pub query_loop_stuck :
    (xh : Array Handle) (pool_end nb fuel : ℕ) (acc : ℕ × ℕ)
    → next_block_above xh pool_start_kb ≡ some nb
    → (xh nb).base_kb ≡ pool_start_kb
    → (xh nb).size_kb ≡ 0
    → query_loop fuel xh pool_end pool_start_kb acc ≡ none
unfolding query_loop
query_loop_stuck xh pool_end nb zero acc at base empty = refl
query_loop_stuck xh pool_end nb (suc fuel) acc at base empty =
    rw (at, query_loop)
      (rw again (
        query_loop_stuck xh pool_end nb fuel (widen (xh nb).base_kb pool_start_kb acc) at base
          empty))
  where
    again : u32 (end_of (xh nb)) ≡ pool_start_kb
    again = omega arith

-- For an empty block the first round is the last: it fits at the start of the pool.
pub find_gap_empty :
    (xh : Array Handle) (pool_end : ℕ)
    → IsPool xh pool_end
    → find_gap xh pool_end 0 ≡ some pool_start_kb
unfolding find_gap
find_gap_empty xh pool_end v = elim (next_block_above-Lowest xh pool_start_kb) [
  | nothing e passed ↦ gap_last xh pool_end 0 16 pool_start_kb e ∙ ground (arith, v.start)
  | lowest nb e n ↦ gap_next xh pool_end 0 16 pool_start_kb nb e ∙ ground (arith, n.above)
]
