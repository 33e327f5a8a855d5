-- ===== src/Xms/Hang.antt =====
-- src/kernel/xms.c: what an empty block does to the pool.
use liberdos.Base.{
  ℕ, ◌+◌, ◌<◌, ◌≡◌, ◌≢◌, refl, ap, ◌∙◌, true, not, none, some, arith, update, ℕ_discrete,
}
use liberdos.Base.Loop.{find_from-IsFirst}
use liberdos.Base.Word.{u16}
use liberdos.Xms.Pool.{Handle, handle_count, pool_start_kb, next_block_above, gap_loop, query_loop}
use liberdos.Xms.Pool.Next.{nothing, lowest, next_block_above-Lowest}
use liberdos.Xms.Pool.Round.{find_gap_empty, gap_loop_stuck, query_loop_stuck}
use liberdos.Xms.{Xms, XFrame, free_handle, allocate_at, allocate}
use liberdos.Xms.Invariant.{HasPool}

-- An empty block that stands alone at the start of the pool.
pub record IsPlugged (x : Xms) (h : ℕ) : Type 0 where
  pub index : h < handle_count
  pub used : (x.xh h).used ≡ true
  pub base : (x.xh h).base_kb ≡ pool_start_kb
  pub empty : (x.xh h).size_kb ≡ 0
  pub alone :
      (i : ℕ) → i < handle_count → (x.xh i).used ≡ true → i ≢ h → pool_start_kb < (x.xh i).base_kb

next-plugged : (x : Xms) (h : ℕ) → IsPlugged x h → next_block_above x.xh pool_start_kb ≡ some h
next-plugged x h p = elim (next_block_above-Lowest x.xh pool_start_kb) [
  | nothing e passed ↦ absurd (omega (arith, passed h p.index p.used, p.base))
  | lowest nb e n ↦ elim (ℕ_discrete nb h) [
    | yes same ↦ e ∙ ap some same
    | no ne ↦ absurd (omega (arith, p.alone nb n.index n.used ne, n.least h p.index p.used, p.base))
  ]
]

-- With an empty block alone at the start of the pool, no number of rounds brings the walk of
-- `find_gap` to an end for a size that is not 0, and none brings that of `query_free` to one.
pub walks_hang :
    (x : Xms) (h size fuel : ℕ) (acc : ℕ × ℕ)
    → IsPlugged x h
    → 0 < size
    → size < 65536
    → (gap_loop fuel x.xh x.pool_end_kb size pool_start_kb ≡ none)
      × (query_loop fuel x.xh x.pool_end_kb pool_start_kb acc ≡ none)
walks_hang x h size fuel acc p pos small = (
  gap_loop_stuck x.xh x.pool_end_kb size h fuel pos small (next-plugged x h p) p.base p.empty,
  query_loop_stuck x.xh x.pool_end_kb h fuel acc (next-plugged x h p) p.base p.empty,
)

-- The block that function 09h makes of DX = 0.
abbrev empty_block : Handle
empty_block = record { used = true; locks = 0; base_kb = pool_start_kb; size_kb = 0 }

pub allocate_nothing :
    (x : Xms) (r : XFrame) (h : ℕ)
    → HasPool x
    → free_handle x.xh ≡ some h
    → r.dx ≡ 0
    → allocate x r
      ≡ some (record x { xh = update x.xh h empty_block }, record r { ax = 1; dx = u16 (h + 1) })
unfolding allocate allocate_at
allocate_nothing x r h v e z =
    rw (e, allocate) (rw z (rw (find_gap_empty x.xh x.pool_end_kb v, allocate_at) refl))

-- In a well-formed pool where a handle is free and no block begins at the start of the pool, function
-- 09h with DX = 0 succeeds, and leaves an empty block alone at the start of the pool.
pub allocate_nothing-IsPlugged :
    (x : Xms) (r : XFrame) (h : ℕ)
    → HasPool x
    → free_handle x.xh ≡ some h
    → r.dx ≡ 0
    → ((i : ℕ) → i < handle_count → (x.xh i).used ≡ true → pool_start_kb < (x.xh i).base_kb)
    → (y : Xms) × (q : XFrame) × (allocate x r ≡ some (y, q)) × (q.ax ≡ 1) × IsPlugged y h
unfolding free_handle
allocate_nothing-IsPlugged x r h v e z above = (
  record x { xh = update x.xh h empty_block },
  record r { ax = 1; dx = u16 (h + 1) },
  allocate_nothing x r h v e z,
  refl,
  record {
    index = (find_from-IsFirst (λ i. not (x.xh i).used) handle_count 0 e).below;
    used = ground arith;
    base = ground arith;
    empty = ground arith;
    alone = λ i hi u ne. ground (arith, above i hi);
  },
)
