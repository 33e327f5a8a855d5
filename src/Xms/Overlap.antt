-- ===== src/Xms/Overlap.antt =====
-- src/kernel/xms.c, function 0Fh: an empty block that shares its base with another block.
use liberdos.Base.{
  ℕ, ◌+◌, ◌-◌, ◌≤◌, ◌<◌, ◌≡◌, ◌≢◌, refl, ap, true, false, not, arith, update, Array, ◌==◌, leb,
  ℕ_discrete,
}
use liberdos.Base.Word.{u32}
use liberdos.Xms.Pool.{Handle, handle_count, pool_start_kb}
use liberdos.Xms.Pool.Next.{IsNext, nothing, lowest, next_block_above-Lowest}
use liberdos.Xms.{Xms, XFrame, reallocate, grow_limit, is_bad, entry, set_entry, succeed}

-- The handle in DX is that of an empty block at the start of the pool, where block `b` starts too;
-- no other block is in the way of a block of BX KB there.
pub record SharesBase (x : Xms) (r : XFrame) (b : ℕ) : Type 0 where
  pub handle : is_bad x.xh r.dx ≡ false
  pub other : b ≢ r.dx - 1
  pub unlocked : (entry x r).locks ≡ 0
  pub base : (entry x r).base_kb ≡ pool_start_kb
  pub empty : (entry x r).size_kb ≡ 0
  pub b_base : (x.xh b).base_kb ≡ pool_start_kb
  pub clear :
      (i : ℕ)
      → i < handle_count
      → (x.xh i).used ≡ true
      → i ≢ r.dx - 1
      → i ≢ b
      → pool_start_kb + r.bx ≤ (x.xh i).base_kb
  pub room : pool_start_kb + r.bx ≤ x.pool_end_kb
  pub asked : 0 < r.bx
  pub small : r.bx < 65536

-- The scan for the next block begins one KB behind the common base, so it does not see block `b`.
limit_misses :
    (x : Xms) (r : XFrame) (b : ℕ) → SharesBase x r b → pool_start_kb + r.bx ≤ grow_limit x r
unfolding grow_limit
limit_misses x r b s = elim (next_block_above-Lowest alone (u32 ((entry x r).base_kb + 1))) [
  | nothing e passed ↦ rw (e, grow_limit) s.room
  | lowest nb e n ↦ rw (e, grow_limit) (clear_of nb n)
]
  where
    alone : Array Handle
    alone = update x.xh (r.dx - 1) (record (entry x r) { size_kb = 0 })

    clear_of :
        (nb : ℕ)
        → IsNext alone (u32 ((entry x r).base_kb + 1)) handle_count nb
        → pool_start_kb + r.bx ≤ (x.xh nb).base_kb
    clear_of nb n = elim (ℕ_discrete nb (r.dx - 1)) [
      | yes e ↦ absurd (ground (arith, n.above, s.base, e))
      | no ne ↦ elim (ℕ_discrete nb b) [
        | yes e ↦ absurd (ground (arith, n.above, s.base, s.b_base, ap (λ i. (x.xh i).base_kb) e))
        | no nb_other ↦ s.clear nb n.index (ground (arith, n.used)) ne nb_other
      ]
    ]

grows :
    (x : Xms) (r : XFrame) (b : ℕ)
    → SharesBase x r b
    → reallocate x r ≡ (set_entry x r (record (entry x r) { size_kb = r.bx }), succeed r)
unfolding reallocate
grows x r b s =
    let unlocked : not ((entry x r).locks == 0) ≡ false = ground (arith, s.unlocked) in
    let larger : leb r.bx (entry x r).size_kb ≡ false = ground (arith, s.empty, s.asked) in
    let fits : leb (u32 ((entry x r).base_kb + r.bx)) (grow_limit x r) ≡ true =
      ground (arith, s.base, s.small, limit_misses x r b s) in
    rw (s.handle, unlocked, larger, fits, reallocate) refl

-- Where an empty unlocked block and block `b` both begin at the start of the pool and no third block
-- is in the way, function 0Fh lets the empty one grow over `b`: it reports success, and afterwards the
-- two still begin at the same KB, the one with the BX KB that were asked for and `b` as it was.
pub grow_overlaps :
    (x : Xms) (r : XFrame) (b : ℕ)
    → SharesBase x r b
    → let (y, q) = reallocate x r in
      (q.ax ≡ 1)
      × ((y.xh (r.dx - 1)).base_kb ≡ (y.xh b).base_kb)
      × ((y.xh (r.dx - 1)).size_kb ≡ r.bx)
      × ((y.xh b).size_kb ≡ (x.xh b).size_kb)
grow_overlaps x r b s =
    rw (grows x r b s)
      (refl, ground (arith, s.base, s.b_base, s.other), ground arith, ground (arith, s.other))
