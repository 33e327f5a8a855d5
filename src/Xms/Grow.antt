-- ===== src/Xms/Grow.antt =====
-- src/kernel/xms.c, function 0Fh: a block that changes its size in place.
use liberdos.Base.{
  ℕ, ◌+◌, ◌-◌, ◌≤◌, ◌<◌, ◌≡◌, ◌⊎◌, inl, inr, refl, sym, true, false, not, arith, Array, update,
  Bool-cases, leb, ◌==◌, subst, leb→le,
}
use liberdos.Base.Word.{u32}
use liberdos.Xms.Pool.{Handle, handle_count, HasSizes}
use liberdos.Xms.Pool.Next.{nothing, lowest, next_block_above-Lowest}
use liberdos.Xms.{Xms, XFrame, is_bad, entry, set_entry, grow_limit, reallocate}
use liberdos.Xms.Invariant.{HasPool, Shrunk-IsPool, IsPlaceFor, placed-IsPool}

-- What `grow_limit` is: nothing starts between the start of the block and the limit.
grow_limit-clear :
    (x : Xms) (r : XFrame)
    → HasPool x
    → is_bad x.xh r.dx ≡ false
    → (grow_limit x r ≤ x.pool_end_kb)
      × ((i : ℕ)
          → i < handle_count
          → (x.xh i).used ≡ true
          → (entry x r).base_kb < (x.xh i).base_kb
          → grow_limit x r ≤ (x.xh i).base_kb)
unfolding grow_limit
grow_limit-clear x r v ok = elim (next_block_above-Lowest alone (u32 ((entry x r).base_kb + 1))) [
  | nothing e passed ↦
      rw (e, grow_limit) (omega arith, λ i hi u b. absurd (ground (arith, passed i hi, near)))
  | lowest nb e n ↦
      rw (e, grow_limit)
        (
          ground (arith, n.used, v.inside nb n.index),
          λ i hi u b. ground (arith, n.least i hi, near),
        )
]
  where
    alone : Array Handle
    alone = update x.xh (r.dx - 1) (record (entry x r) { size_kb = 0 })

    near : u32 ((entry x r).base_kb + 1) ≡ (entry x r).base_kb + 1
    near = ground (arith, v.inside (r.dx - 1), v.bound)

-- A block that is not empty grows into free space only.
grow-IsPlaceFor :
    (x : Xms) (r : XFrame)
    → HasPool x
    → is_bad x.xh r.dx ≡ false
    → r.bx < 65536
    → 0 < (entry x r).size_kb
    → leb (u32 ((entry x r).base_kb + r.bx)) (grow_limit x r) ≡ true
    → IsPlaceFor x.xh x.pool_end_kb (r.dx - 1) (record (entry x r) { size_kb = r.bx })
grow-IsPlaceFor x r v ok small pos t =
    let (top, clear) = grow_limit-clear x r v ok in
    let used : (entry x r).used ≡ true = ground arith in
    let index : r.dx - 1 < handle_count = ground arith in
    let inside = v.inside (r.dx - 1) index used in
    let room : (entry x r).base_kb + r.bx ≤ grow_limit x r = ground (arith, v.bound) in
    (
      inside.0,
      omega arith,
      v.locks (r.dx - 1) index,
      λ i hi ne u. ground (arith, v.apart i (r.dx - 1) hi index ne u used, clear i hi u),
    )

-- The two outcomes of 0Fh: nothing changes, or the size does, for one of two reasons.
pub reallocate-cases :
    (x : Xms) (r : XFrame)
    → ((reallocate x r).0 ≡ x)
      ⊎ ((is_bad x.xh r.dx ≡ false)
          × ((reallocate x r).0 ≡ set_entry x r (record (entry x r) { size_kb = r.bx }))
          × ((r.bx ≤ (entry x r).size_kb)
              ⊎ (leb (u32 ((entry x r).base_kb + r.bx)) (grow_limit x r) ≡ true)))
unfolding reallocate
reallocate-cases x r = elim (Bool-cases (is_bad x.xh r.dx)) [
  | inl b ↦ inl (rw (b, reallocate) refl)
  | inr ok ↦ elim (Bool-cases (not ((entry x r).locks == 0))) [
    | inl l ↦ inl (rw (ok, l, reallocate) refl)
    | inr f ↦ elim (Bool-cases (leb r.bx (entry x r).size_kb)) [
      | inl s ↦ inr (ok, rw (ok, f, s, reallocate) refl, inl (leb→le _ _ s))
      | inr g ↦ elim (Bool-cases (leb (u32 ((entry x r).base_kb + r.bx)) (grow_limit x r))) [
        | inl t ↦ inr (ok, rw (ok, f, g, t, reallocate) refl, inr t)
        | inr t ↦ inl (rw (ok, f, g, t, reallocate) refl)
      ]
    ]
  ]
]

pub reallocate-HasPool :
    (x : Xms) (r : XFrame) → HasPool x → HasSizes x.xh → r.bx < 65536 → HasPool (reallocate x r).0
reallocate-HasPool x r v sizes small = elim (reallocate-cases x r) [
  | inl e ↦ subst HasPool (sym e) v
  | inr (ok, e, inl shrinks) ↦ subst HasPool (sym e) (
      Shrunk-IsPool x.xh _ x.pool_end_kb x.pool_end_kb refl (λ i hi. ground (arith, v.locks i hi))
        v)
  | inr (ok, e, inr t) ↦ subst HasPool (sym e) (
      placed-IsPool x.xh x.pool_end_kb (r.dx - 1) _
        (grow-IsPlaceFor x r v ok small (sizes (r.dx - 1) (ground arith) (ground arith)) t) v)
]
