-- ===== src/Xms/Alloc.antt =====
-- src/kernel/xms.c: function 09h on every branch.
use liberdos.Base.{
  ℕ, ◌+◌, ◌<◌, ◌≤◌, ◌≡◌, ◌≢◌, inl, inr, refl, true, false, not, some, arith, update, Option-cases,
  ne→==,
}
use liberdos.Base.Loop.{find_from-IsFirst, find_from-none}
use liberdos.Base.Word.{u16}
use liberdos.Xms.Pool.{handle_count, IsPlace}
use liberdos.Xms.Pool.Walk.{fits, no_room, find_gap-total}
use liberdos.Xms.{Xms, XFrame, Reply, fail, free_handle, allocate_at, allocate}
use liberdos.Xms.Answers.{IsSound}

-- The handle table with one entry made.
abbrev pub with_block : Xms → ℕ → ℕ → ℕ → Xms
with_block x h g kb = record x {
  xh = update x.xh h (record { used = true; locks = 0; base_kb = g; size_kb = kb });
}

-- The replies to a request for `r.dx` KB: no handle is free; no place is; or the lowest place is
-- given out, under a free handle.
pub data Allocated (x : Xms) (r : XFrame) (reply : Reply) : Type 0 where
  no_handle :
      ((i : ℕ) → i < handle_count → (x.xh i).used ≡ true)
      → reply ≡ some (x, fail r 0xA1)
      → Allocated x r reply
  no_space :
      ((p : ℕ) → IsPlace x.xh x.pool_end_kb r.dx p → ⊥)
      → reply ≡ some (x, fail r 0xA0)
      → Allocated x r reply
  placed :
      (h g : ℕ)
      → h < handle_count
      → (x.xh h).used ≡ false
      → IsPlace x.xh x.pool_end_kb r.dx g
      → ((p : ℕ) → IsPlace x.xh x.pool_end_kb r.dx p → g ≤ p)
      → reply ≡ some (with_block x h g r.dx, record r { ax = 1; dx = h + 1 })
      → Allocated x r reply

-- In a pool with no empty block, a request for a block that is not empty fails with 0xA1 only when
-- every handle is in use and with 0xA0 only when no place in the pool is large enough; otherwise it
-- gets the lowest place, under a handle that was free, and nothing else of the state changes.
pub allocate-Allocated :
    (x : Xms) (r : XFrame) → IsSound x → r.dx < 65536 → r.dx ≢ 0 → Allocated x r (allocate x r)
unfolding allocate allocate_at free_handle
allocate-Allocated x r v small ne = elim (Option-cases (free_handle x.xh)) [
  | inl e ↦
      no_handle (λ i hi. ground (arith, find_from-none (λ k. not (x.xh k).used) handle_count 0 e i))
        (rw (e, allocate) refl)
  | inr (h, e) ↦
      let first = find_from-IsFirst (λ i. not (x.xh i).used) handle_count 0 e in
      let index : u16 (h + 1) ≡ h + 1 = omega (arith, first.below) in
      let (g, eg, fit) = find_gap-total x.xh x.pool_end_kb r.dx v.pool small v.sizes in
      elim fit [
        | no_room z none_fits ↦
            no_space none_fits
              (rw (e, allocate) (rw (eg, allocate_at) (rw (z, ne→== r.dx 0 ne) refl)))
        | fits p low ↦ placed h g first.below (ground (arith, first.hit)) p low (
            rw (e, allocate)
              (rw (eg, allocate_at) (rw (ne→== g 0 (omega (arith, p.from)), index) refl)))
      ]
]
