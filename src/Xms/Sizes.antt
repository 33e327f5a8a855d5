-- ===== src/Xms/Sizes.antt =====
-- src/kernel/xms.c: no operation makes an empty block unless it is asked for one.
use liberdos.Base.{
  ℕ, ◌*◌, ◌<◌, ◌≡◌, ◌≢◌, inl, inr, refl, sym, subst, true, false, not, Option, none, some, arith,
  update, Option-cases, Bool-cases, ◌==◌, ◌&&◌,
}
use liberdos.Base.Loop.{for_each_lem}
use liberdos.Machine.{Bios}
use liberdos.Xms.Pool.{Handle, handle_count, find_gap, HasSizes}
use liberdos.Base.Word.{u32}
use liberdos.Xms.Pool.Walk.{find_gap-total}
use liberdos.Xms.{Xms, XFrame, free_handle, allocate_at, allocate, free, lock, unlock, reallocate}
use liberdos.Xms.Start.{xms_init, reserve_at, xms_reserve}
use liberdos.Xms.Invariant.{HasPool, gap-IsPool}
use liberdos.Xms.Grow.{reallocate-cases}

abbrev pub KeepsSizes : Option (Xms × XFrame) → Type 0
KeepsSizes none = Unit
KeepsSizes (some (x, r)) = HasSizes x.xh

allocate_at-KeepsSizes :
    (x : Xms) (r : XFrame) (h : ℕ) (found : Option ℕ)
    → HasSizes x.xh
    → r.dx ≢ 0
    → KeepsSizes (allocate_at x r h found)
unfolding allocate_at
allocate_at-KeepsSizes x r h none s ne = tt
allocate_at-KeepsSizes x r h (some g) s ne = elim (Bool-cases (g == 0 && not (r.dx == 0))) [
  | inl full ↦ rw (full, allocate_at) s
  | inr ok ↦ rw (ok, allocate_at) (λ i hi u. ground (arith, s i hi))
]

pub allocate-KeepsSizes :
    (x : Xms) (r : XFrame) → HasSizes x.xh → r.dx ≢ 0 → KeepsSizes (allocate x r)
unfolding allocate
allocate-KeepsSizes x r s ne = elim (Option-cases (free_handle x.xh)) [
  | inl e ↦ rw (e, allocate) s
  | inr (h, e) ↦
      rw (e, allocate) (allocate_at-KeepsSizes x r h (find_gap x.xh x.pool_end_kb r.dx) s ne)
]

pub free-HasSizes : (x : Xms) (r : XFrame) → HasSizes x.xh → HasSizes (free x r).0.xh
unfolding free
free-HasSizes x r s i hi u = ground (arith, s i hi)

pub lock-HasSizes : (x : Xms) (r : XFrame) → HasSizes x.xh → HasSizes (lock x r).0.xh
unfolding lock
lock-HasSizes x r s i hi u = ground (arith, s i hi)

pub unlock-HasSizes : (x : Xms) (r : XFrame) → HasSizes x.xh → HasSizes (unlock x r).0.xh
unfolding unlock
unlock-HasSizes x r s i hi u = ground (arith, s i hi)

pub reallocate-HasSizes :
    (x : Xms) (r : XFrame) → HasSizes x.xh → r.bx ≢ 0 → HasSizes (reallocate x r).0.xh
reallocate-HasSizes x r s ne = elim (reallocate-cases x r) [
  | inl e ↦ subst (λ y. HasSizes y.xh) (sym e) s
  | inr (ok, e, _) ↦ subst (λ y. HasSizes y.xh) (sym e) (λ i hi u. ground (arith, s i hi))
]

-- Where the BIOS reports a 16-bit size and the lock counts fit a byte, `xms_init` leaves a well-formed
-- pool with no empty block, whatever was in use before.
pub xms_init-HasPool :
    (bios : Bios) (x : Xms)
    → bios.e801_kb < 65536
    → bios.kb_88 < 65536
    → ((i : ℕ) → i < handle_count → (x.xh i).locks < 256)
    → HasPool (xms_init bios x).0 × HasSizes (xms_init bios x).0.xh
unfolding xms_init
xms_init-HasPool bios x a b l = (
  record {
    start = ground arith;
    bound = ground arith;
    inside = λ i hi u. absurd (ground (arith, cleared i hi));
    apart = λ i j hi hj ne u. absurd (ground (arith, cleared i hi));
    locks = λ i hi. ground (
      arith,
      l i hi,
      for_each_lem handle_count 0 (λ (h : Handle). record h { used = false }) x.xh i,
    );
  },
  λ i hi u. absurd (ground (arith, cleared i hi)),
)
  where
    cleared : (i : ℕ) → i < handle_count → ((xms_init bios x).0.xh i).used ≡ false
    cleared i hi =
        ground
          (arith, for_each_lem handle_count 0 (λ (h : Handle). record h { used = false }) x.xh i)

-- In a well-formed pool with no empty block, `xms_reserve` for a 16-bit size that is not 0 ends, and
-- leaves such a pool.
pub xms_reserve-HasPool :
    (x : Xms) (kb : ℕ)
    → HasPool x
    → HasSizes x.xh
    → kb < 65536
    → kb ≢ 0
    → (y : Xms) × (base : ℕ) × (xms_reserve x kb ≡ some (y, base)) × HasPool y × HasSizes y.xh
unfolding xms_reserve reserve_at
xms_reserve-HasPool x kb v s small ne = elim (Option-cases (free_handle x.xh)) [
  | inl e ↦ (x, 0, rw (e, xms_reserve) refl, v, s)
  | inr (h, e) ↦
      let (g, eg, _) = find_gap-total x.xh x.pool_end_kb kb v small s in
      elim (Bool-cases (g == 0)) [
        | inl z ↦ (x, 0, rw (e, xms_reserve) (rw (eg, reserve_at) (rw z refl)), v, s)
        | inr nz ↦ (
          record x {
            xh = update x.xh h (record { used = true; locks = 1; base_kb = g; size_kb = kb });
          },
          u32 (g * 1024),
          rw (e, xms_reserve) (rw (eg, reserve_at) (rw nz refl)),
          gap-IsPool x.xh x.pool_end_kb kb 1 h v small (omega arith) (ground arith) eg,
          λ i hi u. ground (arith, s i hi),
        )
      ]
]
