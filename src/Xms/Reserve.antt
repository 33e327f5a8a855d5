-- ===== src/Xms/Reserve.antt =====
-- src/kernel/xms.c: what `xms_reserve` does to the pool when it finds a block.
use liberdos.Base.{
  ℕ, ◌+◌, ◌*◌, ◌≤◌, ◌<◌, ◌≡◌, ◌≢◌, inl, inr, sym, ap, ◌∙◌, true, false, not, none, some, arith,
  update, ◌==◌, Bool-cases, Option-cases, some→eq, subst,
}
use liberdos.Base.Loop.{find_from-IsFirst}
use liberdos.Base.Word.{u32}
use liberdos.Xms.{Xms, free_handle}
use liberdos.Xms.Pool.{handle_count, pool_start_kb, find_gap}
use liberdos.Xms.Pool.Walk.{fits, no_room, find_gap-FirstFit}
use liberdos.Xms.Invariant.{HasPool, gap-IsPool}
use liberdos.Xms.Start.{reserve_at, xms_reserve}

-- A handle that was free has a locked block of `kb` KB from the linear address `base` on, which lies in
-- the pool. The pool is well formed, so the block is apart from all others, and nothing else changes.
pub record IsTaken (x y : Xms) (kb base : ℕ) : Type 0 where
  pub handle : ℕ
  pub place : ℕ
  pub below : handle < handle_count
  pub unused : (x.xh handle).used ≡ false
  pub after : y ≡ record x {
    xh = update x.xh handle (record { used = true; locks = 1; base_kb = place; size_kb = kb });
  }
  pub address : base ≡ place * 1024
  pub inside : (pool_start_kb ≤ place) × (place + kb ≤ x.pool_end_kb)
  pub pool : HasPool y

none_ne_some : {A : Type 0} {a : A} → none ≡ some a → ⊥
none_ne_some e = cc

reserve_at-IsTaken :
    (x y : Xms) (kb h base : ℕ)
    → HasPool x
    → kb < 65536
    → base ≢ 0
    → h < handle_count
    → (x.xh h).used ≡ false
    → reserve_at x kb h (find_gap x.xh x.pool_end_kb kb) ≡ some (y, base)
    → IsTaken x y kb base
unfolding reserve_at
reserve_at-IsTaken x y kb h base v small ne hi free e =
    elim (Option-cases (find_gap x.xh x.pool_end_kb kb)) [
      | inl n ↦ absurd (none_ne_some (sym (ap (reserve_at x kb h) n) ∙ e))
      | inr (g, eg) ↦
          let at : reserve_at x kb h (some g) ≡ some (y, base) =
            sym (ap (reserve_at x kb h) eg) ∙ e in
          elim (Bool-cases (g == 0)) [
            | inl z ↦ absurd (ne (sym (ap (λ q. q.1) (some→eq _ _ (rw z at at)))))
            | inr nz ↦
                let pair = some→eq _ _ (rw nz at at) in
                let same : u32 (g * 1024) ≡ base = ap (λ q. q.1) pair in
                elim (find_gap-FirstFit x.xh x.pool_end_kb kb v small eg) [
                  | fits place low ↦ record {
                    handle = h;
                    place = g;
                    below = hi;
                    unused = free;
                    after = sym (ap (λ q. q.0) pair);
                    address = omega (arith, same, place.from, place.below, v.bound);
                    inside = (place.from, place.below);
                    pool = subst HasPool (ap (λ q. q.0) pair) (
                        gap-IsPool x.xh x.pool_end_kb kb 1 h v small (omega arith)
                          (ground (arith, nz)) eg);
                  }
                  | no_room z0 full ↦ absurd (ground (arith, z0, nz))
                ]
          ]
    ]

pub xms_reserve-IsTaken :
    (x y : Xms) (kb base : ℕ)
    → HasPool x
    → kb < 65536
    → base ≢ 0
    → xms_reserve x kb ≡ some (y, base)
    → IsTaken x y kb base
unfolding xms_reserve free_handle
xms_reserve-IsTaken x y kb base v small ne e = elim (Option-cases (free_handle x.xh)) [
  | inl n ↦ absurd (ne (sym (ap (λ q. q.1) (some→eq _ _ (rw (n, xms_reserve) at e)))))
  | inr (h, eh) ↦
      let first = find_from-IsFirst (λ i. not (x.xh i).used) handle_count 0 eh in
      reserve_at-IsTaken x y kb h base v small ne first.below (ground (arith, first.hit))
        (rw (eh, xms_reserve) at e)
]
