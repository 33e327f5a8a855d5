-- ===== src/Xms/Invariant.antt =====
-- src/kernel/xms.c: each operation on the handle table keeps the blocks inside the pool and apart.
use liberdos.Base.{
  ℕ, ◌+◌, ◌≤◌, ◌<◌, ◌≡◌, ◌≢◌, ◌⊎◌, inl, inr, refl, true, false, not, ◌&&◌, Option, none, some,
  arith, Array, update, Option-cases, Bool-cases, ◌==◌, ne→==,
}
use liberdos.Xms.Pool.{Handle, handle_count, pool_start_kb, find_gap, IsPool, IsPlace}
use liberdos.Xms.Pool.Walk.{fits, no_room, find_gap-FirstFit}
use liberdos.Xms.{Xms, XFrame, free_handle, allocate_at, allocate, free, lock, unlock}

-- An entry that is free, or is what it was up to a smaller size.
abbrev pub Shrunk : Handle → Handle → Type 0
Shrunk h g =
    (g.locks < 256)
    × ((g.used ≡ false) ⊎ ((h.used ≡ true) × (g.base_kb ≡ h.base_kb) × (g.size_kb ≤ h.size_kb)))

pub Shrunk-IsPool :
    (xh xh' : Array Handle) (pool_end pool_end' : ℕ)
    → pool_end' ≡ pool_end
    → ((i : ℕ) → i < handle_count → Shrunk (xh i) (xh' i))
    → IsPool xh pool_end
    → IsPool xh' pool_end'
Shrunk-IsPool xh xh' pool_end pool_end' e s v = record {
  start = omega (arith, v.start);
  bound = omega (arith, v.bound);
  inside = λ i hi u. ground (arith, s i hi, v.inside i hi);
  apart = λ i j hi hj ne ui uj. ground (arith, s i hi, s j hj, v.apart i j hi hj ne);
  locks = λ i hi. (s i hi).0;
}

-- A block at a place that is free but for the handle itself.
abbrev pub IsPlaceFor : Array Handle → ℕ → ℕ → Handle → Type 0
IsPlaceFor xh pool_end h b =
    (pool_start_kb ≤ b.base_kb)
    × (b.base_kb + b.size_kb ≤ pool_end)
    × (b.locks < 256)
    × ((i : ℕ)
        → i < handle_count
        → i ≢ h
        → (xh i).used ≡ true
        → ((xh i).base_kb + (xh i).size_kb ≤ b.base_kb) ⊎ (b.base_kb + b.size_kb ≤ (xh i).base_kb))

pub placed-IsPool :
    (xh : Array Handle) (pool_end h : ℕ) (b : Handle)
    → IsPlaceFor xh pool_end h b
    → IsPool xh pool_end
    → IsPool (update xh h b) pool_end
placed-IsPool xh pool_end h b (from, below, locks, free) v = record {
  start = v.start;
  bound = v.bound;
  inside = λ i hi u. ground (arith, v.inside i hi);
  apart = λ i j hi hj ne ui uj. ground (arith, v.apart i j hi hj ne, free i hi, free j hj);
  locks = λ i hi. ground (arith, v.locks i hi);
}

-- `xms_reserve` and function 09h take the lowest place for the block.
pub gap-IsPool :
    (xh : Array Handle) (pool_end size locks h : ℕ) {g : ℕ}
    → IsPool xh pool_end
    → size < 65536
    → locks < 256
    → g ≢ 0
    → find_gap xh pool_end size ≡ some g
    → IsPool
        (update xh h (record { used = true; locks = locks; base_kb = g; size_kb = size }))
        pool_end
gap-IsPool xh pool_end size locks h {g} v small few ne e =
    elim (find_gap-FirstFit xh pool_end size v small e) [
      | fits p low ↦
          placed-IsPool xh pool_end h _ (p.from, p.below, few, λ i hi ni u. p.free i hi u) v
      | no_room z _ ↦ absurd (ne z)
    ]

-- The invariant of the driver's state, and what a reply leaves of it.
abbrev pub HasPool : Xms → Type 0
HasPool x = IsPool x.xh x.pool_end_kb

abbrev pub Keeps : Option (Xms × XFrame) → Type 0
Keeps none = Unit
Keeps (some (x, r)) = HasPool x

-- An empty block always has a place, at the start of the pool.
pub empty-IsPlace : (x : Xms) → HasPool x → IsPlace x.xh x.pool_end_kb 0 pool_start_kb
empty-IsPlace x v = record {
  from = omega arith;
  below = omega (arith, v.start);
  free = λ i hi u. inr (omega (arith, v.inside i hi u));
}

pub gap-ne-zero :
    (x : Xms) (size : ℕ) {g : ℕ}
    → HasPool x
    → size < 65536
    → find_gap x.xh x.pool_end_kb size ≡ some g
    → (size ≡ 0) ⊎ (g ≢ 0)
    → g ≢ 0
gap-ne-zero x size v small e (inr ne) = ne
gap-ne-zero x size {g} v small e (inl z) =
    elim (find_gap-FirstFit x.xh x.pool_end_kb size v small e) [
      | fits p low ↦ omega (arith, p.from)
      | no_room _ h ↦ absurd (h pool_start_kb (rw z (empty-IsPlace x v)))
    ]

allocate_at-Keeps :
    (x : Xms) (r : XFrame) (h : ℕ) (found : Option ℕ)
    → HasPool x
    → r.dx < 65536
    → find_gap x.xh x.pool_end_kb r.dx ≡ found
    → Keeps (allocate_at x r h found)
unfolding allocate_at
allocate_at-Keeps x r h none v small e = tt
allocate_at-Keeps x r h (some g) v small e = elim (Bool-cases (g == 0 && not (r.dx == 0))) [
  | inl full ↦ rw (full, allocate_at) v
  | inr ok ↦
      let ne = gap-ne-zero x r.dx v small e (ground arith) in
      rw (ok, ne→== g 0 ne, allocate_at)
        (gap-IsPool x.xh x.pool_end_kb r.dx 0 h v small (omega arith) ne e)
]

pub allocate-Keeps : (x : Xms) (r : XFrame) → HasPool x → r.dx < 65536 → Keeps (allocate x r)
unfolding allocate
allocate-Keeps x r v small = elim (Option-cases (free_handle x.xh)) [
  | inl e ↦ rw (e, allocate) v
  | inr (h, e) ↦
      rw (e, allocate) (allocate_at-Keeps x r h (find_gap x.xh x.pool_end_kb r.dx) v small refl)
]

pub free-HasPool : (x : Xms) (r : XFrame) → HasPool x → HasPool (free x r).0
unfolding free
free-HasPool x r v =
    Shrunk-IsPool x.xh _ x.pool_end_kb _ (ground arith) (λ i hi. ground (arith, v.locks i hi)) v

pub lock-HasPool : (x : Xms) (r : XFrame) → HasPool x → HasPool (lock x r).0
unfolding lock
lock-HasPool x r v =
    Shrunk-IsPool x.xh _ x.pool_end_kb _ (ground arith) (λ i hi. ground (arith, v.locks i hi)) v

pub unlock-HasPool : (x : Xms) (r : XFrame) → HasPool x → HasPool (unlock x r).0
unfolding unlock
unlock-HasPool x r v =
    Shrunk-IsPool x.xh _ x.pool_end_kb _ (ground arith) (λ i hi. ground (arith, v.locks i hi)) v
