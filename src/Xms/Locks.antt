-- ===== src/Xms/Locks.antt =====
-- src/kernel/xms.c: what the lock count of a handle protects, and what it does not.
use liberdos.Base.{
  ℕ, ◌+◌, ◌-◌, ◌*◌, ◌<◌, ◌≡◌, ◌≢◌, inl, inr, refl, sym, ap, ◌∙◌, subst, fun_ext, true, false, not,
  Option, none, some, arith, Array, update, Option-cases, Bool-cases, ℕ_discrete, ne→==, ◌==◌,
}
use liberdos.Base.Loop.{find_from-IsFirst}
use liberdos.Base.Word.{u32}
use liberdos.Xms.Pool.{Handle, handle_count, find_gap}
use liberdos.Xms.{
  Xms, XFrame, fail, free_handle, is_bad, entry, set_entry, free, lock, unlock, reallocate,
}
use liberdos.Xms.Start.{reserve_at, xms_reserve}

-- The table after a lock and an unlock of the same entry.
relocked :
    (xh : Array Handle) (i n : ℕ)
    → n ≡ (xh i).locks
    → (j : ℕ) → update xh i (record (xh i) { locks = n }) j ≡ xh j
relocked xh i n e j = elim (Bool-cases (i == j)) [
  | inl same ↦
      let ij : i ≡ j = ground arith in rw same (ap (λ k. record (xh i) { locks = k }) e ∙ ap xh ij)
  | inr other ↦ rw other refl
]

-- The entry after a lock.
lock-entry :
    (x : Xms) (r : XFrame)
    → is_bad x.xh r.dx ≡ false
    → (entry x r).locks < 255
    → (lock x r).0 ≡ set_entry x r (record (entry x r) { locks = (entry x r).locks + 1 })
unfolding lock
lock-entry x r ok few = rw (ok, lock) (ground arith)

abbrev locked : Xms → XFrame → Xms
locked x r = set_entry x r (record (entry x r) { locks = (entry x r).locks + 1 })

-- A locked block can neither be freed nor change its size, and one unlock brings back the state
-- before the lock.
guarded :
    (x : Xms) (r : XFrame)
    → is_bad x.xh r.dx ≡ false
    → (free (locked x r) r ≡ (locked x r, fail r 0xAB))
      × (reallocate (locked x r) r ≡ (locked x r, fail r 0xAB))
      × ((unlock (locked x r) r).0 ≡ x)
unfolding free reallocate unlock
guarded x r ok =
    let same : is_bad (locked x r).xh r.dx ≡ false = ground arith in
    let held : not ((entry (locked x r) r).locks == 0) ≡ true = ground arith in
    let more : ((entry (locked x r) r).locks == 0) ≡ false = ground arith in
    (
      rw (same, held, free) refl,
      rw (same, held, reallocate) refl,
      rw (same, more, unlock)
          (ap (λ f. record x { xh = f })
            (fun_ext (λ j. ground (arith, relocked x.xh (r.dx - 1) (entry x r).locks refl j)))),
    )

-- After a lock of a handle that has been locked fewer than 255 times, 0Ah and 0Fh on it answer 0xAB
-- and change nothing, and 0Dh on it brings back the state before the lock.
pub lock-guards :
    (x : Xms) (r q : XFrame)
    → is_bad x.xh r.dx ≡ false
    → (entry x r).locks < 255
    → q.dx ≡ r.dx
    → (free (lock x r).0 q ≡ ((lock x r).0, fail q 0xAB))
      × (reallocate (lock x r).0 q ≡ ((lock x r).0, fail q 0xAB))
      × ((unlock (lock x r).0 q).0 ≡ x)
lock-guards x r q ok few e =
    let at : is_bad x.xh q.dx ≡ false = rw e ok in
    let same : locked x q ≡ (lock x r).0 = rw (lock-entry x r ok few) (rw e refl) in
    subst
      (λ y.
        (free y q ≡ (y, fail q 0xAB)) × (reallocate y q ≡ (y, fail q 0xAB)) × ((unlock y q).0 ≡ x))
      same (guarded x q at)

-- The block that `xms_reserve` makes.
abbrev reserved : Xms → ℕ → ℕ → ℕ → Xms
reserved x kb h g = record x {
  xh = update x.xh h (record { used = true; locks = 1; base_kb = g; size_kb = kb });
}

-- A reply that is known is the reply that was given.
reply_eq :
    {a y : Xms} {b base : ℕ}
    → ◌≡◌ {A = Option (Xms × ℕ)} (some (a, b)) (some (y, base))
    → (y ≡ a) × (base ≡ b)
reply_eq e = (cc, cc)

reserve_at-cases :
    (x : Xms) (kb h : ℕ) (found : Option ℕ) {y : Xms} {base : ℕ}
    → reserve_at x kb h found ≡ some (y, base)
    → base ≢ 0
    → (g : ℕ) × (y ≡ reserved x kb h g)
unfolding reserve_at
reserve_at-cases x kb h none e ne = cc
reserve_at-cases x kb h (some g) {y} {base} e ne = elim (ℕ_discrete g 0) [
  | yes z ↦ absurd (
      ne
        (reply_eq {a = x} {b = 0} (subst (λ k. reserve_at x kb h (some k) ≡ some (y, base)) z e)).1)
  | no nz ↦ (
    g,
    (reply_eq {a = reserved x kb h g} {b = u32 (g * 1024)}
        (sym (rw (ne→== g 0 nz, reserve_at) refl) ∙ e)).0,
  )
]

reserve-cases :
    (x : Xms) (kb : ℕ) {y : Xms} {base : ℕ}
    → xms_reserve x kb ≡ some (y, base)
    → base ≢ 0
    → (h : ℕ) × (g : ℕ) × (h < handle_count) × (y ≡ reserved x kb h g)
unfolding xms_reserve free_handle
reserve-cases x kb {y} {base} e ne = elim (Option-cases (free_handle x.xh)) [
  | inl n ↦ absurd (ne (reply_eq {a = x} {b = 0} (sym (rw (n, xms_reserve) refl) ∙ e)).1)
  | inr (h, eh) ↦
      let (g, same) =
        reserve_at-cases x kb h (find_gap x.xh x.pool_end_kb kb)
          (sym (rw (eh, xms_reserve) refl) ∙ e) ne in
      (h, g, (find_from-IsFirst (λ i. not (x.xh i).used) handle_count 0 eh).below, same)
]

-- A client that names the reserved handle can give up the one lock that it has and then free it.
freed :
    (x : Xms) (r : XFrame)
    → is_bad x.xh r.dx ≡ false
    → (entry x r).locks ≡ 1
    → ((unlock x r).1.ax ≡ 1)
      × ((free (unlock x r).0 r).1.ax ≡ 1)
      × (((free (unlock x r).0 r).0.xh (r.dx - 1)).used ≡ false)
unfolding unlock free
freed x r ok one =
    let less : (entry x r).locks == 0 ≡ false = ground arith in
    rw (ok, less, unlock) (refl, ground (arith, ok, one), ground (arith, ok, one))

-- The handle that `xms_reserve` locks is not safe from clients: whenever it makes a block, some
-- handle number is such that 0Dh and then 0Ah with that number in DX both report success, and the
-- handle is free again.
pub reserve_freed :
    (x : Xms) (kb : ℕ) (y : Xms) (base : ℕ) (r : XFrame)
    → xms_reserve x kb ≡ some (y, base)
    → base ≢ 0
    → (h : ℕ) × ((y.xh h).used ≡ true)
      × ((unlock y (record r { dx = h + 1 })).1.ax ≡ 1)
      × ((free (unlock y (record r { dx = h + 1 })).0 (record r { dx = h + 1 })).1.ax ≡ 1)
      × (((free (unlock y (record r { dx = h + 1 })).0 (record r { dx = h + 1 })).0.xh h).used
          ≡ false)
reserve_freed x kb y base r e ne =
    let (h, g, below, same) = reserve-cases x kb e ne in
    let q : XFrame = record r { dx = h + 1 } in
    let ok : is_bad y.xh q.dx ≡ false = rw same (ground arith) in
    let one : (entry y q).locks ≡ 1 = rw same (ground arith) in
    let (a, b, c) = freed y q ok one in
    (
      h,
      rw same (ground arith),
      a,
      b,
      subst (λ i. ((free (unlock y q).0 q).0.xh i).used ≡ false) (omega arith) c,
    )
