-- ===== src/Ems/Ready.antt =====
-- src/kernel/ems.c, src/kernel/xms.c: what `ems_init` leaves when it succeeds.
use liberdos.Base.{
  ℕ, ◌+◌, ◌*◌, ◌^◌, ◌≤◌, ◌<◌, ◌≡◌, ◌≢◌, inl, inr, refl, sym, ap, ◌∙◌, true, false, not, Option,
  none, some, arith, Bool-cases, ◌==◌, some→eq, subst,
}
use liberdos.Base.Loop.{for_each_lem, count_from-none}
use liberdos.Xms.{Xms}
use liberdos.Xms.Invariant.{HasPool}
use liberdos.Xms.Start.{xms_reserve}
use liberdos.Xms.Reserve.{IsTaken, xms_reserve-IsTaken}
use liberdos.Ems.{Ems, Ehandle, Emap, phys_pages, handle_count, unmapped, no_owner, page_bytes}
use liberdos.Ems.Kept.{IsStore}
use liberdos.Ems.Pages.{IsBacked}
use liberdos.Ems.Start.{Chipset, backing_kb, frame_unlock, reserved, started, ems_init}

none_ne_some : {A : Type 0} {a : A} → none ≡ some a → ⊥
none_ne_some e = cc

differ : false ≡ true → ⊥
differ e = cc

started-unused : (x : Ems) (base h : ℕ) → h < handle_count → ((started x base).eh h).used ≡ false
started-unused x base h hh =
    ground (arith, for_each_lem handle_count 0 (λ (g : Ehandle). record g { used = false }) x.eh h)

started-free : (x : Ems) (base p : ℕ) → p < 256 → (started x base).page_owner p ≡ no_owner
started-free x base p hp = ground (arith, for_each_lem 256 0 (λ _. no_owner) x.page_owner p)

-- The tables with no handle in use and no page owned.
started-IsStore : (x : Ems) (base : ℕ) → IsStore (started x base)
started-IsStore x base = record {
  owned = record {
    small = omega arith;
    end = λ h hh u. absurd (unused h hh u);
    owns = λ h p i. absurd (unused h i.index i.used);
    owned = λ p hp ne. absurd (ne (free p hp));
  };
  count = sym (
      count_from-none (λ p. not ((started x base).page_owner p == no_owner)) 256 0
        (λ k lo hi. rw (free k hi) refl));
}
  where
    unused : (h : ℕ) → h < handle_count → ((started x base).eh h).used ≡ true → ⊥
    unused h hh u = differ (sym (started-unused x base h hh) ∙ u)

    free : (p : ℕ) → p < 256 → (started x base).page_owner p ≡ no_owner
    free = started-free x base

-- What a reported size says of the reservation.
reserved-started :
    (x y : Ems) (xms' : Xms) (kb : ℕ) (o : Option (Xms × ℕ))
    → reserved x o ≡ some (xms', y, kb)
    → kb ≢ 0
    → (base : ℕ) × (o ≡ some (xms', base)) × (base ≢ 0) × (y ≡ started x base) × (kb ≡ backing_kb)
unfolding reserved
reserved-started x y xms' kb none e ne = absurd (none_ne_some e)
reserved-started x y xms' kb (some (mid, base)) e ne = elim (Bool-cases (base == 0)) [
  | inl z ↦ absurd (ne (sym (ap (λ q. q.2) (some→eq _ _ (rw z at e)))))
  | inr nz ↦
      let same = some→eq _ _ (rw nz at e) in
      (
        base,
        ap (λ q. some (q.0, base)) same,
        ground (arith, nz),
        sym (ap (λ q. q.1) same),
        sym (ap (λ q. q.2) same),
      )
]

-- The state that the calls of INT 67h start from.
pub record IsReady (x : Ems) : Type 0 where
  pub store : IsStore x
  pub backed : IsBacked x
  pub present : x.present ≡ true
  pub total : x.total_pages ≡ 256
  pub unowned : x.used_pages ≡ 0
  pub free : (p : ℕ) → p < 256 → x.page_owner p ≡ no_owner
  pub unused : (h : ℕ) → h < handle_count → (x.eh h).used ≡ false
  pub empty : (p : ℕ) → p < phys_pages → (x.cur_map p).handle ≡ unmapped

started-IsReady :
    (x : Ems) (base : ℕ)
    → 0xE0000 ≤ base
    → base + 256 * page_bytes ≤ 2 ^ 32
    → IsReady (started x base)
started-IsReady x base lo hi = record {
  store = started-IsStore x base;
  backed = record { above = lo; below = hi };
  present = refl;
  total = refl;
  unowned = refl;
  free = started-free x base;
  unused = started-unused x base;
  empty = λ p hp.
      ground (
        arith,
        for_each_lem phys_pages 0 (λ (m : Emap). record m { handle = unmapped }) x.cur_map p,
      );
}

-- When `ems_init` reports a size, that is 4096 KB. The driver is present with its 256 pages free, no
-- handle in use and nothing mapped, and its backing store is below 4 GB and behind the page frame:
-- it is the block of an XMS handle that was free before and has a lock now, so that the pool, if it
-- was well formed, is so with that block, which is apart from all others, and is else unchanged.
pub ems_init-IsReady :
    (c : Chipset) (xms xms' : Xms) (x y : Ems) (kb : ℕ)
    → HasPool xms
    → ems_init c xms x ≡ some (xms', y, kb)
    → kb ≢ 0
    → IsReady y × IsTaken xms xms' 4096 y.backing_base × (kb ≡ 4096)
unfolding ems_init
ems_init-IsReady c xms xms' x y kb v e ne = elim (Bool-cases (frame_unlock c x.ram).0) [
  | inr f ↦ absurd (ne (sym (ap (λ q. q.2) (some→eq _ _ (rw f at e)))))
  | inl t ↦
      let z : Ems = record x { ram = (frame_unlock c x.ram).1 } in
      let (base, er, nz, same, size) =
        reserved-started z y xms' kb (xms_reserve xms backing_kb) (rw t at e) ne in
      let taken = xms_reserve-IsTaken xms xms' backing_kb base v (omega arith) nz er in
      subst (λ (q : Ems). IsReady q × IsTaken xms xms' 4096 q.backing_base × (kb ≡ 4096)) (sym same)
        (
          started-IsReady z base (omega (arith, taken.address, taken.inside))
              (omega (arith, taken.address, taken.inside, v.bound)),
          taken,
          size,
        )
]
