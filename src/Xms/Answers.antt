-- ===== src/Xms/Answers.antt =====
-- src/kernel/xms.c: the functions that walk the pool or copy, and `none` is never their reply while
-- no block in use is empty.
use liberdos.Base.{
  ◌<◌, ◌≡◌, ◌≢◌, inl, inr, refl, subst, not, ◌&&◌, none, some, Option-cases, Bool-cases, ◌==◌,
  if◌then◌else◌,
}
use liberdos.Base.Word.{u16, with_low}
use liberdos.Machine.{Bios}
use liberdos.Xms.Pool.{HasSizes}
use liberdos.Xms.Pool.Walk.{find_gap-total}
use liberdos.Xms.Pool.Query.{query_free-Reports}
use liberdos.Xms.Move.{Moved, done, failed, do_move}
use liberdos.Xms.Move.Ends.{do_move-ends}
use liberdos.Xms.{
  Xms, XFrame, Reply, succeed, fail, free_handle, allocate_at, allocate, move, query_extended,
  read_move, reallocate,
}
use liberdos.Xms.Invariant.{HasPool, Keeps, allocate-Keeps}
use liberdos.Xms.Grow.{reallocate-HasPool}
use liberdos.Xms.Sizes.{KeepsSizes, allocate-KeepsSizes, reallocate-HasSizes}

-- A pool with no empty block, and a reply that leaves one.
pub record IsSound (x : Xms) : Type 0 where
  pub pool : HasPool x
  pub sizes : HasSizes x.xh

abbrev pub Answers : Reply → Type 0
Answers reply = (y : Xms) × (q : XFrame) × (reply ≡ some (y, q)) × IsSound y

allocate-ne-none : (x : Xms) (r : XFrame) → IsSound x → r.dx < 65536 → allocate x r ≢ none
unfolding allocate allocate_at
allocate-ne-none x r v small = elim (Option-cases (free_handle x.xh)) [
  | inl e ↦ rw (e, allocate) (λ z. cc)
  | inr (h, e) ↦
      let (g, eg, _) = find_gap-total x.xh x.pool_end_kb r.dx v.pool small v.sizes in
      elim (Bool-cases (g == 0 && not (r.dx == 0))) [
        | inl full ↦ rw (e, allocate) (rw (eg, allocate_at) (rw full (λ z. cc)))
        | inr ok ↦ rw (e, allocate) (rw (eg, allocate_at) (rw ok (λ z. cc)))
      ]
]

pub allocate-Answers :
    (x : Xms) (r : XFrame) → IsSound x → r.dx < 65536 → r.dx ≢ 0 → Answers (allocate x r)
allocate-Answers x r v small ne = elim (Option-cases (allocate x r)) [
  | inl e ↦ absurd (allocate-ne-none x r v small e)
  | inr ((y, q), e) ↦ (
    y,
    q,
    e,
    record {
      pool = subst Keeps e (allocate-Keeps x r v.pool small);
      sizes = subst KeepsSizes e (allocate-KeepsSizes x r v.sizes ne);
    },
  )
]

pub query_extended-Answers : (x : Xms) (r : XFrame) → IsSound x → Answers (query_extended x r)
unfolding query_extended
query_extended-Answers x r v =
    let ((largest, total), e, _) = query_free-Reports x.xh x.pool_end_kb v.pool v.sizes in
    (
      x,
      record r {
        ax = u16 largest;
        dx = u16 total;
        bx = with_low r.bx (if largest == 0 then 0xA0 else 0);
      },
      rw (e, query_extended) refl,
      v,
    )

-- The end of function 0Bh.
moved-Answers :
    (bios : Bios) (x : Xms) (r : XFrame) (m : Moved)
    → IsSound x
    → do_move bios x.xh (read_move x.ram r.ds r.si) x.ram ≡ some m
    → Answers (move bios x r)
unfolding move
moved-Answers bios x r (done ram) v e = (
  record x { ram = ram },
  succeed r,
  rw (e, move) refl,
  record { pool = v.pool; sizes = v.sizes },
)
moved-Answers bios x r (failed err ram) v e = (
  record x { ram = ram },
  fail r err,
  rw (e, move) refl,
  record { pool = v.pool; sizes = v.sizes },
)

pub move-Answers : (bios : Bios) (x : Xms) (r : XFrame) → IsSound x → Answers (move bios x r)
move-Answers bios x r v =
    let (m, e) = do_move-ends bios x.xh (read_move x.ram r.ds r.si) x.ram in
    moved-Answers bios x r m v e

pub reallocate-IsSound :
    (x : Xms) (r : XFrame) → IsSound x → r.bx < 65536 → r.bx ≢ 0 → IsSound (reallocate x r).0
reallocate-IsSound x r v small ne = record {
  pool = reallocate-HasPool x r v.pool v.sizes small;
  sizes = reallocate-HasSizes x r v.sizes ne;
}
