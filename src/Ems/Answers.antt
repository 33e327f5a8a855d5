-- ===== src/Ems/Answers.antt =====
-- src/kernel/ems.c: every call of INT 67h returns, and keeps the ownership of the pages.
use liberdos.Base.{
  ℕ, zero, suc, ◌+◌, ◌<◌, ◌≡◌, inl, inr, subst, Bool, true, false, not, ◌||◌, ◌&&◌, Option, none,
  some, arith, Array, Bool-cases, Option-cases, ltb, leb, ◌==◌, ◌-◌, if◌then◌else◌, ne→==, ==_refl,
  ℕ_discrete,
}
use liberdos.Base.Loop.{find_from-IsFirst}
use liberdos.Base.Word.{low}
use liberdos.Machine.{Bios, Ram, Iregs}
use liberdos.Xms.Move.{xms_copy}
use liberdos.Xms.Move.Ends.{xms_copy-ends}
use liberdos.Ems.{
  Ems, Emap, phys_pages, handle_count, unmapped, page_bytes, backing_alloc, flushed, phys_flush,
  brought_in, bring_in, unmapping, map_page, map_many,
}
use liberdos.Ems.Runs.{found, full, backing_alloc-FirstRun}
use liberdos.Ems.Calls.{
  moved, resize_at, shrunk, Reply, status, is_bad, with_handle, free_handle, allocate_run,
  allocate_for, allocate, mapped, restored, grown, grow_to, reallocate,
}
use liberdos.Ems.Kept.{IsStore, given-IsStore, moved-IsStore, shrunk-IsStore}

-- A call returns, and the invariant holds in the state that it leaves.
abbrev pub Returns : {A : Type 0} → Option (Ems × A) → Type 0
Returns none = ⊥
Returns (some (x, a)) = IsStore x

-- A copy always ends, so what follows it is judged by its outcomes alone.
copied-Returns :
    {A : Type 0} (bios : Bios) (dst src n : ℕ) (ram : Ram) (k : Option (ℕ × Ram) → Option (Ems × A))
    → ((st : ℕ) (after : Ram) → Returns (k (some (st, after))))
    → Returns (k (xms_copy bios dst src n ram))
copied-Returns bios dst src n ram k h =
    let ((st, after), e) = xms_copy-ends bios dst src n ram in rw e (h st after)

flushed-Returns :
    (x : Ems) (ppage st : ℕ) (after : Ram)
    → IsStore x
    → Returns (flushed x ppage (some (st, after)))
unfolding flushed
flushed-Returns x ppage st after v = elim (Bool-cases (st == 0)) [
  | inl ok ↦ rw ok (record { owned = v.owned; count = v.count })
  | inr bad ↦ rw bad (record { owned = v.owned; count = v.count })
]

pub phys_flush-Returns :
    (bios : Bios) (x : Ems) (ppage : ℕ) → IsStore x → Returns (phys_flush bios x ppage)
unfolding phys_flush
phys_flush-Returns bios x ppage v = elim (Bool-cases ((x.cur_map ppage).handle == unmapped)) [
  | inl t ↦ rw t v
  | inr f ↦ rw f (
      copied-Returns bios _ _ page_bytes x.ram (flushed x ppage)
        (λ st after. flushed-Returns x ppage st after v))
]

brought_in-Returns :
    (x : Ems) (h lpage ppage st : ℕ) (after : Ram)
    → IsStore x
    → Returns (brought_in x h lpage ppage (some (st, after)))
unfolding brought_in
brought_in-Returns x h lpage ppage st after v = elim (Bool-cases (st == 0)) [
  | inl ok ↦ rw ok (record { owned = v.owned; count = v.count })
  | inr bad ↦ rw bad (record { owned = v.owned; count = v.count })
]

bring_in-Returns :
    (bios : Bios) (h lpage ppage : ℕ) (o : Option (Ems × Bool))
    → Returns o
    → Returns (bring_in bios h lpage ppage o)
unfolding bring_in
bring_in-Returns bios h lpage ppage none v = v
bring_in-Returns bios h lpage ppage (some (x, false)) v = v
bring_in-Returns bios h lpage ppage (some (x, true)) v =
    copied-Returns bios _ _ page_bytes x.ram (brought_in x h lpage ppage)
      (λ st after. brought_in-Returns x h lpage ppage st after v)

unmapping-Returns : (o : Option (Ems × Bool)) → Returns o → Returns (unmapping o)
unfolding unmapping
unmapping-Returns none v = v
unmapping-Returns (some (x, ok)) v = v

-- A test in front of two ends of a call.
pub either-Returns :
    {A : Type 0} (b : Bool) (p q : Option (Ems × A))
    → Returns p
    → Returns q
    → Returns (if b then p else q)
either-Returns true p q v w = v
either-Returns false p q v w = w

pub map_page-Returns :
    (bios : Bios) (x : Ems) (h lpage ppage : ℕ)
    → IsStore x
    → Returns (map_page bios x h lpage ppage)
unfolding map_page
map_page-Returns bios x h lpage ppage v = either-Returns (leb phys_pages ppage) _ _ v (
    either-Returns (lpage == unmapped) _ _
      (unmapping-Returns (phys_flush bios x ppage) (phys_flush-Returns bios x ppage v))
      (either-Returns (leb handle_count h || not (x.eh h).used) _ _ v (
        either-Returns (leb (x.eh h).npages lpage) _ _ v (
          either-Returns ((x.cur_map ppage).handle == h && (x.cur_map ppage).lpage == lpage) _ _ v (
            bring_in-Returns bios h lpage ppage (phys_flush bios x ppage)
              (phys_flush-Returns bios x ppage v))))))

pub map_many-Returns :
    (bios : Bios) (request : Ems → ℕ → ℕ × ℕ × ℕ) (n i : ℕ) (x : Ems)
    → IsStore x
    → Returns (map_many bios request n i x)
unfolding map_many
map_many-Returns bios request zero i x v = v
map_many-Returns bios request (suc n) i x v = elim (Option-cases (page)) [
  | inl e ↦ absurd (subst Returns e one)
  | inr ((y, st), e) ↦
      let w : IsStore y = subst Returns e one in
      rw (e, map_many)
        (either-Returns (st == 0) _ _ (map_many-Returns bios request n (i + 1) y w) w)
]
  where
    page : Option (Ems × ℕ)
    page = map_page bios x (request x i).0 (request x i).1 (request x i).2

    one : Returns page
    one = map_page-Returns bios x (request x i).0 (request x i).1 (request x i).2 v

pub mapped-Returns : (r : Iregs) (o : Option (Ems × ℕ)) → Returns o → Returns (mapped r o)
mapped-Returns r none v = v
mapped-Returns r (some (x, st)) v = v

pub restored-Returns :
    (r : Iregs) (h : ℕ) (o : Option (Ems × ℕ)) → Returns o → Returns (restored r h o)
restored-Returns r h none v = v
restored-Returns r h (some (x, st)) v =
    either-Returns (st == 0) _ _ (record { owned = v.owned; count = v.count }) v

-- What a call may use of the handle in DX.
pub with_handle-Returns :
    (x : Ems) (r : Iregs) (k : ℕ → Reply)
    → IsStore x
    → ((h : ℕ) → h < handle_count → (x.eh h).used ≡ true → Returns (k h))
    → Returns (with_handle x r k)
with_handle-Returns x r k v good = elim (Bool-cases (is_bad x r.dx)) [
  | inl bad ↦ rw bad v
  | inr ok ↦ rw ok (good (r.dx - 1) (ground arith) (ground arith))
]

-- A reply that changes only parts of the state that the invariant does not name.
pub same-IsStore :
    (x : Ems) (ram : Ram) (cur_map : Array Emap) (saved_map : Array (Array Emap))
    (saved_used : Array Bool)
    → IsStore x
    → IsStore
        (record x { ram = ram; cur_map = cur_map; saved_map = saved_map; saved_used = saved_used })
same-IsStore x ram cur_map saved_map saved_used v = record { owned = v.owned; count = v.count }

pub allocate-Returns : (x : Ems) (r : Iregs) → IsStore x → Returns (allocate x r)
unfolding allocate allocate_for allocate_run free_handle
allocate-Returns x r v = elim (ℕ_discrete r.bx 0) [
  | yes z ↦ rw (z, allocate) v
  | no pos ↦
      rw (ne→== r.bx 0 pos, allocate)
        (either-Returns (ltb x.total_pages r.bx) _ _ v (found_handle (omega arith)))
]
  where
    found_run :
        (h : ℕ)
        → 0 < r.bx
        → h < handle_count
        → (x.eh h).used ≡ false
        → Returns (allocate_run x r h (backing_alloc x r.bx))
    found_run h pos hh unused =
        elim (backing_alloc-FirstRun x r.bx (omega (arith, v.owned.small)) pos) [
          | found p e fits free low ↦ rw e (given-IsStore x h r.bx p v hh unused fits free)
          | full e none_free ↦ rw e v
        ]

    found_handle : 0 < r.bx → Returns (allocate_for x r (free_handle x))
    found_handle pos = elim (Option-cases (free_handle x)) [
      | inl e ↦ rw e v
      | inr (h, e) ↦
          let first = find_from-IsFirst (λ i. not (x.eh i).used) handle_count 0 e in
          rw e (found_run h pos first.below (ground (arith, first.hit)))
    ]

pub reallocate-Returns :
    (bios : Bios) (x : Ems) (r : Iregs) → IsStore x → Returns (reallocate bios x r)
unfolding reallocate grow_to
reallocate-Returns bios x r v = with_handle-Returns x r (resize_at bios x r) v resize
  where
    copied_over :
        (h first st : ℕ) (after : Ram)
        → IsStore (moved x h r.bx first)
        → Returns (grown x r h first (some (st, after)))
    copied_over h first st after w =
        either-Returns (st == 0) _ _ (record { owned = w.owned; count = w.count })
          (record { owned = v.owned; count = v.count })

    grow :
        (h : ℕ)
        → h < handle_count
        → (x.eh h).used ≡ true
        → (x.eh h).npages < r.bx
        → Returns (grow_to bios x r h (backing_alloc x r.bx))
    grow h hh used more =
        elim (backing_alloc-FirstRun x r.bx (omega (arith, v.owned.small)) (omega arith)) [
          | found p e fits free low ↦ rw e (
              copied-Returns bios _ _ _ x.ram (grown x r h p) (λ st after.
                copied_over h p st after (moved-IsStore x h r.bx p v hh used more fits free)))
          | full e none_free ↦ rw e v
        ]

    resize :
        (h : ℕ)
        → h < handle_count
        → (x.eh h).used ≡ true
        → Returns (
            if r.bx == (x.eh h).npages
            then status x r 0
            else if ltb r.bx (x.eh h).npages
            then status (shrunk x h r.bx) r 0
            else grow_to bios x r h (backing_alloc x r.bx))
    resize h hh used = elim (ℕ_discrete r.bx (x.eh h).npages) [
      | yes same ↦ rw (same, ==_refl (x.eh h).npages) v
      | no ne ↦ elim (Bool-cases (ltb r.bx (x.eh h).npages)) [
        | inl less ↦
            rw (ne→== r.bx (x.eh h).npages ne, less)
              (shrunk-IsStore x h r.bx v hh used (ground arith))
        | inr more ↦ rw (ne→== r.bx (x.eh h).npages ne, more) (grow h hh used (ground arith))
      ]
    ]
