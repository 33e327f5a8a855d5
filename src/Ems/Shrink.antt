-- ===== src/Ems/Shrink.antt =====
-- src/kernel/ems.c: a handle that function 51h makes smaller while one of its last pages is mapped.
use liberdos.Base.{
  ℕ, zero, suc, ◌+◌, ◌-◌, ◌≤◌, ◌<◌, ◌≡◌, refl, sym, ap, ◌∙◌, true, false, Option, none, some, arith,
  update_self, ltb, ◌==◌, ne→==, some→eq, subst,
}
use liberdos.Base.Loop.{for_each_lem}
use liberdos.Base.Word.{u16}
use liberdos.Machine.{Bios, Ram, Iregs, set_ah, copied}
use liberdos.Xms.Move.{xms_copy}
use liberdos.Xms.Move.Copy.{Moves, xms_copy-copied}
use liberdos.Ems.{
  Ems, Ehandle, phys_pages, no_owner, unmapped, page_bytes, frame_lin, backing_lin, backing_page,
  flushed, phys_flush,
}
use liberdos.Ems.Calls.{is_bad, shrunk, reallocate}
use liberdos.Ems.Kept.{IsStore}
use liberdos.Ems.Pages.{IsBacked, HasPage, home, home_lem, CanCopy-out}
use liberdos.Ems.Paging.{mapping, suc_ne_zero}

unequal : false ≡ true → ⊥
unequal e = cc

-- A flush that works has copied the frame.
flushed-copied :
    (x z : Ems) (p : ℕ) (o : Option (ℕ × Ram))
    → flushed x p o ≡ some (z, true)
    → (ram : Ram) × (o ≡ some (0, ram)) × ((a : ℕ) → z.ram a ≡ ram a)
unfolding flushed
flushed-copied x z p none e = cc
flushed-copied x z p (some (zero, ram)) e =
    (ram, refl, λ a. sym (ap (λ q. q.0.ram a) (some→eq _ _ e)))
flushed-copied x z p (some (suc st, ram)) e =
    absurd (unequal (ap (λ q. q.1) (some→eq _ _ (rw (suc_ne_zero st) at e))))

tail_free :
    (x : Ems) (h n l : ℕ)
    → n ≤ l
    → HasPage x h l
    → (shrunk x h n).page_owner ((x.eh h).first + l) ≡ no_owner
tail_free x h n l le g = ground (
  arith,
  g.below,
  for_each_lem ((x.eh h).npages - n) ((x.eh h).first + n) (λ _. no_owner) x.page_owner
      ((x.eh h).first + l),
)

-- Such a flush writes to the place that the page had before.
module _ (bios : Bios) (works : Moves bios) (x : Ems) (v : IsStore x) (k : IsBacked x) (h l n p : ℕ)
    (g : HasPage x h l) (hp : p < phys_pages) (m : x.cur_map p ≡ mapping h l) where
  same_place : backing_lin (shrunk x h n) (backing_page (shrunk x h n) h l) ≡ home x h l
  same_place =
      ap (λ (q : Ehandle). backing_lin x (u16 (q.first + l)))
        (update_self x.eh h (record (x.eh h) { npages = n }))
      ∙ home_lem x v k h l g

  stale_flush :
      (z : Ems)
      → phys_flush bios (shrunk x h n) p ≡ some (z, true)
      → (a : ℕ) → z.ram a ≡ copied (home x h l) (frame_lin p) page_bytes x.ram a
  unfolding phys_flush
  stale_flush z e a =
      let b : h == unmapped ≡ false = ne→== _ _ (omega (arith, g.index)) in
      let (ram, er, same) =
        flushed-copied (shrunk x h n) z p
          (xms_copy bios (home x h l) (frame_lin p) page_bytes x.ram)
          (rw (m, b, same_place) at e) in
      same a
      ∙ xms_copy-copied bios (home x h l) (frame_lin p) page_bytes x.ram ram works refl
          (CanCopy-out x v k h l p g hp) er a

-- Function 51h for fewer pages succeeds without a look at the mappings: a page behind the new end
-- that is in the frame stays mapped there, though it is free for any other handle from then on, and
-- the flush of its frame page, if it works, writes the frame to it.
pub shrink_keeps_mapping :
    (bios : Bios) (x y z : Ems) (r s : Iregs) (l p : ℕ)
    → Moves bios
    → IsStore x
    → IsBacked x
    → 0 < r.dx
    → HasPage x (r.dx - 1) l
    → r.bx ≤ l
    → p < phys_pages
    → x.cur_map p ≡ mapping (r.dx - 1) l
    → reallocate bios x r ≡ some (y, s)
    → phys_flush bios y p ≡ some (z, true)
    → (s ≡ set_ah r 0)
      × (y.cur_map p ≡ mapping (r.dx - 1) l)
      × (y.page_owner ((x.eh (r.dx - 1)).first + l) ≡ no_owner)
      × ((a : ℕ) → z.ram a ≡ copied (home x (r.dx - 1) l) (frame_lin p) page_bytes x.ram a)
unfolding reallocate
shrink_keeps_mapping bios x y z r s l p works v k pos g le hp m e f =
    let h : ℕ = r.dx - 1 in
    let good : is_bad x r.dx ≡ false = ground (arith, g.index, g.used) in
    let less : ltb r.bx (x.eh h).npages ≡ true = ground (arith, g.below) in
    let other : r.bx == (x.eh h).npages ≡ false = ne→== _ _ (omega (arith, g.below)) in
    let done : reallocate bios x r ≡ some (shrunk x h r.bx, set_ah r 0) =
      rw good (rw other (rw less refl)) in
    let same = some→eq _ _ (sym e ∙ done) in
    (
      ap (λ q. q.1) same,
      ap (λ q. q.0.cur_map p) same ∙ m,
      ap (λ q. q.0.page_owner ((x.eh h).first + l)) same ∙ tail_free x h r.bx l le g,
      stale_flush bios works x v k h l r.bx p g hp m z
          (subst (λ q. phys_flush bios q p ≡ some (z, true)) (ap (λ q. q.0) same) f),
    )
