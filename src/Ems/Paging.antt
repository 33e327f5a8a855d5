-- ===== src/Ems/Paging.antt =====
-- src/kernel/ems.c: `map_page` is paging: a page that comes back to the frame has the bytes that it
-- left with.
use liberdos.Base.{
  ℕ, zero, suc, ◌+◌, ◌-◌, ◌≤◌, ◌<◌, ◌≡◌, ◌≢◌, ◌⊎◌, inl, inr, refl, sym, ap, subst, ◌∙◌, false, not,
  ◌&&◌, ◌||◌, Option, none, some, arith, Array, update, leb, ◌==◌, ne→==, update_self, update_ne,
  some→eq,
}
use liberdos.Machine.{Bios, Ram, copied}
use liberdos.Xms.Move.{xms_copy}
use liberdos.Xms.Move.Copy.{Moves, xms_copy-copied}
use liberdos.Ems.{
  Ems, Emap, phys_pages, handle_count, unmapped, page_bytes, backing_lin, frame_lin, backing_page,
  flushed, phys_flush, brought_in, bring_in, map_page,
}
use liberdos.Ems.Kept.{IsStore}
use liberdos.Ems.Pages.{
  IsBacked, HasPage, home, page_in, home_lem, CanCopy-out, CanCopy-in, homes_apart,
}

-- The mapping of a physical page.
abbrev pub mapping : ℕ → ℕ → Emap
mapping h lpage = record { handle = h; lpage = lpage }

-- A successful call of `map_page` for a page that is not there yet, where another page is: the bytes
-- of the frame go home, and those of the new page come in.
pub record Swapped (x : Ems) (h l h' l' p : ℕ) (y : Ems) : Type 0 where
  pub mid : Ram
  pub ram : Ram
  pub cur : Array Emap
  pub out : (a : ℕ) → mid a ≡ copied (home x h l) (frame_lin p) page_bytes x.ram a
  pub back : (a : ℕ) → ram a ≡ copied (frame_lin p) (home x h' l') page_bytes mid a
  pub here : cur p ≡ mapping h' l'
  pub others : (q : ℕ) → p ≢ q → cur q ≡ x.cur_map q
  pub state : y ≡ record x { ram = ram; cur_map = cur }

-- The state between the two copies.
abbrev unmapped_at : Ems → ℕ → Ram → Ems
unmapped_at x p mid = record x {
  ram = mid;
  cur_map = update x.cur_map p (record (x.cur_map p) { handle = unmapped });
}

status_of :
    {y z : Ems} {a b : ℕ}
    → ◌≡◌ {A = Option (Ems × ℕ)} (some (y, a)) (some (z, b))
    → (y ≡ z) × (a ≡ b)
status_of e = (ap (λ q. q.0) (some→eq _ _ e), ap (λ q. q.1) (some→eq _ _ e))

pub suc_ne_zero : (n : ℕ) → suc n == 0 ≡ false
suc_ne_zero n = ground arith

bad_status : {y z : Ems} → ◌≡◌ {A = Option (Ems × ℕ)} (some (y, 0x80)) (some (z, 0)) → ⊥
bad_status e = omega (arith, (status_of e).1)

after_flush :
    (bios : Bios) (x : Ems) (h l p : ℕ) (o : Option (ℕ × Ram)) (y : Ems)
    → bring_in bios h l p (flushed x p o) ≡ some (y, 0)
    → (mid : Ram) × (o ≡ some (0, mid))
      × (brought_in
            (unmapped_at x p mid)
            h
            l
            p
            (xms_copy bios (frame_lin p) (backing_lin x (backing_page x h l)) page_bytes mid)
          ≡ some (y, 0))
unfolding bring_in flushed
after_flush bios x h l p none y e = cc
after_flush bios x h l p (some (zero, mid)) y e = (mid, refl, e)
after_flush bios x h l p (some (suc st, mid)) y e = absurd (bad_status (rw (suc_ne_zero st) at e))

after_copy :
    (z : Ems) (h l p : ℕ) (o : Option (ℕ × Ram)) (y : Ems)
    → brought_in z h l p o ≡ some (y, 0)
    → (ram : Ram) × (o ≡ some (0, ram))
      × (y ≡ record z { ram = ram; cur_map = update z.cur_map p (mapping h l) })
unfolding brought_in
after_copy z h l p none y e = cc
after_copy z h l p (some (zero, ram)) y e = (ram, refl, sym (status_of e).0)
after_copy z h l p (some (suc st, ram)) y e = absurd (bad_status (rw (suc_ne_zero st) at e))

module _ (bios : Bios) (works : Moves bios) (x : Ems) (v : IsStore x) (k : IsBacked x)
    (h l h' l' p : ℕ) (hp : p < phys_pages) (g : HasPage x h l) (g' : HasPage x h' l')
    (ne : (h ≢ h') ⊎ (l ≢ l')) (m : x.cur_map p ≡ mapping h l) where
  -- The checks of `map_page` pass.
  checks : map_page bios x h' l' p ≡ bring_in bios h' l' p (phys_flush bios x p)
  unfolding map_page
  checks =
      let a : leb phys_pages p ≡ false = ground arith in
      let b : l' == unmapped ≡ false =
        ne→== _ _ (omega (arith, page_in x v k h' l' g', v.owned.small)) in
      let c : leb handle_count h' || not (x.eh h').used ≡ false =
        ground (arith, g'.index, g'.used) in
      let d : leb (x.eh h').npages l' ≡ false = ground (arith, g'.below) in
      let e : (x.cur_map p).handle == h' && (x.cur_map p).lpage == l' ≡ false =
        rw m (ground (arith, ne)) in
      rw (a, b, c, d, e) refl

  flush :
      phys_flush bios x p ≡ flushed x p (xms_copy bios (home x h l) (frame_lin p) page_bytes x.ram)
  unfolding phys_flush
  flush =
      let b : h == unmapped ≡ false = ne→== _ _ (omega (arith, g.index)) in
      rw (m, b, home_lem x v k h l g) refl

  swap : (y : Ems) → map_page bios x h' l' p ≡ some (y, 0) → Swapped x h l h' l' p y
  swap y e =
      let (mid, e1, rest) =
        after_flush bios x h' l' p _ y (ap (bring_in bios h' l' p) (sym flush) ∙ sym checks ∙ e) in
      let z : Ems = unmapped_at x p mid in
      let (ram, e2, same) = after_copy z h' l' p _ y rest in
      let src : backing_lin z (backing_page z h' l') ≡ home x h' l' = home_lem x v k h' l' g' in
      let back =
        xms_copy-copied bios (frame_lin p) (home x h' l') page_bytes mid ram works refl
          (CanCopy-in x v k h' l' p g' hp)
          (ap (λ s. xms_copy bios (frame_lin p) s page_bytes mid) (sym src) ∙ e2) in
      record {
        mid = mid;
        ram = ram;
        cur = update z.cur_map p (mapping h' l');
        out =
            xms_copy-copied bios (home x h l) (frame_lin p) page_bytes x.ram mid works refl
              (CanCopy-out x v k h l p g hp) e1;
        back = back;
        here = update_self z.cur_map p (mapping h' l');
        others =
            λ q away. update_ne z.cur_map p q (mapping h' l') away ∙ update_ne x.cur_map p q _ away;
        state = same;
      }

-- A page goes home when `map_page` puts another page in its place, and `map_page` for the first page
-- again, in the state that the first call left, brings it back with the bytes that the program last
-- had in the frame: in a store whose pages are owned as they must be and that lies behind the frame,
-- if the BIOS copies as it documents and both calls succeed.
pub map_page-map_page :
    (bios : Bios) (x y z : Ems) (h l h' l' p : ℕ)
    → Moves bios
    → IsStore x
    → IsBacked x
    → p < phys_pages
    → HasPage x h l
    → HasPage x h' l'
    → (h ≢ h') ⊎ (l ≢ l')
    → x.cur_map p ≡ mapping h l
    → map_page bios x h' l' p ≡ some (y, 0)
    → map_page bios y h l p ≡ some (z, 0)
    → (z.cur_map p ≡ mapping h l)
      × ((a : ℕ) → frame_lin p ≤ a → a < frame_lin p + page_bytes → z.ram a ≡ x.ram a)
map_page-map_page bios x y z h l h' l' p works v k hp g g' ne m e1 e2 =
    let s = swap bios works x v k h l h' l' p hp g g' ne m y e1 in
    let x1 : Ems = record x { ram = s.ram; cur_map = s.cur } in
    let t =
      swap bios works x1 (record { owned = v.owned; count = v.count })
        (record { above = k.above; below = k.below }) h' l' h l p hp
        (record { index = g'.index; used = g'.used; below = g'.below })
        (record { index = g.index; used = g.used; below = g.below })
        (elim ne [ inl a ↦ inl (λ q. a (sym q)) | inr b ↦ inr (λ q. b (sym q)) ]) s.here z
        (subst (λ q. map_page bios q h l p ≡ some (z, 0)) s.state e2) in
    (
      ap (λ q. q.cur_map p) t.state ∙ t.here,
      λ a lo hi.
          let b : ℕ = home x h l + (a - frame_lin p) in
          let away = homes_apart x v k h l h' l' g g' ne in
          let page = page_in x v k h l g in
          ap (λ q. q.ram a) t.state ∙ ground (arith, t.back a, t.out b, s.back b, s.out b, k.above),
    )
