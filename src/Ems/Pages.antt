-- ===== src/Ems/Pages.antt =====
-- src/kernel/ems.c: where the logical pages of the handles are kept.
use liberdos.Base.{
  ℕ, ◌+◌, ◌*◌, ◌^◌, ◌≤◌, ◌<◌, ◌≡◌, ◌≢◌, ◌⊎◌, inl, inr, sym, ap, ◌∙◌, true, arith, dec_lt,
}
use liberdos.Machine.{Disjoint}
use liberdos.Xms.Move.Copy.{CanCopy}
use liberdos.Ems.{Ems, phys_pages, handle_count, page_bytes, backing_lin, frame_lin, backing_page}
use liberdos.Ems.Kept.{IsStore}

-- The backing store lies behind the page frame and below 4 GB.
pub record IsBacked (x : Ems) : Type 0 where
  pub above : 0xE0000 ≤ x.backing_base
  pub below : x.backing_base + x.total_pages * page_bytes ≤ 2 ^ 32

-- A logical page that a handle has.
pub record HasPage (x : Ems) (h lpage : ℕ) : Type 0 where
  pub index : h < handle_count
  pub used : (x.eh h).used ≡ true
  pub below : lpage < (x.eh h).npages

-- Where a logical page is kept.
abbrev pub home : Ems → ℕ → ℕ → ℕ
home x h lpage = x.backing_base + ((x.eh h).first + lpage) * page_bytes

module _ (x : Ems) (v : IsStore x) (k : IsBacked x) where
  pub page_in : (h lpage : ℕ) → HasPage x h lpage → (x.eh h).first + lpage < x.total_pages
  page_in h lpage g = omega (arith, v.owned.end h g.index g.used, g.below)

  pub home_lem :
      (h lpage : ℕ) → HasPage x h lpage → backing_lin x (backing_page x h lpage) ≡ home x h lpage
  home_lem h lpage g =
      let small : (x.eh h).first + lpage < 256 = omega (arith, page_in h lpage g, v.owned.small) in
      let page : backing_page x h lpage ≡ (x.eh h).first + lpage = omega arith in
      rw page (omega (arith, page_in h lpage g, k.below))

  -- Pages of the frame and of the store are apart, and so are two pages of the store.
  pub CanCopy-out :
      (h lpage p : ℕ)
      → HasPage x h lpage
      → p < phys_pages
      → CanCopy (home x h lpage) (frame_lin p) page_bytes
  CanCopy-out h lpage p g hp =
      let i = page_in h lpage g in
      (omega arith, omega (arith, k.below), inl (omega (arith, k.above)))

  pub CanCopy-in :
      (h lpage p : ℕ)
      → HasPage x h lpage
      → p < phys_pages
      → CanCopy (frame_lin p) (home x h lpage) page_bytes
  CanCopy-in h lpage p g hp =
      let i = page_in h lpage g in
      (omega (arith, k.below), omega arith, inr (omega (arith, k.above)))

  pub homes_apart :
      (h l h' l' : ℕ)
      → HasPage x h l
      → HasPage x h' l'
      → (h ≢ h') ⊎ (l ≢ l')
      → Disjoint (home x h l) (home x h' l') page_bytes
  homes_apart h l h' l' g g' ne = elim (dec_lt ((x.eh h).first + l) ((x.eh h').first + l')) [
    | yes lt ↦ inl (omega arith)
    | no ge ↦ inr (omega (arith, pages_apart))
  ]
    where
      owner : (n q : ℕ) → HasPage x n q → x.page_owner ((x.eh n).first + q) ≡ n
      owner n q a = v.owned.owns n ((x.eh n).first + q) (record {
        index = a.index;
        used = a.used;
        from = omega arith;
        below = omega (arith, a.below);
      })

      pages_apart : (x.eh h).first + l ≢ (x.eh h').first + l'
      pages_apart e =
          let same : h ≡ h' = sym (owner h l g) ∙ ap x.page_owner e ∙ owner h' l' g' in
          let offset : l ≡ l' = omega (arith, e, ap (λ n. (x.eh n).first) same) in
          elim ne [ inl a ↦ a same | inr a ↦ a offset ]
