-- ===== src/Ems/Kept.antt =====
-- src/kernel/ems.c: the invariant of the driver's state, over the changes that its functions make.
use liberdos.Base.{
  ℕ, ◌+◌, ◌-◌, ◌≤◌, ◌<◌, ◌≡◌, refl, sym, ap, subst, fun_ext, true, false, not, arith, Array, update,
  ◌==◌,
}
use liberdos.Base.Loop.{for_each, count_from_bound}
use liberdos.Base.Runs.{filled}
use liberdos.Base.Word.{u8}
use liberdos.Ems.{Ems, Ehandle, handle_count, no_owner}
use liberdos.Ems.Runs.{AreFree}
use liberdos.Ems.Store.{
  IsOwned, taken_pages, freed-IsOwned, placed-IsOwned, freed-count, placed-count,
}
use liberdos.Ems.Calls.{no_name, given, released, shrunk, moved}

-- The invariant of the driver: pages have one owner, and the count of pages in use is theirs.
pub record IsStore (x : Ems) : Type 0 where
  pub owned : IsOwned x.eh x.page_owner x.total_pages
  pub count : x.used_pages ≡ taken_pages x.page_owner x.total_pages

IsOwned-agree :
    (eh eh' : Array Ehandle) (owner owner' : Array ℕ) (total : ℕ)
    → ((h : ℕ) → eh' h ≡ eh h)
    → ((p : ℕ) → owner' p ≡ owner p)
    → IsOwned eh owner total
    → IsOwned eh' owner' total
IsOwned-agree eh eh' owner owner' total a b v =
    subst (λ f. IsOwned f owner' total) (sym (fun_ext a))
      (subst (λ f. IsOwned eh f total) (sym (fun_ext b)) v)

taken_le : (owner : Array ℕ) (total : ℕ) → taken_pages owner total ≤ total
taken_le owner total = count_from_bound (λ p. not (owner p == no_owner)) total 0

pub given-IsStore :
    (x : Ems) (h npages first : ℕ)
    → IsStore x
    → h < handle_count
    → (x.eh h).used ≡ false
    → first + npages ≤ x.total_pages
    → AreFree x.page_owner first npages
    → IsStore (given x h npages first)
given-IsStore x h npages first v hh unused fits free =
    let e = placed-count x.page_owner x.total_pages h first npages hh fits free in
    record {
      owned =
          placed-IsOwned x.eh x.page_owner x.total_pages h
            (record { used = true; npages = npages; first = first; name = no_name }) v.owned hh
            unused refl fits free;
      count = omega (
        arith,
        e,
        v.count,
        v.owned.small,
        taken_le (given x h npages first).page_owner x.total_pages,
      );
    }

pub released-IsStore :
    (x : Ems) (h : ℕ) → IsStore x → h < handle_count → (x.eh h).used ≡ true → IsStore (released x h)
released-IsStore x h v hh used =
    let e = freed-count x.eh x.page_owner x.total_pages h v.owned hh used in
    record {
      owned =
          freed-IsOwned x.eh x.page_owner x.total_pages h (record (x.eh h) { used = false }) v.owned
            hh used refl;
      count = omega (arith, e, v.count, v.owned.small, taken_le x.page_owner x.total_pages);
    }

-- The entries of a handle that takes `npages` pages from `first` on after its old ones are freed.
resized : Ems → ℕ → ℕ → ℕ → Array ℕ
resized x h npages first =
    for_each npages first (λ _. u8 h)
      (for_each (x.eh h).npages (x.eh h).first (λ _. no_owner) x.page_owner)

abbrev entry : Ems → ℕ → ℕ → ℕ → Ehandle
entry x h npages first = record (x.eh h) { npages = npages; first = first }

module _ (x : Ems) (h npages first : ℕ) (v : IsStore x) (hh : h < handle_count)
    (used : (x.eh h).used ≡ true) (fits : first + npages ≤ x.total_pages)
    (free : AreFree
      (for_each (x.eh h).npages (x.eh h).first (λ _. no_owner) x.page_owner)
      first
      npages) where
  resized-IsOwned :
      IsOwned (update x.eh h (entry x h npages first)) (resized x h npages first) x.total_pages
  unfolding resized
  resized-IsOwned =
      IsOwned-agree _ (update x.eh h (entry x h npages first)) _ (resized x h npages first)
        x.total_pages (λ j. ground arith) (λ p. refl)
        (placed-IsOwned (update x.eh h (record (x.eh h) { used = false })) _ x.total_pages h
          (entry x h npages first)
          (freed-IsOwned x.eh x.page_owner x.total_pages h (record (x.eh h) { used = false })
            v.owned hh used refl)
          hh (ground arith) used fits free)

  resized-count :
      taken_pages (resized x h npages first) x.total_pages + (x.eh h).npages ≡ x.used_pages + npages
  unfolding resized
  resized-count = omega (
    arith,
    freed-count x.eh x.page_owner x.total_pages h v.owned hh used,
    placed-count (for_each (x.eh h).npages (x.eh h).first (λ _. no_owner) x.page_owner)
        x.total_pages h first npages hh fits free,
    v.count,
  )

pub moved-IsStore :
    (x : Ems) (h npages first : ℕ)
    → IsStore x
    → h < handle_count
    → (x.eh h).used ≡ true
    → (x.eh h).npages < npages
    → first + npages ≤ x.total_pages
    → AreFree x.page_owner first npages
    → IsStore (moved x h npages first)
unfolding resized
moved-IsStore x h npages first v hh used grows fits free =
    let still : AreFree (for_each (x.eh h).npages (x.eh h).first (λ _. no_owner) x.page_owner) first
        npages =
      λ k lo hi.
        ground (arith, free k, filled (x.eh h).npages (x.eh h).first no_owner x.page_owner k) in
    let e = resized-count x h npages first v hh used fits still in
    record {
      owned = resized-IsOwned x h npages first v hh used fits still;
      count = omega (arith, e, v.owned.small, taken_le (resized x h npages first) x.total_pages);
    }

pub shrunk-IsStore :
    (x : Ems) (h npages : ℕ)
    → IsStore x
    → h < handle_count
    → (x.eh h).used ≡ true
    → npages < (x.eh h).npages
    → IsStore (shrunk x h npages)
unfolding resized
shrunk-IsStore x h npages v hh used shrinks =
    let first = (x.eh h).first in
    let end = v.owned.end h hh used in
    let fits : first + npages ≤ x.total_pages = omega arith in
    let still : AreFree (for_each (x.eh h).npages first (λ _. no_owner) x.page_owner) first npages =
      λ k lo hi. ground (arith, filled (x.eh h).npages first no_owner x.page_owner k) in
    let e = resized-count x h npages first v hh used fits still in
    let same : (p : ℕ) → (shrunk x h npages).page_owner p ≡ resized x h npages first p = λ p.
      ground (
        arith,
        filled npages first (u8 h) (for_each (x.eh h).npages first (λ _. no_owner) x.page_owner) p,
        filled (x.eh h).npages first no_owner x.page_owner p,
        filled ((x.eh h).npages - npages) (first + npages) no_owner x.page_owner p,
        own p,
      ) in
    let pages : (shrunk x h npages).page_owner ≡ resized x h npages first = fun_ext same in
    record {
      owned =
          subst (λ f. IsOwned (update x.eh h (entry x h npages first)) f x.total_pages) (sym pages)
            (resized-IsOwned x h npages first v hh used fits still);
      count = omega (
        arith,
        e,
        ap (λ f. taken_pages f x.total_pages) pages,
        v.owned.small,
        v.count,
        taken_le x.page_owner x.total_pages,
      );
    }
  where
    own : (p : ℕ) → (x.eh h).first ≤ p → p < (x.eh h).first + (x.eh h).npages → x.page_owner p ≡ h
    own p lo hi = v.owned.owns h p (record { index = hh; used = used; from = lo; below = hi })
