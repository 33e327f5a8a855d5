-- ===== src/Ems/Store.antt =====
-- src/kernel/ems.c: the ownership of the backing pages, and what each function leaves of it.
use liberdos.Base.{
  ℕ, ◌+◌, ◌≤◌, ◌<◌, ◌≡◌, sym, subst, ◌≢◌, ◌∙◌, Bool, true, false, not, ◌&&◌, arith, Array, update,
  ltb, leb, ◌==◌, if◌then◌else◌, ℕ_discrete,
}
use liberdos.Base.Loop.{for_each, count_from}
use liberdos.Base.Runs.{count_from_run, filled}
use liberdos.Base.Word.{u8}
use liberdos.Ems.{Ehandle, handle_count, no_owner}
use liberdos.Ems.Runs.{AreFree}

-- Page `p` lies in the run of handle `h`, which is in use.
pub record IsIn (eh : Array Ehandle) (h p : ℕ) : Type 0 where
  pub index : h < handle_count
  pub used : (eh h).used ≡ true
  pub from : (eh h).first ≤ p
  pub below : p < (eh h).first + (eh h).npages

-- Every handle in use owns the pages of its run, and every owned page lies in the run of its owner.
pub record IsOwned (eh : Array Ehandle) (owner : Array ℕ) (total : ℕ) : Type 0 where
  pub small : total ≤ 256
  pub end : (h : ℕ) → h < handle_count → (eh h).used ≡ true → (eh h).first + (eh h).npages ≤ total
  pub owns : (h p : ℕ) → IsIn eh h p → owner p ≡ h
  pub owned : (p : ℕ) → p < total → owner p ≢ no_owner → IsIn eh (owner p) p

abbrev is_taken : Array ℕ → ℕ → Bool
is_taken owner p = not (owner p == no_owner)

abbrev pub taken_pages : Array ℕ → ℕ → ℕ
taken_pages owner total = count_from (is_taken owner) total 0

-- A handle stands as it was under another entry.
IsIn-update :
    (eh : Array Ehandle) (h k p : ℕ) (e : Ehandle) → h ≢ k → IsIn (update eh h e) k p → IsIn eh k p
IsIn-update eh h k p e ne i = record {
  index = i.index;
  used = ground (arith, i.used);
  from = ground (arith, i.from);
  below = ground (arith, i.below);
}

update-IsIn :
    (eh : Array Ehandle) (h k p : ℕ) (e : Ehandle) → h ≢ k → IsIn eh k p → IsIn (update eh h e) k p
update-IsIn eh h k p e ne i = record {
  index = i.index;
  used = ground (arith, i.used);
  from = ground (arith, i.from);
  below = ground (arith, i.below);
}

-- The run of a handle is freed, and the handle given up.
pub freed-IsOwned :
    (eh : Array Ehandle) (owner : Array ℕ) (total h : ℕ) (e : Ehandle)
    → IsOwned eh owner total
    → h < handle_count
    → (eh h).used ≡ true
    → e.used ≡ false
    → IsOwned (update eh h e) (for_each (eh h).npages (eh h).first (λ _. no_owner) owner) total
freed-IsOwned eh owner total h e v hh used off = record {
  small = v.small;
  end = λ k hk u. ground (arith, v.end k);
  owns = λ k p i. elim (ℕ_discrete h k) [
    | yes same ↦ absurd (ground (arith, i.used))
    | no ne ↦ let old = IsIn-update eh h k p e ne i in at p ∙ ground (arith, v.owns k p old, mine p)
  ];
  owned = λ p hp ne. elim (ℕ_discrete (after p) (owner p)) [
    | no changed ↦ absurd (ground (arith, at p))
    | yes same ↦
        let i = v.owned p hp (λ z. ne (same ∙ z)) in
        subst (λ k. IsIn (update eh h e) k p) (sym same)
          (update-IsIn eh h (owner p) p e (λ z. own_page p (subst (λ k. IsIn eh k p) (sym z) i) ne)
            i)
  ];
}
  where
    after : Array ℕ
    after = for_each (eh h).npages (eh h).first (λ _. no_owner) owner

    at :
        (p : ℕ)
        → after p ≡ (
            if leb (eh h).first p && ltb p ((eh h).first + (eh h).npages)
            then no_owner
            else owner p)
    at p = filled (eh h).npages (eh h).first no_owner owner p

    mine : (p : ℕ) → (eh h).first ≤ p → p < (eh h).first + (eh h).npages → owner p ≡ h
    mine p lo hi = v.owns h p (record { index = hh; used = used; from = lo; below = hi })

    own_page : (p : ℕ) → IsIn eh h p → after p ≢ no_owner → ⊥
    own_page p i ne = ne (at p ∙ ground (arith, i.from, i.below))

-- A run of free pages goes to a handle that is not in use.
pub placed-IsOwned :
    (eh : Array Ehandle) (owner : Array ℕ) (total h : ℕ) (e : Ehandle)
    → IsOwned eh owner total
    → h < handle_count
    → (eh h).used ≡ false
    → e.used ≡ true
    → e.first + e.npages ≤ total
    → AreFree owner e.first e.npages
    → IsOwned (update eh h e) (for_each e.npages e.first (λ _. u8 h) owner) total
placed-IsOwned eh owner total h e v hh unused on fits free = record {
  small = v.small;
  end = λ k hk u. ground (arith, v.end k);
  owns = λ k p i. elim (ℕ_discrete h k) [
    | yes same ↦ at p ∙ ground (arith, i.from, i.below, same)
    | no ne ↦
        let old = IsIn-update eh h k p e ne i in
        at p ∙ ground (arith, v.owns k p old, free p, old.index)
  ];
  owned = λ p hp ne. elim (ℕ_discrete (after p) (owner p)) [
    | no changed ↦
        let (e_h, lo, hi) = hit p changed in
        subst (λ k. IsIn (update eh h e) k p) (sym e_h)
          (record { index = hh; used = ground arith; from = ground arith; below = ground arith })
    | yes same ↦
        let i = v.owned p hp (λ z. ne (same ∙ z)) in
        subst (λ k. IsIn (update eh h e) k p) (sym same)
          (update-IsIn eh h (owner p) p e
            (λ z. off (subst (λ k. (eh k).used ≡ true) (sym z) i.used)) i)
  ];
}
  where
    after : Array ℕ
    after = for_each e.npages e.first (λ _. u8 h) owner

    off : (eh h).used ≡ true → ⊥
    off u = cc

    at : (p : ℕ) → after p ≡ (if leb e.first p && ltb p (e.first + e.npages) then h else owner p)
    at p = filled e.npages e.first (u8 h) owner p ∙ ground arith

    hit :
        (p : ℕ) → (after p ≡ owner p → ⊥) → (after p ≡ h) × (e.first ≤ p) × (p < e.first + e.npages)
    hit p changed = ground (arith, at p)

-- What is free again, and what is taken, in the count.
pub freed-count :
    (eh : Array Ehandle) (owner : Array ℕ) (total h : ℕ)
    → IsOwned eh owner total
    → h < handle_count
    → (eh h).used ≡ true
    → taken_pages owner total
      ≡ taken_pages (for_each (eh h).npages (eh h).first (λ _. no_owner) owner) total
        + (eh h).npages
freed-count eh owner total h v hh used =
    count_from_run (is_taken owner) (is_taken after) total 0 (eh h).first (eh h).npages
      (record {
        before = λ k lt. ground (arith, at k);
        here = λ k lo hi. ground (arith, mine k);
        there = λ k lo hi. ground (arith, at k);
        behind = λ k lt. ground (arith, at k);
      })
      (omega (arith, v.end h hh used))
    ∙ ground arith
  where
    after : Array ℕ
    after = for_each (eh h).npages (eh h).first (λ _. no_owner) owner

    at :
        (p : ℕ)
        → after p ≡ (
            if leb (eh h).first p && ltb p ((eh h).first + (eh h).npages)
            then no_owner
            else owner p)
    at p = filled (eh h).npages (eh h).first no_owner owner p

    mine : (p : ℕ) → (eh h).first ≤ p → p < (eh h).first + (eh h).npages → owner p ≡ h
    mine p lo hi = v.owns h p (record { index = hh; used = used; from = lo; below = hi })

pub placed-count :
    (owner : Array ℕ) (total h first npages : ℕ)
    → h < handle_count
    → first + npages ≤ total
    → AreFree owner first npages
    → taken_pages (for_each npages first (λ _. u8 h) owner) total ≡ taken_pages owner total + npages
placed-count owner total h first npages hh fits free =
    count_from_run (is_taken after) (is_taken owner) total 0 first npages
      (record {
        before = λ k lt. ground (arith, at k);
        here = λ k lo hi. ground (arith, at k);
        there = λ k lo hi. ground (arith, free k);
        behind = λ k lt. ground (arith, at k);
      })
      (omega arith)
    ∙ ground arith
  where
    after : Array ℕ
    after = for_each npages first (λ _. u8 h) owner

    at : (p : ℕ) → after p ≡ (if leb first p && ltb p (first + npages) then h else owner p)
    at p = filled npages first (u8 h) owner p ∙ ground arith
