-- ===== src/Fat/Steps.antt =====
-- src/kernel/fat.c: `fat_next` and `fat_set` on a FAT16 or FAT32 volume.
use liberdos.Base.{
  ℕ, ◌≤◌, ◌≡◌, ◌⊎◌, inl, inr, refl, sym, ap, ◌∙◌, Bool, true, false, ◌&&◌, some, arith, Array,
  update, ◌==◌, if◌then◌else◌, subst,
}
use liberdos.Fat.{Disk, Fat, clus_eoc, selected, is_volume, f16_load}
use liberdos.Fat.Cache.{IsDisk, Fault}
use liberdos.Fat.View.{view_hit}
use liberdos.Fat.Loads.{Loaded, load-Loaded}
use liberdos.Fat.Table.{
  Width, cached_next, put_entry, cached_set, Cached, own, Keeps-Cached, put-Cached,
}

module _ {S : Type 0} {disk : Disk S} (k : IsDisk disk) (w : Width) where
  -- The sector of the entry cannot be loaded, since a call for the drive fails.
  pub record IsLost (x : Fat S) (cl : ℕ) : Type 0 where
    pub load : (f16_load disk x (w.lba_of (selected x) cl)).0 ≡ false
    pub fault : Fault disk (selected x).bios_drive

  -- `fat_next` and `fat_set` for the width, once the sector is loaded or the load has failed.
  pub record Answered (x : Fat S) (t : Array ℕ) (cl : ℕ) (r : ℕ × Fat S) : Type 0 where
    pub table : Cached k w r.1 t
    pub same : selected r.1 ≡ selected x
    pub answer :
        ((r.0 ≡ w.answer (t cl))
          × (r.1.f16vol ≡ some r.1.sel_drive)
          × (r.1.f16lba ≡ w.lba_of (selected r.1) cl))
        ⊎ ((r.0 ≡ clus_eoc) × IsLost x cl)

  next_done :
      (x : Fat S) (t : Array ℕ) (cl : ℕ) (ok : Bool) (y : Fat S)
      → Cached k w x t
      → cl ≤ (selected x).max_cluster
      → Loaded k x (w.lba_of (selected x) cl) (ok, y)
      → (f16_load disk x (w.lba_of (selected x) cl)).0 ≡ ok
      → Answered x t cl (if ok then w.answer (w.get y.f16buf cl) else clus_eoc, y)
  next_done x t cl false y c le l e = record {
    table = Keeps-Cached k w x y t l.keeps c;
    same = own k w x y l.keeps;
    answer = inr (refl, record { load = e; fault = l.fails refl });
  }
  next_done x t cl true y c le l e =
      let (vol, lba) = l.here refl in
      let at : y.f16lba ≡ w.lba_of (selected y) cl =
        lba ∙ ap (λ m. w.lba_of m cl) (sym (own k w x y l.keeps)) in
      let d = Keeps-Cached k w x y t l.keeps c in
      let le' : cl ≤ (selected y).max_cluster =
        subst (λ m. cl ≤ m.max_cluster) (sym (own k w x y l.keeps)) le in
      record {
        table = d;
        same = own k w x y l.keeps;
        answer = inl (
          ap w.answer (
              d.width.local y.f16buf _ cl (λ i hi. sym (view_hit k y _ i vol at)) ∙ d.reads cl le'),
          vol,
          at,
        );
      }

  pub cached_next-Answered :
      (x : Fat S) (t : Array ℕ) (cl : ℕ)
      → Cached k w x t
      → cl ≤ (selected x).max_cluster
      → Answered x t cl (cached_next w disk x cl)
  cached_next-Answered x t cl c le =
      next_done x t cl _ _ c le
        (load-Loaded k x (w.lba_of (selected x) cl) c.coherent (c.width.inside cl le)) refl

  pub record Stored (x : Fat S) (t : Array ℕ) (cl val : ℕ) (y : Fat S) : Type 0 where
    pub same : selected y ≡ selected x
    pub table : Cached k w y (update t cl (w.stored val)) ⊎ (Cached k w y t × IsLost x cl)

  set_done :
      (x : Fat S) (t : Array ℕ) (cl val : ℕ) (ok : Bool) (y : Fat S)
      → Cached k w x t
      → cl ≤ (selected x).max_cluster
      → Loaded k x (w.lba_of (selected x) cl) (ok, y)
      → (f16_load disk x (w.lba_of (selected x) cl)).0 ≡ ok
      → Stored x t cl val (if ok then put_entry w y cl val else y)
  set_done x t cl val false y c le l e = record {
    same = own k w x y l.keeps;
    table = inr (Keeps-Cached k w x y t l.keeps c, record { load = e; fault = l.fails refl });
  }
  set_done x t cl val true y c le l e =
      let (vol, lba) = l.here refl in
      let at : y.f16lba ≡ w.lba_of (selected y) cl =
        lba ∙ ap (λ m. w.lba_of m cl) (sym (own k w x y l.keeps)) in
      let le' : cl ≤ (selected y).max_cluster =
        subst (λ m. cl ≤ m.max_cluster) (sym (own k w x y l.keeps)) le in
      record {
        same = own k w x y l.keeps;
        table = inl (put-Cached k w y t cl val (Keeps-Cached k w x y t l.keeps c) le' vol at);
      }

  pub cached_set-Stored :
      (x : Fat S) (t : Array ℕ) (cl val : ℕ)
      → Cached k w x t
      → cl ≤ (selected x).max_cluster
      → Stored x t cl val (cached_set w disk x cl val)
  cached_set-Stored x t cl val c le =
      set_done x t cl val _ _ c le
        (load-Loaded k x (w.lba_of (selected x) cl) c.coherent (c.width.inside cl le)) refl

  -- A sector that is in the cache is set at once.
  pub cached_set-hit :
      (x : Fat S) (cl val : ℕ)
      → x.f16vol ≡ some x.sel_drive
      → x.f16lba ≡ w.lba_of (selected x) cl
      → cached_set w disk x cl val ≡ put_entry w x cl val
  unfolding f16_load
  cached_set-hit x cl val vol lba =
      ap (λ (l : Bool × Fat S). if l.0 then put_entry w l.1 cl val else l.1) (if_true _ _ _ guard)
    where
      if_true : {A : Type 0} (b : Bool) (p q : A) → b ≡ true → (if b then p else q) ≡ p
      if_true b p q e = rw e refl

      guard : is_volume x.f16vol x.sel_drive && x.f16lba == w.lba_of (selected x) cl ≡ true
      guard =
          ap (λ o. is_volume o x.sel_drive && x.f16lba == w.lba_of (selected x) cl) vol
          ∙ ground (arith, lba)
