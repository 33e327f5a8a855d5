-- ===== src/Fat/Loads.antt =====
-- src/kernel/fat.c: `f16_load` brings a sector of the FAT into the cache.
use liberdos.Base.{
  ℕ, ◌<◌, ◌≡◌, refl, sym, ap, ◌∙◌, Bool, true, false, ◌&&◌, Option, none, some, arith, Array, ◌==◌,
  if◌then◌else◌, ℕ_discrete, some→eq, subst,
}
use liberdos.Fat.{Disk, Volume, Fat, selected, is_volume, f16_fill, f16_load}
use liberdos.Fat.Cache.{IsDisk, InFat, Fault, no_read, differ}
use liberdos.Fat.View.{
  on_disk, IsSettled, IsCoherent, Keeps, Keeps-refl, Keeps-trans, view_hit, view_empty, view_miss,
  settled_view, Flushed, flush-Flushed,
}

module _ {S : Type 0} {disk : Disk S} (k : IsDisk disk) where
  -- What a load leaves: after a success the sector is in the cache.
  pub record Loaded (x : Fat S) (lba : ℕ) (r : Bool × Fat S) : Type 0 where
    pub keeps : Keeps k x r.1
    pub here : r.0 ≡ true → (r.1.f16vol ≡ some r.1.sel_drive) × (r.1.f16lba ≡ lba)
    pub fails : r.0 ≡ false → Fault disk (selected x).bios_drive

  -- The end of a read into the cache.
  fill_done :
      (x : Fat S) (lba : ℕ) (ok : Bool) (buf : Array ℕ) (s : S)
      → IsCoherent k x
      → IsSettled k x
      → InFat (selected x) lba
      → (ok ≡ true → (i : ℕ) → i < 512 → buf i ≡ on_disk k x lba i)
      → ((lba' i : ℕ) → k.content s (selected x).bios_drive lba' i ≡ on_disk k x lba' i)
      → (ok ≡ false → Fault disk (selected x).bios_drive)
      → Loaded x lba (
          if ok
          then (true, record x { f16buf = buf; disks = s; f16vol = some x.sel_drive; f16lba = lba })
          else (false, record x { f16buf = buf; disks = s; f16vol = none }))
  fill_done x lba true buf s v t g read kept fault =
      let y : Fat S = record x {
        f16buf = buf;
        disks = s;
        f16vol = some x.sel_drive;
        f16lba = lba;
      } in
      record {
        keeps = record {
          vols = refl;
          sel = refl;
          cache_12 = refl;
          coherent = record {
            fats = v.fats;
            cached = λ w e. (sym (some→eq _ _ e), g);
            clean = λ _ _ i hi. read refl i hi ∙ sym (kept lba i);
          };
          same = λ lba' i g' hi. elim (ℕ_discrete lba lba') [
            | yes l ↦
                view_hit k y lba' i refl l
                ∙ read refl i hi
                ∙ ap (λ n. on_disk k x n i) l
                ∙ sym (settled_view k x lba' i v t hi)
            | no ne ↦ view_miss k y lba' i ne ∙ kept lba' i ∙ sym (settled_view k x lba' i v t hi)
          ];
        };
        here = λ _. (refl, refl);
        fails = λ e. absurd (differ (sym e));
      }
  fill_done x lba false buf s v t g read kept fault =
      let y : Fat S = record x { f16buf = buf; disks = s; f16vol = none } in
      record {
        keeps = record {
          vols = refl;
          sel = refl;
          cache_12 = refl;
          coherent = record {
            fats = v.fats;
            cached = λ w e. absurd (none_ne e);
            clean = λ _ e. absurd (none_ne e);
          };
          same = λ lba' i g' hi.
              view_empty k y lba' i refl ∙ kept lba' i ∙ sym (settled_view k x lba' i v t hi);
        };
        here = λ e. absurd (differ e);
        fails = λ _. fault refl;
      }
    where
      none_ne : {w : ℕ} → none ≡ some w → ⊥
      none_ne q = cc

  fill-Loaded :
      (x : Fat S) (lba : ℕ)
      → IsCoherent k x
      → IsSettled k x
      → InFat (selected x) lba
      → Loaded x lba (f16_fill disk x lba)
  unfolding f16_fill
  fill-Loaded x lba v t g =
      let drive : ℕ = (selected x).bios_drive in
      fill_done x lba _ _ _ v t g (λ e i hi. k.reads drive lba x.f16buf x.disks i v.fats.hard hi e)
        (k.keeps drive lba x.f16buf x.disks drive) (no_read lba x.f16buf x.disks)

  -- The three ways through a load.
  load_done :
      (x : Fat S) (lba : ℕ) (hit ok : Bool) (y : Fat S)
      → IsCoherent k x
      → InFat (selected x) lba
      → Flushed k x (ok, y)
      → (hit ≡ true → (x.f16vol ≡ some x.sel_drive) × (x.f16lba ≡ lba))
      → Loaded x lba (if hit then (true, x) else if ok then f16_fill disk y lba else (ok, y))
  load_done x lba true ok y v g f here = record {
    keeps = Keeps-refl k x v;
    here = here;
    fails = λ e. absurd (differ (sym e));
  }
  load_done x lba false false y v g f here = record {
    keeps = f.keeps;
    here = λ e. absurd (differ e);
    fails = f.fails;
  }
  load_done x lba false true y v g f here =
      let own : selected y ≡ selected x = (λ j. f.keeps.vols j (f.keeps.sel j)) in
      let r =
        fill-Loaded y lba f.keeps.coherent (f.settled refl)
          (subst (λ m. InFat m lba) (sym own) g) in
      record {
        keeps = Keeps-trans k x y _ f.keeps r.keeps;
        here = r.here;
        fails = λ e. subst (λ (m : Volume). Fault disk m.bios_drive) own (r.fails e);
      }

  pub load-Loaded :
      (x : Fat S) (lba : ℕ)
      → IsCoherent k x
      → InFat (selected x) lba
      → Loaded x lba (f16_load disk x lba)
  unfolding f16_load
  load-Loaded x lba v g = load_done x lba _ _ _ v g (flush-Flushed k x v) hit
    where
      hit_of :
          (o : Option ℕ)
          → is_volume o x.sel_drive && x.f16lba == lba ≡ true
          → (o ≡ some x.sel_drive) × (x.f16lba ≡ lba)
      hit_of none e = absurd (differ e)
      hit_of (some w) e = ground arith

      hit :
          is_volume x.f16vol x.sel_drive && x.f16lba == lba ≡ true
          → (x.f16vol ≡ some x.sel_drive) × (x.f16lba ≡ lba)
      hit = hit_of x.f16vol
