-- ===== src/Fat/Table.antt =====
-- src/kernel/fat.c: FAT16 and FAT32, which go through the sector cache in the same way: the FAT as a
-- table of entries, one for each cluster.
use liberdos.Base.{
  ℕ, ◌+◌, ◌*◌, ◌/◌, ◌%◌, ◌^◌, ◌≤◌, ◌<◌, ◌≡◌, ◌≢◌, sym, ap, ◌∙◌, true, some, arith, Array, update,
  update_self, update_ne, if◌then◌else◌, ℕ_discrete, subst,
}
use liberdos.Fat.{Disk, Volume, Fat, clus_eoc, selected, vol_fatsz, f16_load}
use liberdos.Fat.Entries.{lba_32, lba_16, get_32, get_16, set_32, set_16, next_32, next_16}
use liberdos.Fat.Packing.{get_32-set, get_32-set_apart, get_16-set, get_16-set_apart}
use liberdos.Fat.Cache.{IsDisk, InFat, HasFats, differ}
use liberdos.Fat.View.{view, IsCoherent, Keeps, view_hit, view_miss}

-- How a width of the FAT keeps its entries.
pub record Width : Type 0 where
  pub lba_of : Volume → ℕ → ℕ
  pub get : Array ℕ → ℕ → ℕ
  pub set : Array ℕ → ℕ → ℕ → Array ℕ
  pub answer : ℕ → ℕ
  pub stored : ℕ → ℕ

abbrev pub width_32 : Width
width_32 = record {
  lba_of = lba_32;
  get = get_32;
  set = set_32;
  answer = next_32;
  stored = λ val. val % 2 ^ 28;
}

abbrev pub width_16 : Width
width_16 = record {
  lba_of = lba_16;
  get = get_16;
  set = set_16;
  answer = next_16;
  stored = λ val. val % 2 ^ 16;
}

-- The branches of `fat_next` and `fat_set` for a width.
abbrev pub cached_next : {S : Type 0} → Width → Disk S → Fat S → ℕ → ℕ × Fat S
cached_next w disk x cl =
    let l = f16_load disk x (w.lba_of (selected x) cl) in
    (if l.0 then w.answer (w.get l.1.f16buf cl) else clus_eoc, l.1)

abbrev pub put_entry : {S : Type 0} → Width → Fat S → ℕ → ℕ → Fat S
put_entry w x cl val = record x { f16buf = w.set x.f16buf cl val; f16dirty = true }

abbrev pub cached_set : {S : Type 0} → Width → Disk S → Fat S → ℕ → ℕ → Fat S
cached_set w disk x cl val =
    let l = f16_load disk x (w.lba_of (selected x) cl) in
    if l.0 then put_entry w l.1 cl val else l.1

-- A width fits a volume: every cluster has an entry in the FAT, which is its own.
pub record IsWidth (w : Width) (m : Volume) : Type 0 where
  pub inside : (cl : ℕ) → cl ≤ m.max_cluster → InFat m (w.lba_of m cl)
  pub local : (a b : Array ℕ) (cl : ℕ) → ((i : ℕ) → i < 512 → a i ≡ b i) → w.get a cl ≡ w.get b cl
  pub get-set : (b : Array ℕ) (cl val : ℕ) → w.get (w.set b cl val) cl ≡ w.stored val
  pub apart :
      (b : Array ℕ) (cl cl' val : ℕ)
      → cl ≤ m.max_cluster
      → cl' ≤ m.max_cluster
      → cl ≢ cl'
      → w.lba_of m cl ≡ w.lba_of m cl'
      → w.get (w.set b cl val) cl' ≡ w.get b cl'

pub width_32-IsWidth :
    (m : Volume) → HasFats m → m.max_cluster / 128 < vol_fatsz m → IsWidth width_32 m
width_32-IsWidth m h room = record {
  inside = λ cl le. omega (arith, h.copies 0 h.some_fat);
  local = λ a b cl e.
      let p : ℕ = cl % 128 * 4 in
      omega (
        arith,
        e p (omega arith),
        e (p + 1) (omega arith),
        e (p + 2) (omega arith),
        e (p + 2 + 1) (omega arith),
      );
  get-set = get_32-set;
  apart = λ b cl cl' val le le' ne same.
      get_32-set_apart b cl cl' val (λ e. ne (omega (arith, e, same, h.copies 0 h.some_fat)));
}

pub width_16-IsWidth :
    (m : Volume) → HasFats m → m.max_cluster / 256 < vol_fatsz m → IsWidth width_16 m
width_16-IsWidth m h room = record {
  inside = λ cl le. omega (arith, h.copies 0 h.some_fat);
  local = λ a b cl e.
      let p : ℕ = cl % 256 * 2 in omega (arith, e p (omega arith), e (p + 1) (omega arith));
  get-set = get_16-set;
  apart = λ b cl cl' val le le' ne same.
      get_16-set_apart b cl cl' val (λ e. ne (omega (arith, e, same, h.copies 0 h.some_fat)));
}

module _ {S : Type 0} {disk : Disk S} (k : IsDisk disk) (w : Width) where
  abbrev pub entry : Fat S → ℕ → ℕ
  entry x cl = w.get (view k x (w.lba_of (selected x) cl)) cl

  -- The FAT of the selected volume is the table `t`.
  pub record Cached (x : Fat S) (t : Array ℕ) : Type 0 where
    pub coherent : IsCoherent k x
    pub width : IsWidth w (selected x)
    pub reads : (cl : ℕ) → cl ≤ (selected x).max_cluster → entry x cl ≡ t cl

  pub own : (x y : Fat S) → Keeps k x y → selected y ≡ selected x
  own x y s = λ j. s.vols j (s.sel j)

  pub Keeps-Cached : (x y : Fat S) (t : Array ℕ) → Keeps k x y → Cached x t → Cached y t
  Keeps-Cached x y t s c = record {
    coherent = s.coherent;
    width = subst (IsWidth w) (sym (own x y s)) c.width;
    reads = λ cl le.
        let le' : cl ≤ (selected x).max_cluster = subst (λ m. cl ≤ m.max_cluster) (own x y s) le in
        ap (λ m. w.get (view k y (w.lba_of m cl)) cl) (own x y s)
        ∙ c.width.local _ _ cl
            (λ i hi. s.same (w.lba_of (selected x) cl) i (c.width.inside cl le') hi)
        ∙ c.reads cl le';
  }

  -- An entry is set in the cached sector.
  pub put-Cached :
      (x : Fat S) (t : Array ℕ) (cl val : ℕ)
      → Cached x t
      → cl ≤ (selected x).max_cluster
      → x.f16vol ≡ some x.sel_drive
      → x.f16lba ≡ w.lba_of (selected x) cl
      → Cached (put_entry w x cl val) (update t cl (w.stored val))
  put-Cached x t cl val c le vol lba = record {
    coherent = record {
      fats = c.coherent.fats;
      cached = c.coherent.cached;
      clean = λ f. absurd (differ (sym f));
    };
    width = c.width;
    reads = λ cl' le'. elim (ℕ_discrete cl cl') [
      | yes same ↦
          ap (entry y) (sym same)
          ∙ set_here
          ∙ sym (update_self t cl (w.stored val))
          ∙ ap (update t cl (w.stored val)) same
      | no ne ↦ others cl' le' ne ∙ c.reads cl' le' ∙ sym (update_ne t cl cl' (w.stored val) ne)
    ];
  }
    where
      y : Fat S
      y = put_entry w x cl val

      at : ℕ → ℕ
      at n = w.lba_of (selected x) n

      set_here : entry y cl ≡ w.stored val
      set_here =
          c.width.local _ (w.set x.f16buf cl val) cl (λ i hi. view_hit k y (at cl) i vol lba)
          ∙ c.width.get-set x.f16buf cl val

      others : (cl' : ℕ) → cl' ≤ (selected x).max_cluster → cl ≢ cl' → entry y cl' ≡ entry x cl'
      others cl' le' ne = elim (ℕ_discrete (at cl) (at cl')) [
        | yes l ↦
            c.width.local _ (w.set x.f16buf cl val) cl'
              (λ i hi. view_hit k y (at cl') i vol (lba ∙ l))
            ∙ c.width.apart x.f16buf cl cl' val le le' ne l
            ∙ c.width.local x.f16buf _ cl' (λ i hi. sym (view_hit k x (at cl') i vol (lba ∙ l)))
        | no d ↦
            let away : x.f16lba ≢ at cl' = λ e. d (sym lba ∙ e) in
            c.width.local _ _ cl'
              (λ i hi. view_miss k y (at cl') i away ∙ sym (view_miss k x (at cl') i away))
      ]
