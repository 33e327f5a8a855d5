-- ===== src/Fat/View.antt =====
-- src/kernel/fat.c: the first copy of the FAT as the sector cache and the disk hold it together, and
-- `f16_flush` and `f16_load` on it.
use liberdos.Base.{
  ℕ, ◌<◌, ◌≡◌, ◌≢◌, inl, inr, refl, sym, ap, ◌∙◌, Bool, true, false, ◌&&◌, Option, none, some,
  arith, Array, ◌==◌, ==_refl, ne→==, if◌then◌else◌, ℕ_discrete, Bool-cases, Option-cases, subst,
}
use liberdos.Fat.{Disk, Fat, selected, is_volume, flush_to, f16_flush}
use liberdos.Fat.Cache.{
  IsDisk, InFat, HasFats, Fault, differ, flush_others, flush_stores, flush-Fault,
}

module _ {S : Type 0} {disk : Disk S} (k : IsDisk disk) where
  -- A sector on the drive of the selected volume, and through the cache.
  abbrev pub on_disk : Fat S → ℕ → Array ℕ
  on_disk x lba = k.content x.disks (selected x).bios_drive lba

  abbrev pub view : Fat S → ℕ → Array ℕ
  view x lba = if is_volume x.f16vol x.sel_drive && x.f16lba == lba then x.f16buf else on_disk x lba

  -- The cached sector is on the disk as well.
  abbrev pub IsSettled : Fat S → Type 0
  IsSettled x = x.f16vol ≡ some x.sel_drive → (i : ℕ) → i < 512 → x.f16buf i ≡ on_disk x x.f16lba i

  -- The cache is empty or has a sector of the FAT of the selected volume, and one that is not on the
  -- disk is marked.
  pub record IsCoherent (x : Fat S) : Type 0 where
    pub fats : HasFats (selected x)
    pub cached : (w : ℕ) → x.f16vol ≡ some w → (w ≡ x.sel_drive) × InFat (selected x) x.f16lba
    pub clean : x.f16dirty ≡ false → IsSettled x

  -- A step of the cache: the volumes are the same, and so is each sector of the FAT.
  pub record Keeps (x y : Fat S) : Type 0 where
    pub vols : y.vols ≡ x.vols
    pub sel : y.sel_drive ≡ x.sel_drive
    pub cache_12 : y.fatcache ≡ x.fatcache
    pub coherent : IsCoherent y
    pub same : (lba i : ℕ) → InFat (selected x) lba → i < 512 → view y lba i ≡ view x lba i

  -- The two cases of the view.
  pub view_hit :
      (x : Fat S) (lba i : ℕ)
      → x.f16vol ≡ some x.sel_drive
      → x.f16lba ≡ lba
      → view x lba i ≡ x.f16buf i
  view_hit x lba i e l = rw (e, l, ==_refl x.sel_drive, ==_refl lba) refl

  pub view_empty : (x : Fat S) (lba i : ℕ) → x.f16vol ≡ none → view x lba i ≡ on_disk x lba i
  view_empty x lba i e = rw e refl

  pub view_miss : (x : Fat S) (lba i : ℕ) → x.f16lba ≢ lba → view x lba i ≡ on_disk x lba i
  view_miss x lba i ne = elim (Bool-cases (is_volume x.f16vol x.sel_drive)) [
    | inl t ↦ rw (t, ne→== x.f16lba lba ne) refl
    | inr f ↦ rw f refl
  ]

  pub settled_view :
      (x : Fat S) (lba i : ℕ)
      → IsCoherent x
      → IsSettled x
      → i < 512
      → view x lba i ≡ on_disk x lba i
  settled_view x lba i v s hi = elim (Option-cases x.f16vol) [
    | inl e ↦ view_empty x lba i e
    | inr (w, e) ↦ elim (ℕ_discrete x.f16lba lba) [
      | no ne ↦ view_miss x lba i ne
      | yes l ↦
          let here : x.f16vol ≡ some x.sel_drive = e ∙ ap some (v.cached w e).0 in
          view_hit x lba i here l ∙ s here i hi ∙ ap (λ n. on_disk x n i) l
    ]
  ]

  -- What a flush leaves: no sector of the FAT changes, and after a success the disk has them all.
  pub record Flushed (x : Fat S) (r : Bool × Fat S) : Type 0 where
    pub keeps : Keeps x r.1
    pub settled : r.0 ≡ true → IsSettled r.1
    pub vol : r.1.f16vol ≡ x.f16vol
    pub lba : r.1.f16lba ≡ x.f16lba
    pub fails : r.0 ≡ false → Fault disk (selected x).bios_drive

  pub Keeps-refl : (x : Fat S) → IsCoherent x → Keeps x x
  Keeps-refl x v = record {
    vols = refl;
    sel = refl;
    cache_12 = refl;
    coherent = v;
    same = λ lba i g hi. refl;
  }

  -- The end of a flush: the copies are written, or a write failed.
  flush_done :
      (x : Fat S) (ok : Bool) (s : S)
      → IsCoherent x
      → x.f16dirty ≡ true
      → x.f16vol ≡ some x.sel_drive
      → ((lba i : ℕ)
          → InFat (selected x) lba
          → x.f16lba ≢ lba
          → k.content s (selected x).bios_drive lba i ≡ on_disk x lba i)
      → (ok ≡ true
          → (i : ℕ) → i < 512
          → k.content s (selected x).bios_drive x.f16lba i ≡ x.f16buf i)
      → (ok ≡ false → Fault disk (selected x).bios_drive)
      → Flushed x (
          if ok
          then (true, record x { disks = s; f16dirty = false })
          else (false, record x { disks = s }))
  flush_done x ok s v t e others stores fails = go ok refl
    where
      moved : Fat S
      moved = record x { disks = s }

      same : (lba i : ℕ) → InFat (selected x) lba → i < 512 → view moved lba i ≡ view x lba i
      same lba i g hi = elim (ℕ_discrete x.f16lba lba) [
        | yes l ↦ view_hit moved lba i e l ∙ sym (view_hit x lba i e l)
        | no ne ↦ view_miss moved lba i ne ∙ others lba i g ne ∙ sym (view_miss x lba i ne)
      ]

      go :
          (b : Bool)
          → b ≡ ok
          → Flushed x (
              if b
              then (true, record x { disks = s; f16dirty = false })
              else (false, record x { disks = s }))
      go true h = record {
        keeps = record {
          vols = refl;
          sel = refl;
          cache_12 = refl;
          coherent = record {
            fats = v.fats;
            cached = v.cached;
            clean = λ _ _ i hi. sym (stores (sym h) i hi);
          };
          same = same;
        };
        settled = λ _ _ i hi. sym (stores (sym h) i hi);
        vol = refl;
        lba = refl;
        fails = λ f. absurd (differ (sym f));
      }
      go false h = record {
        keeps = record {
          vols = refl;
          sel = refl;
          cache_12 = refl;
          coherent = record {
            fats = v.fats;
            cached = v.cached;
            clean = λ f. absurd (differ (sym f ∙ t));
          };
          same = same;
        };
        settled = λ f. absurd (differ f);
        vol = refl;
        lba = refl;
        fails = λ _. fails (sym h);
      }

  flush_own :
      (x : Fat S)
      → IsCoherent x
      → x.f16dirty ≡ true
      → x.f16vol ≡ some x.sel_drive
      → Flushed x (flush_to disk x (some x.sel_drive))
  unfolding flush_to
  flush_own x v t e =
      let m = selected x in
      let g = (v.cached x.sel_drive e).1 in
      flush_done x _ _ v t e
        (λ lba i g' ne.
          flush_others disk k m v.fats x.f16lba g x.f16buf m.num_fats x.disks (omega arith) lba i g'
            ne)
        (flush_stores disk k m v.fats x.f16lba g x.f16buf m.num_fats x.disks v.fats.some_fat
          (omega arith))
        (flush-Fault disk m x.f16lba x.f16buf m.num_fats 0 x.disks)

  flush_to-Flushed :
      (x : Fat S) (o : Option ℕ)
      → IsCoherent x
      → x.f16dirty ≡ true
      → x.f16vol ≡ o
      → Flushed x (flush_to disk x o)
  unfolding flush_to
  flush_to-Flushed x none v t e = record {
    keeps = Keeps-refl x v;
    settled = λ _ q. absurd (none_ne (sym e ∙ q));
    vol = refl;
    lba = refl;
    fails = λ f. absurd (differ (sym f));
  }
    where
      none_ne : {w : ℕ} → none ≡ some w → ⊥
      none_ne q = cc
  flush_to-Flushed x (some w) v t e =
      let same = (v.cached w e).0 in
      subst (λ u. Flushed x (flush_to disk x (some u))) (sym same)
        (flush_own x v t (e ∙ ap some same))

  pub flush-Flushed : (x : Fat S) → IsCoherent x → Flushed x (f16_flush disk x)
  unfolding f16_flush
  flush-Flushed x v = go x.f16dirty refl
    where
      go :
          (b : Bool)
          → x.f16dirty ≡ b
          → Flushed x (if b then flush_to disk x x.f16vol else (true, x))
      go true t = flush_to-Flushed x x.f16vol v t refl
      go false f = record {
        keeps = Keeps-refl x v;
        settled = λ _. v.clean f;
        vol = refl;
        lba = refl;
        fails = λ b. absurd (differ (sym b));
      }

  pub Keeps-trans : (x y z : Fat S) → Keeps x y → Keeps y z → Keeps x z
  Keeps-trans x y z a b = record {
    vols = b.vols ∙ a.vols;
    sel = b.sel ∙ a.sel;
    cache_12 = b.cache_12 ∙ a.cache_12;
    coherent = b.coherent;
    same = λ lba i g hi.
        let own : selected y ≡ selected x = (λ j. a.vols j (a.sel j)) in
        b.same lba i (subst (λ m. InFat m lba) (sym own) g) hi ∙ a.same lba i g hi;
  }
