-- ===== src/Fat/Answers.antt =====
-- src/kernel/fat.c: what a call of `fat_next` or `fat_set` does to the table.
use liberdos.Base.{
  ℕ, ◌%◌, ◌≤◌, ◌≡◌, inl, inr, refl, sym, ap, ◌∙◌, true, false, some, arith, Array, update,
  update_self, update_ne, if_true, if_false, ℕ_discrete, subst,
}
use liberdos.Fat.{Disk, Fat, selected}
use liberdos.Fat.Entries.{lba_16, lba_32, next_12, get_12, set_12, fat_next, fat_set}
use liberdos.Fat.Packing.{get_12-set, get_12-set_apart}
use liberdos.Fat.Cache.{IsDisk}
use liberdos.Fat.Table.{width_16, width_32, cached_next, cached_set, put_entry, Cached, put-Cached}
use liberdos.Fat.Steps.{cached_next-Answered, cached_set-Stored, cached_set-hit}
use liberdos.Fat.Volumes.{
  stored_of, IsInMemory, IsTable, wide, narrow, small, wide_fails, narrow_fails, CanSet, NextAnswer,
  SetAnswer, next_wide, set_wide, stored_wide, next_narrow, set_narrow, stored_narrow, next_small,
  set_small, stored_small,
}

module _ {S : Type 0} {disk : Disk S} (k : IsDisk disk) where
  -- The FAT of a FAT12 volume is in memory: an entry can always be set.
  set_small-CanSet :
      (x : Fat S) (t : Array ℕ) (cl : ℕ)
      → (selected x).fat32 ≡ false
      → (selected x).fat16 ≡ false
      → IsInMemory x t
      → cl ≤ (selected x).max_cluster
      → CanSet k x t cl
  set_small-CanSet x t cl e32 e16 c le val =
      let y : Fat S = record x { fatcache = set_12 x.fatcache cl val; fat12_dirty = true } in
      let r : IsInMemory y (update t cl (val % 4096)) = record {
        size = c.size;
        reads = λ cl' le'. elim (ℕ_discrete cl cl') [
          | yes same ↦
              ap (get_12 y.fatcache) (sym same)
              ∙ get_12-set x.fatcache cl val
              ∙ sym (update_self t cl (val % 4096))
              ∙ ap (update t cl (val % 4096)) same
          | no ne ↦
              get_12-set_apart x.fatcache cl cl' val (omega (arith, c.size, le))
                (omega (arith, c.size, le')) ne
              ∙ c.reads cl' le'
              ∙ sym (update_ne t cl cl' (val % 4096) ne)
        ];
      } in
      (
        subst (λ z. IsTable k z (update t cl (stored_of (selected x) val)))
            (sym (set_small k x e32 e16 cl val))
            (small e32 e16
              (subst (λ n. IsInMemory y (update t cl n)) (sym (stored_small k x e32 e16 val)) r)),
        ap selected (set_small k x e32 e16 cl val),
      )

  -- `fat_set` on a FAT that is the table `t`, at a cluster of the volume: the table has the value there,
  -- cut to the width of an entry, and no other entry changes. Only on FAT16 and FAT32 may all
  -- entries stay as they were instead, where the sector of the entry cannot be loaded, since a
  -- call of disk.c for the drive fails. FAT16 and FAT32 are on a hard disk here, where disk.c does
  -- what `IsDisk` says.
  pub fat_set-SetAnswer :
      (x : Fat S) (t : Array ℕ) (cl val : ℕ)
      → IsTable k x t
      → cl ≤ (selected x).max_cluster
      → SetAnswer k x t cl val (fat_set disk x cl val)
  fat_set-SetAnswer x t cl val (wide e32 c) le =
      let s = cached_set-Stored k width_32 x t cl val c le in
      let e : (selected (cached_set width_32 disk x cl val)).fat32 ≡ true =
        ap (λ m. m.fat32) s.same ∙ e32 in
      subst (SetAnswer k x t cl val) (sym (set_wide k x e32 cl val)) (record {
        same = s.same;
        table = elim s.table [
          | inl a ↦ inl (
              wide e (
                subst (λ n. Cached k width_32 (cached_set width_32 disk x cl val) (update t cl n))
                  (sym (stored_wide k x e32 val)) a))
          | inr (b, lost) ↦ inr (wide e b, wide_fails e32 lost)
        ];
      })
  fat_set-SetAnswer x t cl val (narrow e32 e16 c) le =
      let s = cached_set-Stored k width_16 x t cl val c le in
      let f : (selected (cached_set width_16 disk x cl val)).fat32 ≡ false =
        ap (λ m. m.fat32) s.same ∙ e32 in
      let e : (selected (cached_set width_16 disk x cl val)).fat16 ≡ true =
        ap (λ m. m.fat16) s.same ∙ e16 in
      subst (SetAnswer k x t cl val) (sym (set_narrow k x e32 e16 cl val)) (record {
        same = s.same;
        table = elim s.table [
          | inl a ↦ inl (
              narrow f e (
                subst (λ n. Cached k width_16 (cached_set width_16 disk x cl val) (update t cl n))
                  (sym (stored_narrow k x e32 e16 val)) a))
          | inr (b, lost) ↦ inr (narrow f e b, narrow_fails e32 e16 lost)
        ];
      })
  fat_set-SetAnswer x t cl val (small e32 e16 c) le =
      let s = set_small-CanSet x t cl e32 e16 c le val in record { same = s.1; table = inl s.0 }

  -- After a load the entry can be set in the cached sector.
  set_wide-CanSet :
      (x : Fat S) (t : Array ℕ) (cl : ℕ)
      → (selected x).fat32 ≡ true
      → Cached k width_32 x t
      → cl ≤ (selected x).max_cluster
      → x.f16vol ≡ some x.sel_drive
      → x.f16lba ≡ lba_32 (selected x) cl
      → CanSet k x t cl
  set_wide-CanSet x t cl e32 c le vol lba val =
      let e = set_wide k x e32 cl val ∙ cached_set-hit k width_32 x cl val vol lba in
      (
        subst (λ z. IsTable k z (update t cl (stored_of (selected x) val))) (sym e)
            (wide e32 (
              subst (λ n. Cached k width_32 (put_entry width_32 x cl val) (update t cl n))
                (sym (stored_wide k x e32 val)) (put-Cached k width_32 x t cl val c le vol lba))),
        ap selected e,
      )

  set_narrow-CanSet :
      (x : Fat S) (t : Array ℕ) (cl : ℕ)
      → (selected x).fat32 ≡ false
      → (selected x).fat16 ≡ true
      → Cached k width_16 x t
      → cl ≤ (selected x).max_cluster
      → x.f16vol ≡ some x.sel_drive
      → x.f16lba ≡ lba_16 (selected x) cl
      → CanSet k x t cl
  set_narrow-CanSet x t cl e32 e16 c le vol lba val =
      let e = set_narrow k x e32 e16 cl val ∙ cached_set-hit k width_16 x cl val vol lba in
      (
        subst (λ z. IsTable k z (update t cl (stored_of (selected x) val))) (sym e)
            (narrow e32 e16 (
              subst (λ n. Cached k width_16 (put_entry width_16 x cl val) (update t cl n))
                (sym (stored_narrow k x e32 e16 val))
                (put-Cached k width_16 x t cl val c le vol lba))),
        ap selected e,
      )

  -- `fat_next` on a FAT that is the table `t`, at a cluster of the volume: the table stays, and the
  -- answer is that of the entry, where the marks of an end, and on FAT12 and FAT16 that of a bad
  -- cluster, are 0xFFFFFFFF; after it, `fat_set` for the same cluster cannot fail. Only on FAT16 and
  -- FAT32 may it be 0xFFFFFFFF instead, where the sector of the entry cannot be loaded, since a call
  -- of disk.c for the drive fails. FAT16 and FAT32 are on a hard disk here, where disk.c does what
  -- `IsDisk` says.
  pub fat_next-NextAnswer :
      (x : Fat S) (t : Array ℕ) (cl : ℕ)
      → IsTable k x t
      → cl ≤ (selected x).max_cluster
      → NextAnswer k x t cl (fat_next disk x cl)
  fat_next-NextAnswer x t cl (wide e32 c) le =
      let s = cached_next-Answered k width_32 x t cl c le in
      let y : Fat S = (cached_next width_32 disk x cl).1 in
      let e : (selected y).fat32 ≡ true = ap (λ m. m.fat32) s.same ∙ e32 in
      let le' : cl ≤ (selected y).max_cluster = subst (λ m. cl ≤ m.max_cluster) (sym s.same) le in
      subst (NextAnswer k x t cl) (sym (next_wide k x e32 cl)) (record {
        table = wide e s.table;
        same = s.same;
        answer = elim s.answer [
          | inl (a, vol, lba) ↦
              inl (a ∙ sym (if_true _ _ e32), set_wide-CanSet y t cl e s.table le' vol lba)
          | inr (a, lost) ↦ inr (a, wide_fails e32 lost)
        ];
      })
  fat_next-NextAnswer x t cl (narrow e32 e16 c) le =
      let s = cached_next-Answered k width_16 x t cl c le in
      let y : Fat S = (cached_next width_16 disk x cl).1 in
      let f : (selected y).fat32 ≡ false = ap (λ m. m.fat32) s.same ∙ e32 in
      let e : (selected y).fat16 ≡ true = ap (λ m. m.fat16) s.same ∙ e16 in
      let le' : cl ≤ (selected y).max_cluster = subst (λ m. cl ≤ m.max_cluster) (sym s.same) le in
      subst (NextAnswer k x t cl) (sym (next_narrow k x e32 e16 cl)) (record {
        table = narrow f e s.table;
        same = s.same;
        answer = elim s.answer [
          | inl (a, vol, lba) ↦ inl (
            a ∙ sym (if_false _ _ e32 ∙ if_true _ _ e16),
            set_narrow-CanSet y t cl f e s.table le' vol lba,
          )
          | inr (a, lost) ↦ inr (a, narrow_fails e32 e16 lost)
        ];
      })
  fat_next-NextAnswer x t cl (small e32 e16 c) le =
      subst (NextAnswer k x t cl) (sym (next_small k x e32 e16 cl)) (record {
        table = small e32 e16 c;
        same = refl;
        answer = inl (
          ap next_12 (c.reads cl le) ∙ sym (if_false _ _ e32 ∙ if_false _ _ e16),
          set_small-CanSet x t cl e32 e16 c le,
        );
      })
