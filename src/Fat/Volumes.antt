-- ===== src/Fat/Volumes.antt =====
-- src/kernel/fat.c: `fat_next` and `fat_set` on the selected volume, FAT12, FAT16 or FAT32: the FAT is
-- a table of entries.
use liberdos.Base.{
  ℕ, ◌%◌, ◌^◌, ◌≤◌, ◌<◌, ◌≡◌, ◌⊎◌, ◌∙◌, true, false, Array, update, if◌then◌else◌, if_true,
  if_false,
}
use liberdos.Fat.{Disk, Volume, Fat, clus_eoc, selected}
use liberdos.Fat.Entries.{next_12, next_16, next_32, get_12, set_12, fat_next, fat_set}
use liberdos.Fat.Cache.{IsDisk}
use liberdos.Fat.Table.{width_16, width_32, cached_next, cached_set, Cached}
use liberdos.Fat.Steps.{IsLost}

-- What `fat_next` answers for an entry, and what `fat_set` leaves of a value in one.
abbrev pub answer_of : Volume → ℕ → ℕ
answer_of m e = if m.fat32 then next_32 e else if m.fat16 then next_16 e else next_12 e

abbrev pub stored_of : Volume → ℕ → ℕ
stored_of m val = if m.fat32 then val % 2 ^ 28 else if m.fat16 then val % 2 ^ 16 else val % 4096

-- The FAT of a FAT12 volume is the table `t`.
pub record IsInMemory {S : Type 0} (x : Fat S) (t : Array ℕ) : Type 0 where
  pub size : (selected x).max_cluster < 40000
  pub reads : (cl : ℕ) → cl ≤ (selected x).max_cluster → get_12 x.fatcache cl ≡ t cl

module _ {S : Type 0} {disk : Disk S} (k : IsDisk disk) where
  -- The FAT of the selected volume is the table `t`, through whatever cache it goes.
  pub data IsTable (x : Fat S) (t : Array ℕ) : Type 0 where
    wide : (selected x).fat32 ≡ true → Cached k width_32 x t → IsTable x t
    narrow :
        (selected x).fat32 ≡ false → (selected x).fat16 ≡ true → Cached k width_16 x t → IsTable x t
    small : (selected x).fat32 ≡ false → (selected x).fat16 ≡ false → IsInMemory x t → IsTable x t

  -- The entry of the cluster goes through the sector cache, and its sector cannot be loaded, since a
  -- call for the drive fails. Not so on FAT12, which is in memory.
  pub data Fails (x : Fat S) (cl : ℕ) : Type 0 where
    wide_fails : (selected x).fat32 ≡ true → IsLost k width_32 x cl → Fails x cl
    narrow_fails :
        (selected x).fat32 ≡ false → (selected x).fat16 ≡ true → IsLost k width_16 x cl → Fails x cl

  -- It fails so in some state where the volume and its table are these.
  pub record CanFail (m : Volume) (t : Array ℕ) (cl : ℕ) : Type 0 where
    pub state : Fat S
    pub table : IsTable state t
    pub same : selected state ≡ m
    pub fails : Fails state cl

  -- A state in which an entry can be set without fail.
  abbrev pub CanSet : Fat S → Array ℕ → ℕ → Type 0
  CanSet x t cl =
      (val : ℕ)
      → IsTable (fat_set disk x cl val) (update t cl (stored_of (selected x) val))
        × (selected (fat_set disk x cl val) ≡ selected x)

  -- `fat_next` leaves the table as it is. It answers by the entry, and the entry can be set then, or
  -- with the end of the chain where the disk fails.
  pub record NextAnswer (x : Fat S) (t : Array ℕ) (cl : ℕ) (r : ℕ × Fat S) : Type 0 where
    pub table : IsTable r.1 t
    pub same : selected r.1 ≡ selected x
    pub answer :
        ((r.0 ≡ answer_of (selected x) (t cl)) × CanSet r.1 t cl) ⊎ ((r.0 ≡ clus_eoc) × Fails x cl)

  -- `fat_set` sets the entry and no other one, or leaves all of them where the disk fails.
  pub record SetAnswer (x : Fat S) (t : Array ℕ) (cl val : ℕ) (y : Fat S) : Type 0 where
    pub same : selected y ≡ selected x
    pub table : IsTable y (update t cl (stored_of (selected x) val)) ⊎ (IsTable y t × Fails x cl)

  module _ (x : Fat S) (e32 : (selected x).fat32 ≡ true) where
    pub next_wide : (cl : ℕ) → fat_next disk x cl ≡ cached_next width_32 disk x cl
    unfolding fat_next
    next_wide cl = if_true _ _ e32

    pub set_wide : (cl val : ℕ) → fat_set disk x cl val ≡ cached_set width_32 disk x cl val
    unfolding fat_set
    set_wide cl val = if_true _ _ e32

    pub stored_wide : (val : ℕ) → stored_of (selected x) val ≡ val % 2 ^ 28
    stored_wide val = if_true _ _ e32

  module _ (x : Fat S) (e32 : (selected x).fat32 ≡ false) (e16 : (selected x).fat16 ≡ true) where
    pub next_narrow : (cl : ℕ) → fat_next disk x cl ≡ cached_next width_16 disk x cl
    unfolding fat_next
    next_narrow cl = if_false _ _ e32 ∙ if_true _ _ e16

    pub set_narrow : (cl val : ℕ) → fat_set disk x cl val ≡ cached_set width_16 disk x cl val
    unfolding fat_set
    set_narrow cl val = if_false _ _ e32 ∙ if_true _ _ e16

    pub stored_narrow : (val : ℕ) → stored_of (selected x) val ≡ val % 2 ^ 16
    stored_narrow val = if_false _ _ e32 ∙ if_true _ _ e16

  module _ (x : Fat S) (e32 : (selected x).fat32 ≡ false) (e16 : (selected x).fat16 ≡ false) where
    pub next_small : (cl : ℕ) → fat_next disk x cl ≡ (next_12 (get_12 x.fatcache cl), x)
    unfolding fat_next
    next_small cl = if_false _ _ e32 ∙ if_false _ _ e16

    pub set_small :
        (cl val : ℕ)
        → fat_set disk x cl val
          ≡ record x { fatcache = set_12 x.fatcache cl val; fat12_dirty = true }
    unfolding fat_set
    set_small cl val = if_false _ _ e32 ∙ if_false _ _ e16

    pub stored_small : (val : ℕ) → stored_of (selected x) val ≡ val % 4096
    stored_small val = if_false _ _ e32 ∙ if_false _ _ e16
