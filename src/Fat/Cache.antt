-- ===== src/Fat/Cache.antt =====
-- src/kernel/fat.c: the sector cache of FAT16 and FAT32. The first copy of the FAT, as the cache and
-- the disk hold it together, is the same whatever the cache does.
use liberdos.Base.{
  ℕ, zero, suc, ◌+◌, ◌*◌, ◌^◌, ◌≤◌, ◌<◌, ◌≡◌, ◌≢◌, inl, inr, refl, sym, ap, ◌∙◌, true, false, arith,
  Array, Bool-cases,
}
use liberdos.Base.Word.{u32}
use liberdos.Fat.{Disk, Volume, vol_fatsz, flush_loop}

-- What the driver relies on in disk.c, for the sectors that a state of the disks has: no read changes a
-- sector, and on a hard disk a read that works delivers the sector, a write that works stores it,
-- and no write changes another sector.
pub record IsDisk {S : Type 0} (disk : Disk S) : Type 0 where
  pub content : S → ℕ → ℕ → Array ℕ
  pub reads :
      (drive lba : ℕ) (buf : Array ℕ) (s : S) (i : ℕ)
      → 0x80 ≤ drive
      → i < 512
      → (disk.disk_read drive lba buf s).0 ≡ true
      → (disk.disk_read drive lba buf s).1 i ≡ content s drive lba i
  pub keeps :
      (drive lba : ℕ) (buf : Array ℕ) (s : S) (drive' lba' i : ℕ)
      → content (disk.disk_read drive lba buf s).2 drive' lba' i ≡ content s drive' lba' i
  pub writes :
      (drive lba : ℕ) (buf : Array ℕ) (s : S) (i : ℕ)
      → 0x80 ≤ drive
      → i < 512
      → (disk.disk_write drive lba buf s).0 ≡ true
      → content (disk.disk_write drive lba buf s).1 drive lba i ≡ buf i
  pub others :
      (drive lba : ℕ) (buf : Array ℕ) (s : S) (lba' i : ℕ)
      → 0x80 ≤ drive
      → lba ≢ lba'
      → content (disk.disk_write drive lba buf s).1 drive lba' i ≡ content s drive lba' i

-- A call for the drive that fails.
pub data Fault {S : Type 0} (disk : Disk S) (drive : ℕ) : Type 0 where
  no_read :
      (lba : ℕ) (buf : Array ℕ) (s : S)
      → (disk.disk_read drive lba buf s).0 ≡ false
      → Fault disk drive
  no_write :
      (lba : ℕ) (buf : Array ℕ) (s : S)
      → (disk.disk_write drive lba buf s).0 ≡ false
      → Fault disk drive

-- A sector of the first copy of the FAT.
abbrev pub InFat : Volume → ℕ → Type 0
InFat m lba = (m.fat_lba ≤ lba) × (lba < m.fat_lba + vol_fatsz m)

-- The volume is on a hard disk, and the copies of its FAT lie below sector 2^32.
pub record HasFats (m : Volume) : Type 0 where
  pub hard : 0x80 ≤ m.bios_drive
  pub some_fat : 1 ≤ m.num_fats
  pub copies : (f : ℕ) → f < m.num_fats → m.fat_lba + f * vol_fatsz m + vol_fatsz m ≤ 2 ^ 32

pub differ : false ≡ true → ⊥
differ e = cc

times_ge : (f s : ℕ) → 1 ≤ f → s ≤ f * s
times_ge zero s h = absurd (omega arith)
times_ge (suc f) s h = omega arith

-- The copies are all written unless a write fails.
pub flush-Fault :
    {S : Type 0} (disk : Disk S) (m : Volume) (lba : ℕ) (buf : Array ℕ) (n f : ℕ) (s : S)
    → (flush_loop disk m lba buf n f s).0 ≡ false
    → Fault disk m.bios_drive
unfolding flush_loop
flush-Fault disk m lba buf zero f s e = absurd (differ (sym e))
flush-Fault disk m lba buf (suc n) f s e =
    let w = disk.disk_write m.bios_drive (u32 (lba + f * vol_fatsz m)) buf s in
    elim (Bool-cases w.0) [
      | inl t ↦ flush-Fault disk m lba buf n (f + 1) w.1 (rw t at e)
      | inr b ↦ no_write (u32 (lba + f * vol_fatsz m)) buf s b
    ]

module _ {S : Type 0} (disk : Disk S) (k : IsDisk disk) where
  module _ (m : Volume) (h : HasFats m) (lba : ℕ) (g : InFat m lba) (buf : Array ℕ) where
    -- The other copies lie behind the first one.
    flush_rest :
        (n f : ℕ) (s : S)
        → 1 ≤ f
        → f + n ≤ m.num_fats
        → (lba' i : ℕ) → InFat m lba'
        → k.content (flush_loop disk m lba buf n f s).1 m.bios_drive lba' i
          ≡ k.content s m.bios_drive lba' i
    unfolding flush_loop
    flush_rest zero f s pos le lba' i g' = refl
    flush_rest (suc n) f s pos le lba' i g' =
        let w = disk.disk_write m.bios_drive (u32 (lba + f * vol_fatsz m)) buf s in
        let away : u32 (lba + f * vol_fatsz m) ≢ lba' =
          λ e. omega (arith, e, g, g', h.copies f (omega arith), times_ge f (vol_fatsz m) pos) in
        let first = k.others m.bios_drive (u32 (lba + f * vol_fatsz m)) buf s lba' i h.hard away in
        elim (Bool-cases w.0) [
          | inl t ↦ rw t (flush_rest n (f + 1) w.1 (omega arith) (omega arith) lba' i g' ∙ first)
          | inr b ↦ rw b first
        ]

    at_first : u32 (lba + 0 * vol_fatsz m) ≡ lba
    at_first = omega (arith, g, h.copies 0 (omega (arith, h.some_fat)))

    pub flush_others :
        (n : ℕ) (s : S)
        → n ≤ m.num_fats
        → (lba' i : ℕ) → InFat m lba'
        → lba ≢ lba'
        → k.content (flush_loop disk m lba buf n 0 s).1 m.bios_drive lba' i
          ≡ k.content s m.bios_drive lba' i
    unfolding flush_loop
    flush_others zero s le lba' i g' ne = refl
    flush_others (suc n) s le lba' i g' ne =
        let a : ℕ = u32 (lba + 0 * vol_fatsz m) in
        let w = disk.disk_write m.bios_drive a buf s in
        let first = k.others m.bios_drive a buf s lba' i h.hard (λ e. ne (sym at_first ∙ e)) in
        elim (Bool-cases w.0) [
          | inl t ↦ rw t (flush_rest n 1 w.1 (omega arith) (omega arith) lba' i g' ∙ first)
          | inr b ↦ rw b first
        ]

    pub flush_stores :
        (n : ℕ) (s : S)
        → 1 ≤ n
        → n ≤ m.num_fats
        → (flush_loop disk m lba buf n 0 s).0 ≡ true
        → (i : ℕ) → i < 512
        → k.content (flush_loop disk m lba buf n 0 s).1 m.bios_drive lba i ≡ buf i
    unfolding flush_loop
    flush_stores zero s pos le e i hi = absurd (omega arith)
    flush_stores (suc n) s pos le e i hi =
        let a : ℕ = u32 (lba + 0 * vol_fatsz m) in
        let w = disk.disk_write m.bios_drive a buf s in
        elim (Bool-cases w.0) [
          | inl t ↦ rw t (
              flush_rest n 1 w.1 (omega arith) (omega arith) lba i g
              ∙ ap (λ l. k.content w.1 m.bios_drive l i) (sym at_first)
              ∙ k.writes m.bios_drive a buf s i h.hard hi t)
          | inr b ↦ absurd (differ (rw b at e))
        ]
