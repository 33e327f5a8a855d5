-- ===== src/Fat.antt =====
-- src/kernel/fat.c: the FAT driver. The static variables are the record `Fat`, with the disks, which
-- are a parameter: any type of states with the calls of disk.c on it. A function that changes
-- variables answers with the new record behind its result.
pub mod Entries
pub mod Packing
pub mod Cache
pub mod View
pub mod Loads
pub mod Table
pub mod Steps
pub mod Volumes
pub mod Answers
pub mod Freed
pub mod Chains
pub mod Alloc
pub mod Mount
pub mod Dir
pub mod Names
pub mod Slots
pub mod LongName
pub mod Gather
pub mod Absolute
pub mod Raw
pub mod Mounted
mod Tests
use liberdos.Base.{
  ℕ, zero, suc, ◌+◌, ◌-◌, ◌*◌, ◌/◌, ◌%◌, ◌^◌, Bool, true, false, not, ◌&&◌, ◌||◌, Option, none,
  some, ltb, leb, ◌==◌, if◌then◌else◌, Array, update,
}
use liberdos.Base.Word.{u8, u16, u32}

-- The functions of disk.c that the driver calls, which `Drives.disk_of` fills in.
-- `disk_read drive lba buf s`: whether it worked, what the buffer holds after it, and the disks;
-- `disk_write drive lba buf s` and `disk_set_geometry`.
pub record Disk (S : Type 0) : Type 0 where
  pub disk_read : ℕ → ℕ → Array ℕ → S → Bool × Array ℕ × S
  pub disk_write : ℕ → ℕ → Array ℕ → S → Bool × S
  pub disk_set_geometry : ℕ → ℕ → S → S

-- `volume`.
pub record Volume : Type 0 where
  pub present : Bool
  pub bios_drive : ℕ
  pub fat16 : Bool
  pub fat32 : Bool
  pub secs_per_clus : ℕ
  pub num_fats : ℕ
  pub root_entries : ℕ
  pub secs_per_fat : ℕ
  pub secs_per_fat32 : ℕ
  pub base_lba : ℕ
  pub total_secs : ℕ
  pub fat_lba : ℕ
  pub root_lba : ℕ
  pub data_lba : ℕ
  pub root_cluster : ℕ
  pub max_cluster : ℕ
  pub cwd_cluster : ℕ
  pub cwd : Array ℕ

abbrev pub num_drives : ℕ
num_drives = 3

-- `CLUS_EOC`, and the LBA of an empty buffer.
abbrev pub clus_eoc : ℕ
clus_eoc = 0xFFFFFFFF

abbrev pub no_lba : ℕ
no_lba = 0xFFFFFFFF

-- A pointer to a volume is its index; `v` is always the volume at `sel_drive`.
pub record Fat (S : Type 0) : Type 0 where
  pub vols : Array Volume
  pub sel_drive : ℕ
  pub cur_drive : ℕ
  pub disk_buf : Array ℕ
  pub buf_lba : ℕ
  pub buf_drv : ℕ
  pub fatcache : Array ℕ
  pub v12 : Option ℕ
  pub fat12_dirty : Bool
  pub f16buf : Array ℕ
  pub f16vol : Option ℕ
  pub f16lba : ℕ
  pub f16dirty : Bool
  pub disks : S

abbrev pub selected : {S : Type 0} → Fat S → Volume
selected x = x.vols x.sel_drive

-- Little-endian numbers in a buffer.
abbrev pub word_at : Array ℕ → ℕ → ℕ
word_at b off = u8 (b off) + 256 * u8 (b (off + 1))

abbrev pub dword_at : Array ℕ → ℕ → ℕ
dword_at b off = word_at b off + 65536 * word_at b (off + 2)

abbrev pub put_word : Array ℕ → ℕ → ℕ → Array ℕ
put_word b off v = update (update b off (u8 v)) (off + 1) (u8 (v / 256))

abbrev pub put_dword : Array ℕ → ℕ → ℕ → Array ℕ
put_dword b off v = put_word (put_word b off (u16 v)) (off + 2) (u16 (v / 65536))

-- The test that the calls with a drive number begin with.
abbrev pub fat_drive_present : {S : Type 0} → Fat S → ℕ → Bool
fat_drive_present x drv = ltb drv num_drives && (x.vols drv).present

abbrev pub fat_select : {S : Type 0} → Fat S → ℕ → Bool × Fat S
fat_select x drv =
    if fat_drive_present x drv then (true, record x { sel_drive = drv }) else (false, x)

abbrev pub fat_set_default : {S : Type 0} → Fat S → ℕ → Bool × Fat S
fat_set_default x drv =
    if fat_drive_present x drv then (true, record x { cur_drive = drv }) else (false, x)

-- Sectors per cluster, clusters and the media byte.
abbrev pub fat_drive_info : {S : Type 0} → Fat S → ℕ → Option (ℕ × ℕ × ℕ)
fat_drive_info x drv =
    if fat_drive_present x drv
    then some (
      (x.vols drv).secs_per_clus,
      u16 ((x.vols drv).max_cluster + (2 ^ 32 - 1)),
      if (x.vols drv).fat16 then 0xF8 else 0xF0,
    )
    else none

-- A call of disk.c that works, and what the source does otherwise.
unfoldable pub fat_load_sector : {S : Type 0} → Disk S → Fat S → ℕ → Bool × Fat S
fat_load_sector disk x lba =
    let drive = (selected x).bios_drive in
    let (ok, buf, after) = disk.disk_read drive lba x.disk_buf x.disks in
    if lba == x.buf_lba && drive == x.buf_drv
    then (true, x)
    else if ok
    then (true, record x { disk_buf = buf; disks = after; buf_lba = lba; buf_drv = drive })
    else (false, record x { disk_buf = buf; disks = after; buf_lba = no_lba })

unfoldable pub fat_store_buf : {S : Type 0} → Disk S → Fat S → ℕ → Bool × Fat S
fat_store_buf disk x lba =
    let drive = (selected x).bios_drive in
    let (ok, after) = disk.disk_write drive lba x.disk_buf x.disks in
    if ok
    then (true, record x { disks = after; buf_lba = lba; buf_drv = drive })
    else (false, record x { disks = after; buf_lba = no_lba })

unfoldable pub fat_write_ext : {S : Type 0} → Disk S → Fat S → ℕ → Array ℕ → Bool × Fat S
fat_write_ext disk x lba buf =
    let drive = (selected x).bios_drive in
    let (ok, after) = disk.disk_write drive lba buf x.disks in
    if ok
    then (
      true,
      record x {
        disks = after;
        buf_lba = if lba == x.buf_lba && drive == x.buf_drv then no_lba else x.buf_lba;
      },
    )
    else (false, record x { disks = after })

abbrev pub vol_fatsz : Volume → ℕ
vol_fatsz m = if m.fat32 then m.secs_per_fat32 else m.secs_per_fat

-- The loop of `f16_flush` over the `n` copies of the FAT from `f` on.
unfoldable pub flush_loop : {S : Type 0} → Disk S → Volume → ℕ → Array ℕ → ℕ → ℕ → S → Bool × S
flush_loop disk m lba buf zero f s = (true, s)
flush_loop disk m lba buf (suc n) f s =
    let (ok, after) = disk.disk_write m.bios_drive (u32 (lba + f * vol_fatsz m)) buf s in
    let rest = flush_loop disk m lba buf n (f + 1) after in if ok then rest else (false, after)

unfoldable pub flush_to : {S : Type 0} → Disk S → Fat S → Option ℕ → Bool × Fat S
flush_to disk x none = (true, x)
flush_to disk x (some w) =
    let (ok, after) = flush_loop disk (x.vols w) x.f16lba x.f16buf (x.vols w).num_fats 0 x.disks in
    if ok
    then (true, record x { disks = after; f16dirty = false })
    else (false, record x { disks = after })

unfoldable pub f16_flush : {S : Type 0} → Disk S → Fat S → Bool × Fat S
unfolding flush_to flush_loop
f16_flush disk x = if x.f16dirty then flush_to disk x x.f16vol else (true, x)

abbrev pub is_volume : Option ℕ → ℕ → Bool
is_volume none w = false
is_volume (some u) w = u == w

unfoldable pub f16_fill : {S : Type 0} → Disk S → Fat S → ℕ → Bool × Fat S
f16_fill disk x lba =
    let (ok, buf, after) = disk.disk_read (selected x).bios_drive lba x.f16buf x.disks in
    if ok
    then (true, record x { f16buf = buf; disks = after; f16vol = some x.sel_drive; f16lba = lba })
    else (false, record x { f16buf = buf; disks = after; f16vol = none })

unfoldable pub f16_load : {S : Type 0} → Disk S → Fat S → ℕ → Bool × Fat S
unfolding f16_flush f16_fill
f16_load disk x lba =
    let flushed = f16_flush disk x in
    let filled = f16_fill disk flushed.1 lba in
    if is_volume x.f16vol x.sel_drive && x.f16lba == lba
    then (true, x)
    else if flushed.0
    then filled
    else flushed
