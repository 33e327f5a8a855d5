-- ===== src/Fat/Mount.antt =====
-- src/kernel/fat.c: mounting a volume from the BPB in its first sector.
use liberdos.Base.{
  ℕ, zero, suc, ◌+◌, ◌-◌, ◌*◌, ◌/◌, ◌^◌, Bool, true, false, not, ◌&&◌, ◌||◌, Option, none, some,
  ltb, leb, ◌==◌, if◌then◌else◌, Array, update,
}
use liberdos.Base.Loop.{find_from}
use liberdos.Base.Word.{u8, u16, u32}
use liberdos.Fat.{Disk, Volume, Fat, no_lba, word_at, dword_at, fat_select}

-- The fields of the BPB, in a volume that is not there yet.
unfoldable pub parse_bpb : Volume → Array ℕ → Volume
parse_bpb m b =
    let root_entries = word_at b 17 in
    let secs_per_fat = word_at b 22 in
    let secs_per_fat32 = dword_at b 0x24 in
    record m {
      secs_per_clus = u8 (b 13);
      num_fats = u8 (b 16);
      root_entries = root_entries;
      secs_per_fat = secs_per_fat;
      secs_per_fat32 = secs_per_fat32;
      root_cluster = dword_at b 0x2C;
      fat32 = root_entries == 0 && (secs_per_fat == 0 && not (secs_per_fat32 == 0));
    }

abbrev pub total_of : Array ℕ → ℕ
total_of b = if word_at b 19 == 0 then dword_at b 32 else word_at b 19

abbrev pub fatsz_of : Volume → ℕ
fatsz_of m = if m.fat32 then m.secs_per_fat32 else m.secs_per_fat

abbrev pub is_bad_bpb : Volume → ℕ → Bool
is_bad_bpb m total = m.secs_per_clus == 0 || (fatsz_of m == 0 || (m.num_fats == 0 || total == 0))

-- The layout of the volume, in 32-bit arithmetic.
unfoldable pub laid_out : Volume → ℕ → ℕ → ℕ → Volume
laid_out m part_lba reserved total =
    let fats = m.num_fats * fatsz_of m in
    let root_secs = u16 ((m.root_entries * 32 + 511) / 512) in
    let fat_lba = u32 (part_lba + reserved) in
    let root_lba = u32 (fat_lba + fats) in
    let data_rel = u32 (reserved + fats + root_secs) in
    let clusters = u32 (total + (2 ^ 32 - data_rel)) / m.secs_per_clus in
    record m {
      base_lba = part_lba;
      total_secs = total;
      fat_lba = fat_lba;
      root_lba = root_lba;
      data_lba = u32 (root_lba + root_secs);
      max_cluster = u32 (clusters + 1);
      fat16 = not m.fat32 && leb 4085 clusters;
      cwd_cluster = 0;
      cwd = update m.cwd 0 0;
    }

-- The loop that reads the FAT of a FAT12 volume, one sector after another.
abbrev pub put_sector : Array ℕ → ℕ → Array ℕ → Array ℕ
put_sector cache i buf j =
    if leb (i * 512) j && ltb j (i * 512 + 512) then buf (j - i * 512) else cache j

unfoldable pub read_fat_loop :
    {S : Type 0} → Disk S → ℕ → ℕ → ℕ → ℕ → Array ℕ → S → Bool × Array ℕ × S
read_fat_loop disk drive fat_lba zero i cache s = (true, cache, s)
read_fat_loop disk drive fat_lba (suc n) i cache s =
    let (ok, buf, after) = disk.disk_read drive (u32 (fat_lba + i)) (λ j. cache (i * 512 + j)) s in
    let rest = read_fat_loop disk drive fat_lba n (i + 1) (put_sector cache i buf) after in
    if ok then rest else (false, put_sector cache i buf, after)

abbrev pub set_volume : {S : Type 0} → Fat S → ℕ → Volume → Fat S
set_volume x drv m = record x { vols = update x.vols drv m }

abbrev pub is_some : Option ℕ → Bool
is_some none = false
is_some (some _) = true

-- The end of `mount_volume`: a FAT12 volume takes the cache, and there is one only.
unfoldable pub mount_fat : {S : Type 0} → Disk S → Fat S → ℕ → Volume → Bool × Fat S
unfolding read_fat_loop
mount_fat disk x drv m =
    let y = set_volume x drv m in
    let mounted = record m { present = true } in
    let (ok, cache, after) =
      read_fat_loop disk m.bios_drive m.fat_lba m.secs_per_fat 0 x.fatcache x.disks in
    let z = record y { fatcache = cache; disks = after } in
    if m.fat16 || m.fat32
    then (true, set_volume x drv mounted)
    else if is_some x.v12 || ltb 12 m.secs_per_fat
    then (false, y)
    else if ok
    then (true, record (set_volume z drv mounted) { v12 = some drv })
    else (false, z)

unfoldable pub mount_bpb : {S : Type 0} → Disk S → Fat S → ℕ → ℕ → Volume → Bool × Fat S
unfolding parse_bpb laid_out mount_fat
mount_bpb disk x drv part_lba start =
    let b = x.disk_buf in
    let m = parse_bpb start b in
    let y =
      if ltb m.bios_drive 0x80
      then record x { disks = disk.disk_set_geometry (word_at b 24) (word_at b 26) x.disks }
      else x in
    if is_bad_bpb m (total_of b)
    then (false, set_volume y drv m)
    else mount_fat disk y drv (laid_out m part_lba (word_at b 14) (total_of b))

unfoldable pub mount_volume : {S : Type 0} → Disk S → Fat S → ℕ → ℕ → ℕ → Bool × Fat S
unfolding mount_bpb
mount_volume disk x drv bios_drive part_lba =
    let m = record (x.vols drv) { present = false; bios_drive = bios_drive } in
    let (ok, buf, after) = disk.disk_read bios_drive part_lba x.disk_buf x.disks in
    let y = record x { disk_buf = buf; disks = after } in
    if ok
    then mount_bpb disk (record y { buf_lba = no_lba }) drv part_lba m
    else (false, set_volume y drv m)

unfoldable pub fat_mount_floppy : {S : Type 0} → Disk S → Fat S → ℕ → Bool × Fat S
unfolding mount_volume
fat_mount_floppy disk x bios_drive =
    let (ok, y) = mount_volume disk x 0 bios_drive 0 in
    if ok then (true, (fat_select y 0).1) else (false, y)

-- The first of the four entries of the MBR with a FAT type.
abbrev pub is_fat_type : ℕ → Bool
is_fat_type type =
    type == 0x01
    || (type == 0x04 || (type == 0x06 || (type == 0x0E || (type == 0x0B || type == 0x0C))))

abbrev pub type_at : Array ℕ → ℕ → ℕ
type_at b i = u8 (b (0x1BE + i * 16 + 4))

abbrev pub part_at : Array ℕ → Option ℕ → ℕ
part_at b none = 0
part_at b (some i) = dword_at b (0x1BE + i * 16 + 8)

-- `fat_mount_hdd`: the size in MB as an `int` of 16 bits, and -1 where there is no volume.
abbrev pub size_mb : Volume → ℕ
size_mb m = u16 (u32 (u32 (m.max_cluster + (2 ^ 32 - 1)) * m.secs_per_clus) / 2 / 1024)

abbrev pub no_size : ℕ
no_size = 0xFFFF

unfoldable pub fat_mount_hdd : {S : Type 0} → Disk S → Fat S → ℕ × Fat S
unfolding mount_volume
fat_mount_hdd disk x =
    let (ok, b, after) = disk.disk_read 0x80 0 x.disk_buf x.disks in
    let y = record x { disk_buf = b; disks = after } in
    let z = record y { buf_lba = no_lba } in
    let part_lba = part_at b (find_from (λ i. is_fat_type (type_at b i)) 4 0) in
    let (mounted, w) = mount_volume disk z 2 0x80 part_lba in
    if not ok
    then (no_size, y)
    else if not (word_at b 510 == 0xAA55) || part_lba == 0
    then (no_size, z)
    else (if mounted then size_mb (w.vols 2) else no_size, w)
