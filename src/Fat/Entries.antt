-- ===== src/Fat/Entries.antt =====
-- src/kernel/fat.c: the entries of the FAT, and clusters.
use Prim.Native.Nat.{bit_or}
use liberdos.Base.{
  ℕ, zero, suc, ◌+◌, ◌-◌, ◌*◌, ◌/◌, ◌%◌, ◌^◌, Bool, true, false, ◌&&◌, Option, none, some, ltb, leb,
  ◌==◌, if◌then◌else◌, Array,
}
use liberdos.Base.Word.{u16, u32}
use liberdos.Fat.{
  Disk, Volume, Fat, clus_eoc, no_lba, selected, word_at, dword_at, put_word, put_dword, f16_load,
  f16_flush,
}

-- An entry as `fat_next` answers with it: the three ends of a chain.
abbrev pub next_32 : ℕ → ℕ
next_32 val = if leb 0x0FFFFFF8 val then clus_eoc else val

abbrev pub next_16 : ℕ → ℕ
next_16 val = if leb 0xFFF7 val then clus_eoc else val

abbrev pub next_12 : ℕ → ℕ
next_12 val = if leb 0xFF7 val then clus_eoc else val

-- Where the entry of a cluster is.
abbrev pub lba_32 : Volume → ℕ → ℕ
lba_32 m cl = u32 (m.fat_lba + cl / 128)

abbrev pub lba_16 : Volume → ℕ → ℕ
lba_16 m cl = u32 (m.fat_lba + cl / 256)

abbrev pub off_12 : ℕ → ℕ
off_12 cl = u16 (cl + cl / 2)

-- The entry in its sector, and the twelve bits of the cluster in a word of two entries.
abbrev pub get_32 : Array ℕ → ℕ → ℕ
get_32 b cl = dword_at b (cl % 128 * 4) % 2 ^ 28

abbrev pub get_16 : Array ℕ → ℕ → ℕ
get_16 b cl = word_at b (cl % 256 * 2)

abbrev pub get_12 : Array ℕ → ℕ → ℕ
get_12 b cl = let val = word_at b (off_12 cl) in if cl % 2 == 1 then val / 16 else val % 4096

unfoldable pub fat_next : {S : Type 0} → Disk S → Fat S → ℕ → ℕ × Fat S
fat_next disk x cl =
    let wide = f16_load disk x (lba_32 (selected x) cl) in
    let narrow = f16_load disk x (lba_16 (selected x) cl) in
    if (selected x).fat32
    then (if wide.0 then next_32 (get_32 wide.1.f16buf cl) else clus_eoc, wide.1)
    else if (selected x).fat16
    then (if narrow.0 then next_16 (get_16 narrow.1.f16buf cl) else clus_eoc, narrow.1)
    else (next_12 (get_12 x.fatcache cl), x)

-- The top four bits of a FAT32 entry stay; so do the other four bits of the word on FAT12.
abbrev pub set_32 : Array ℕ → ℕ → ℕ → Array ℕ
set_32 b cl val =
    let p = cl % 128 * 4 in put_dword b p (bit_or (dword_at b p / 2 ^ 28 * 2 ^ 28) (val % 2 ^ 28))

abbrev pub set_16 : Array ℕ → ℕ → ℕ → Array ℕ
set_16 b cl val = put_word b (cl % 256 * 2) (u16 val)

abbrev pub set_12 : Array ℕ → ℕ → ℕ → Array ℕ
set_12 b cl val =
    let off = off_12 cl in
    let cur = word_at b off in
    put_word b off (
      if cl % 2 == 1
      then bit_or (cur % 16) (u16 (u16 val * 16))
      else bit_or (cur / 4096 * 4096) (val % 4096))

unfoldable pub fat_set : {S : Type 0} → Disk S → Fat S → ℕ → ℕ → Fat S
fat_set disk x cl val =
    let wide = f16_load disk x (lba_32 (selected x) cl) in
    let narrow = f16_load disk x (lba_16 (selected x) cl) in
    if (selected x).fat32
    then if wide.0
      then record wide.1 { f16buf = set_32 wide.1.f16buf cl val; f16dirty = true }
      else wide.1
    else if (selected x).fat16
    then if narrow.0
      then record narrow.1 { f16buf = set_16 narrow.1.f16buf cl val; f16dirty = true }
      else narrow.1
    else record x { fatcache = set_12 x.fatcache cl val; fat12_dirty = true }

-- The search of `fat_alloc` through the `n` clusters from `cl` on. The loop of the source has no end
-- where `max_cluster` is 0xFFFFFFFF and no cluster is free, since `cl` wraps; this one stops there.
unfoldable pub alloc_loop : {S : Type 0} → Disk S → ℕ → ℕ → ℕ → Fat S → ℕ × Fat S
alloc_loop disk prev zero cl x = (0, x)
alloc_loop disk prev (suc n) cl x =
    let (val, y) = fat_next disk x cl in
    let rest = alloc_loop disk prev n (u32 (cl + 1)) y in
    let marked = fat_set disk y cl clus_eoc in
    if val == 0 then (cl, if prev == 0 then marked else fat_set disk marked prev cl) else rest

unfoldable pub fat_alloc : {S : Type 0} → Disk S → Fat S → ℕ → ℕ × Fat S
fat_alloc disk x prev = alloc_loop disk prev ((selected x).max_cluster - 1) 2 x

-- `fat_free_chain`; `none` where the fuel runs out.
unfoldable pub free_loop : {S : Type 0} → Disk S → ℕ → ℕ → Fat S → Option (Fat S)
free_loop disk zero cl x = none
free_loop disk (suc fuel) cl x =
    let (nx, y) = fat_next disk x cl in
    let rest = free_loop disk fuel nx (fat_set disk y cl 0) in
    if leb 2 cl && leb cl (selected x).max_cluster then rest else some x

unfoldable pub fat_free_chain : {S : Type 0} → Disk S → Fat S → ℕ → Option (Fat S)
fat_free_chain disk x cl = free_loop disk ((selected x).max_cluster + 1) cl x

-- `fat_commit`: the cached FAT12 goes to each of its copies, sector by sector.
abbrev pub sector_of : Array ℕ → ℕ → Array ℕ
sector_of b i k = b (i * 512 + k)

unfoldable pub commit_sectors : {S : Type 0} → Disk S → ℕ → ℕ → Array ℕ → ℕ → ℕ → S → Bool × S
commit_sectors disk drive base cache zero i s = (true, s)
commit_sectors disk drive base cache (suc n) i s =
    let (ok, after) = disk.disk_write drive (u32 (base + i)) (sector_of cache i) s in
    let rest = commit_sectors disk drive base cache n (i + 1) after in
    if ok then rest else (false, after)

unfoldable pub commit_copies : {S : Type 0} → Disk S → Volume → Array ℕ → ℕ → ℕ → S → Bool × S
commit_copies disk m cache zero f s = (true, s)
commit_copies disk m cache (suc n) f s =
    let (ok, after) =
      commit_sectors disk m.bios_drive (u32 (m.fat_lba + f * m.secs_per_fat)) cache m.secs_per_fat 0
        s in
    let rest = commit_copies disk m cache n (f + 1) after in if ok then rest else (false, after)

unfoldable pub commit_12 : {S : Type 0} → Disk S → Fat S → Option ℕ → Bool × Fat S
commit_12 disk x none = (true, x)
commit_12 disk x (some w) =
    let (ok, after) = commit_copies disk (x.vols w) x.fatcache (x.vols w).num_fats 0 x.disks in
    if ok
    then (true, record x { disks = after; fat12_dirty = false })
    else (false, record x { disks = after })

unfoldable pub fat_commit : {S : Type 0} → Disk S → Fat S → Bool × Fat S
fat_commit disk x =
    let (ok, y) = f16_flush disk x in
    let done = commit_12 disk y y.v12 in
    if ok then if y.fat12_dirty then done else (true, y) else (false, y)

abbrev pub fat_cluster_bytes : {S : Type 0} → Fat S → ℕ
fat_cluster_bytes x = u16 ((selected x).secs_per_clus * 512)

abbrev pub fat_cluster_lba : {S : Type 0} → Fat S → ℕ → ℕ
fat_cluster_lba x cl =
    u32 ((selected x).data_lba + u32 (cl + (2 ^ 32 - 2)) * (selected x).secs_per_clus)

-- `fat_zero_cluster`: the loop over its sectors, and the call.
unfoldable pub zero_loop : {S : Type 0} → Disk S → ℕ → ℕ → Array ℕ → ℕ → ℕ → S → Bool × S
zero_loop disk drive base buf zero s disks = (true, disks)
zero_loop disk drive base buf (suc n) s disks =
    let (ok, after) = disk.disk_write drive (u32 (base + s)) buf disks in
    let rest = zero_loop disk drive base buf n (s + 1) after in if ok then rest else (false, after)

unfoldable pub fat_zero_cluster : {S : Type 0} → Disk S → Fat S → ℕ → Bool × Fat S
fat_zero_cluster disk x cl =
    let zeros : Array ℕ = λ i. if ltb i 512 then 0 else x.disk_buf i in
    let m = selected x in
    let (ok, after) =
      zero_loop disk m.bios_drive (fat_cluster_lba x cl) zeros m.secs_per_clus 0 x.disks in
    (ok, record x { disk_buf = zeros; buf_lba = no_lba; disks = after })
