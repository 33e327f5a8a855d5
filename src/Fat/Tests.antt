-- ===== src/Fat/Tests.antt =====
-- src/kernel/fat.c: runs of the driver on small volumes, and the theorems at such inputs.
use liberdos.Base.{
  ℕ, ◌+◌, ltb, ◌≡◌, ◌⊎◌, inr, refl, Bool, true, false, ◌&&◌, none, some, arith, Array, ◌==◌,
  if◌then◌else◌,
}
use liberdos.Fat.{Disk, Volume, Fat, no_lba}
use liberdos.Fat.Entries.{get_12, set_12, fat_next, fat_set, fat_commit}
use liberdos.Fat.Cache.{IsDisk, HasFats}
use liberdos.Drives.{Drives}
use liberdos.Drives.Linear.{disk_of-IsDisk}
use liberdos.Drives.Tests.{Sectors, hard_disk, hard_disk-IsDisk, test_int13-IsInt13, boot_drives}
use liberdos.Fat.Table.{width_16-IsWidth}
use liberdos.Fat.Volumes.{IsTable, narrow, small, NextAnswer, SetAnswer}
use liberdos.Fat.Answers.{fat_next-NextAnswer, fat_set-SetAnswer}
use liberdos.Fat.Mount.{parse_bpb, laid_out, read_fat_loop, mount_fat, mount_bpb, mount_volume}
use liberdos.Machine.{Iregs}
use liberdos.Fat.Absolute.{absdisk_dispatch}
use liberdos.Fat.Raw.{absdisk_dispatch-keeps}
use liberdos.Fat.Slots.{filled_slot, Gathered, gather}
use liberdos.Fat.Gather.{IsGathered, gather-filled_slot}
use liberdos.Fat.Mounted.{IsMounted, mount_volume-IsMounted}

-- Disks that always work, as sectors by drive and number.

abbrev test_disk : Disk Sectors
test_disk = record {
  disk_read = λ drive lba buf s. (true, s drive lba, s);
  disk_write = λ drive lba buf s. (true, λ d l. if d == drive && l == lba then buf else s d l);
  disk_set_geometry = λ a b s. s;
}

test_disk-IsDisk : IsDisk test_disk
test_disk-IsDisk = record {
  content = λ s. s;
  reads = λ drive lba buf s i hard hi e. refl;
  keeps = λ drive lba buf s drive' lba' i. refl;
  writes = λ drive lba buf s i hard hi e. ground arith;
  others = λ drive lba buf s lba' i hard ne. ground (arith, ne);
}

abbrev test_volume : Bool → ℕ → Volume
test_volume fat16 max = record {
  present = true;
  bios_drive = 0x80;
  fat16 = fat16;
  fat32 = false;
  secs_per_clus = 1;
  num_fats = 2;
  root_entries = 16;
  secs_per_fat = 1;
  secs_per_fat32 = 0;
  base_lba = 0;
  total_secs = 200;
  fat_lba = 1;
  root_lba = 3;
  data_lba = 4;
  root_cluster = 0;
  max_cluster = max;
  cwd_cluster = 0;
  cwd = λ _. 0;
}

abbrev test_fat : {S : Type 0} → S → Volume → Array ℕ → Fat S
test_fat disks m cache = record {
  vols = λ _. m;
  sel_drive = 0;
  cur_drive = 0;
  disk_buf = λ _. 0;
  buf_lba = no_lba;
  buf_drv = 0xFF;
  fatcache = cache;
  v12 = some 0;
  fat12_dirty = false;
  f16buf = λ _. 0;
  f16vol = none;
  f16lba = no_lba;
  f16dirty = false;
  disks = disks;
}

-- A FAT12 volume where clusters 2 and 3 are a circle.
abbrev circle : Array ℕ
circle = set_12 (set_12 (λ _. 0) 2 3) 3 2

abbrev floppy : Fat Sectors
floppy = test_fat (λ _ _ _. 0) (test_volume false 20) circle

floppy-IsTable : IsTable test_disk-IsDisk floppy (get_12 circle)
floppy-IsTable = small refl refl (record { size = omega arith; reads = λ cl le. refl })

-- A FAT16 volume with an empty FAT, on a hard disk behind disk.c.
abbrev partition : Fat (Drives Sectors)
partition = test_fat boot_drives (test_volume true 100) (λ _. 0)

partition-HasFats : HasFats (test_volume true 100)
partition-HasFats = record {
  hard = omega arith;
  some_fat = omega arith;
  copies = λ f hf. omega arith;
}

none_ne_some : {w : ℕ} → none ≡ some w → ⊥
none_ne_some e = cc

partition-IsTable : IsTable hard_disk-IsDisk partition (λ _. 0)
unfolding disk_of-IsDisk test_int13-IsInt13
partition-IsTable = narrow refl refl (record {
  coherent = record {
    fats = partition-HasFats;
    cached = λ w e. absurd (none_ne_some e);
    clean = λ _ e. absurd (none_ne_some e);
  };
  width = width_16-IsWidth (test_volume true 100) partition-HasFats (omega arith);
  reads = λ cl le. refl;
})

fat_set-SetAnswer_example :
    SetAnswer hard_disk-IsDisk partition (λ _. 0) 5 0x12345 (fat_set hard_disk partition 5 0x12345)
fat_set-SetAnswer_example =
    fat_set-SetAnswer hard_disk-IsDisk partition (λ _. 0) 5 0x12345 partition-IsTable (omega arith)

fat_next-NextAnswer_example :
    NextAnswer test_disk-IsDisk floppy (get_12 circle) 2 (fat_next test_disk floppy 2)
fat_next-NextAnswer_example =
    fat_next-NextAnswer test_disk-IsDisk floppy (get_12 circle) 2 floppy-IsTable (omega arith)

-- The boot sector of a floppy with 2880 sectors.
abbrev bpb : Array ℕ
bpb i =
    if i == 13
    then 1
    else if i == 14
    then 1
    else if i == 16
    then 2
    else if i == 17
    then 224
    else if i == 19
    then 0x40
    else if i == 20
    then 0x0B
    else if i == 22
    then 9
    else 0

abbrev empty : Fat Sectors
empty = record (test_fat (λ _ _ _. 0) (test_volume false 0) (λ _. 0)) {
  v12 = none;
  disks = λ d l. if l == 0 then bpb else λ _. 0;
}

mounts : (mount_volume test_disk empty 0 0 0).0 ≡ true
unfolding mount_volume mount_bpb mount_fat parse_bpb laid_out read_fat_loop
mounts = refl

mount_volume-IsMounted_example : IsMounted ((mount_volume test_disk empty 0 0 0).1.vols 0)
mount_volume-IsMounted_example = mount_volume-IsMounted test_disk empty 0 0 0 mounts

-- INT 26h for sector 5 of the partition, from 1000:0.
abbrev write_regs : Iregs
write_regs = record {
  ax = 0x0100;
  bx = 0;
  cx = 1;
  dx = 5;
  si = 0;
  di = 0;
  bp = 0;
  ds = 0x1000;
  es = 0;
  ip = 0;
  cs = 0;
  flags = 0;
}

absdisk_dispatch-keeps_example :
    let after = (absdisk_dispatch hard_disk partition write_regs (λ _. 7)).fat.disks in
    (hard_disk-IsDisk.content after 0x80 300 0
      ≡ hard_disk-IsDisk.content partition.disks 0x80 300 0)
    ⊎ (hard_disk-IsDisk.content after 0x80 300 0
        ≡ hard_disk-IsDisk.content (fat_commit hard_disk partition).1.disks 0x80 300 0)
absdisk_dispatch-keeps_example =
    absdisk_dispatch-keeps hard_disk hard_disk-IsDisk partition write_regs (λ _. 7)
      (test_volume true 100) 300 0 refl (omega arith) (omega arith) (inr (omega arith))

-- The first slot of a name of 20 characters.
abbrev letters : Array ℕ
letters i = if ltb i 20 then 0x41 + i else 0

abbrev run_begun : Gathered
run_begun = record { buf = λ _. 0; len = 20; have = true; sum = 0x5A }

gather-filled_slot_example :
    IsGathered letters 20 0x5A 1
      (λ _. 0)
      20
      (gather (filled_slot letters 20 false 0x5A 1) run_begun)
    × (filled_slot letters 20 false 0x5A 1 11 ≡ 0x0F)
gather-filled_slot_example =
    gather-filled_slot letters 20 0x5A 1 false run_begun (omega arith) (omega arith) (omega arith)
      (λ i lt. ground (arith, lt)) (inr (refl, refl))
