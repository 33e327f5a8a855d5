-- ===== src/Drives/Tests.antt =====
-- src/kernel/disk.c: a BIOS with hard disks that always work, for runs of disk.c.
use liberdos.Base.{ℕ, ◌≡◌, refl, arith, Array, ◌&&◌, ◌==◌, if◌then◌else◌}
use liberdos.Drives.{Int13, Drives, cylsec_of, headdrv_of, disk_of}
use liberdos.Drives.Linear.{IsInt13, disk_of-IsDisk}
use liberdos.Fat.{Disk}
use liberdos.Fat.Cache.{IsDisk}

-- The sectors by drive and number.
abbrev pub Sectors : Type 0
Sectors = ℕ → ℕ → Array ℕ

abbrev pub test_int13 : Int13 Sectors
test_int13 = record {
  read1 = λ cx dx buf s. (0, buf, s);
  write1 = λ cx dx buf s. (0, s);
  reset = λ drv s. s;
  edd = λ fn drv dp buf s.
      if fn == 0x42
      then (0, s drv dp.lba_lo, s)
      else (0, buf, λ d l. if d == drv && l == dp.lba_lo then buf else s d l);
}

unfoldable pub test_int13-IsInt13 : IsInt13 test_int13
test_int13-IsInt13 = record {
  content = λ s. s;
  read1_keeps = λ cx dx buf s drive lba i. refl;
  reset_keeps = λ drv s drive lba i. refl;
  edd_keeps = λ drv dp buf s drive lba i. refl;
  edd_reads = λ drv lba buf s i hi e. refl;
  edd_source = λ drv lba buf s i. refl;
  edd_writes = λ drv lba buf s i hi e. ground arith;
  edd_others = λ drv lba buf s lba' i ne. ground (arith, ne);
}

abbrev pub hard_disk : Disk (Drives Sectors)
hard_disk = disk_of test_int13

abbrev pub hard_disk-IsDisk : IsDisk hard_disk
hard_disk-IsDisk = disk_of-IsDisk test_int13 test_int13-IsInt13

-- The geometry of a 1.44 MB floppy, as the kernel has it at its start.
abbrev pub boot_drives : Drives Sectors
boot_drives = record {
  floppy_drive = 0;
  secs_per_track = 18;
  num_heads = 2;
  low_buf = λ _. 0;
  bios = λ _ _ _. 0;
}

-- The cylinder is cut to 8 bits: sector 9216 of a floppy is where sector 0 is.
same_place :
    (cylsec_of boot_drives 9216 ≡ cylsec_of boot_drives 0)
    × (headdrv_of boot_drives 9216 ≡ headdrv_of boot_drives 0)
same_place = (refl, refl)

-- Sector 19 is the second one of the second head of the first cylinder.
second_head : (cylsec_of boot_drives 19 ≡ 2) × (headdrv_of boot_drives 19 ≡ 0x100)
second_head = (refl, refl)
