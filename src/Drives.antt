-- ===== src/Drives.antt =====
-- src/kernel/disk.c: one sector at a time through INT 13h, on floppies by cylinder, head and sector and on
-- hard disks by number.
pub mod Linear
pub mod Tests
use liberdos.Base.{
  ℕ, zero, suc, ◌+◌, ◌*◌, ◌/◌, ◌%◌, Bool, true, false, not, ◌&&◌, ltb, leb, ◌==◌, if◌then◌else◌,
  Array,
}
use Prim.Native.Nat.{bit_or}
use liberdos.Base.Word.{u8, u16}
use liberdos.Fat.{Disk}

-- `DISK_LOW_SEG`.
abbrev pub disk_low_seg : ℕ
disk_low_seg = 0x0062

-- The disk address packet.
pub record Dap : Type 0 where
  pub size : ℕ
  pub zero_byte : ℕ
  pub count : ℕ
  pub buf_off : ℕ
  pub buf_seg : ℕ
  pub lba_lo : ℕ
  pub lba_hi : ℕ

-- INT 13h: AH=02h and 03h take CX and DX and the sector's buffer, AH=00h the drive, and AH=42h and 43h a
-- packet and the buffer that it names. They answer with the status, 0 for a success, and with the
-- buffer.
pub record Int13 (S : Type 0) : Type 0 where
  pub read1 : ℕ → ℕ → Array ℕ → S → ℕ × Array ℕ × S
  pub write1 : ℕ → ℕ → Array ℕ → S → ℕ × S
  pub reset : ℕ → S → S
  pub edd : ℕ → ℕ → Dap → Array ℕ → S → ℕ × Array ℕ × S

-- The static variables, the sector buffer at `disk_low_seg`, and what the BIOS and the drives hold.
pub record Drives (S : Type 0) : Type 0 where
  pub floppy_drive : ℕ
  pub secs_per_track : ℕ
  pub num_heads : ℕ
  pub low_buf : Array ℕ
  pub bios : S

pub disk_init : {S : Type 0} → ℕ → Drives S → Drives S
disk_init boot_drive d = record d { floppy_drive = boot_drive }

unfoldable pub disk_set_geometry : {S : Type 0} → ℕ → ℕ → Drives S → Drives S
disk_set_geometry spt heads d = record d {
  secs_per_track = if spt == 0 then d.secs_per_track else spt;
  num_heads = if heads == 0 then d.num_heads else heads;
}

-- One call of the BIOS in `floppy_io`, and the loop over the tries.
unfoldable pub floppy_call : {S : Type 0} → Int13 S → Bool → ℕ → ℕ → Array ℕ → S → ℕ × Array ℕ × S
floppy_call int13 true cylsec headdrv buf s =
    let (st, after) = int13.write1 cylsec headdrv buf s in (st, buf, after)
floppy_call int13 false cylsec headdrv buf s = int13.read1 cylsec headdrv buf s

unfoldable pub floppy_tries :
    {S : Type 0} → Int13 S → Bool → ℕ → ℕ → ℕ → ℕ → Array ℕ → S → Bool × Array ℕ × S
unfolding floppy_call
floppy_tries int13 write cylsec headdrv drv zero buf s = (false, buf, s)
floppy_tries int13 write cylsec headdrv drv (suc n) buf s =
    let (st, got, after) = floppy_call int13 write cylsec headdrv buf s in
    let rest = floppy_tries int13 write cylsec headdrv drv n got (int13.reset drv after) in
    if st == 0 then (true, got, after) else rest

-- CX and DX of a sector: `track`, `cyl`, `head` and `sec` as they are cut to 16 bits.
abbrev pub track_of : {S : Type 0} → Drives S → ℕ → ℕ
track_of d lba = u16 (lba / d.secs_per_track)

abbrev pub cylsec_of : {S : Type 0} → Drives S → ℕ → ℕ
cylsec_of d lba =
    u16 (bit_or (u16 (track_of d lba / d.num_heads * 256)) (u16 (u16 (lba % d.secs_per_track) + 1)))

abbrev pub headdrv_of : {S : Type 0} → Drives S → ℕ → ℕ
headdrv_of d lba = u16 (bit_or (u16 (track_of d lba % d.num_heads * 256)) d.floppy_drive)

unfoldable pub floppy_io :
    {S : Type 0} → Int13 S → Bool → ℕ → Array ℕ → Drives S → Bool × Array ℕ × Drives S
unfolding floppy_tries
floppy_io int13 write lba buf d =
    let (ok, got, after) =
      floppy_tries int13 write (cylsec_of d lba) (headdrv_of d lba) d.floppy_drive 3 buf d.bios in
    (ok, got, record d { bios = after })

-- The packet for one sector, and the loop over the tries in `hdd_io`.
abbrev pub packet : ℕ → Dap
packet lba = record {
  size = 0x10;
  zero_byte = 0;
  count = 1;
  buf_off = 0;
  buf_seg = disk_low_seg;
  lba_lo = lba;
  lba_hi = 0;
}

unfoldable pub hdd_tries :
    {S : Type 0} → Int13 S → ℕ → ℕ → Dap → ℕ → Array ℕ → S → Bool × Array ℕ × S
hdd_tries int13 fn drv dp zero low s = (false, low, s)
hdd_tries int13 fn drv dp (suc n) low s =
    let (st, got, after) = int13.edd fn drv dp low s in
    let rest = hdd_tries int13 fn drv dp n got (int13.reset drv after) in
    if st == 0 then (true, got, after) else rest

-- `fmemcpy` of a sector.
abbrev pub sector_copied : Array ℕ → Array ℕ → Array ℕ
sector_copied dst src i = if ltb i 512 then src i else dst i

unfoldable pub hdd_io :
    {S : Type 0} → Int13 S → Bool → ℕ → ℕ → Array ℕ → Drives S → Bool × Array ℕ × Drives S
unfolding hdd_tries
hdd_io int13 write drv lba buf d =
    let (ok, low, after) =
      hdd_tries int13 (if write then 0x43 else 0x42) drv (packet lba) 3
        (if write then sector_copied d.low_buf buf else d.low_buf) d.bios in
    (
      ok,
      if ok && not write then sector_copied buf low else buf,
      record d { low_buf = low; bios = after },
    )

unfoldable pub disk_read :
    {S : Type 0} → Int13 S → ℕ → ℕ → Array ℕ → Drives S → Bool × Array ℕ × Drives S
unfolding hdd_io floppy_io
disk_read int13 drv lba buf d =
    if leb 0x80 drv then hdd_io int13 false drv lba buf d else floppy_io int13 false lba buf d

unfoldable pub disk_write : {S : Type 0} → Int13 S → ℕ → ℕ → Array ℕ → Drives S → Bool × Drives S
unfolding hdd_io floppy_io
disk_write int13 drv lba buf d =
    let r =
      if leb 0x80 drv then hdd_io int13 true drv lba buf d else floppy_io int13 true lba buf d in
    (r.0, r.2)

-- The disks as fat.c sees them.
unfoldable pub disk_of : {S : Type 0} → Int13 S → Disk (Drives S)
unfolding disk_read disk_write disk_set_geometry
disk_of int13 = record {
  disk_read = disk_read int13;
  disk_write = disk_write int13;
  disk_set_geometry = disk_set_geometry;
}
