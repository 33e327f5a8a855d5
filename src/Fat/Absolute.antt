-- ===== src/Fat/Absolute.antt =====
-- src/kernel/fat.c: absolute disk access, INT 25h and 26h.
use liberdos.Base.{
  ℕ, zero, suc, ◌+◌, ◌-◌, Bool, true, false, not, ◌&&◌, ◌||◌, none, ltb, leb, ◌==◌, if◌then◌else◌,
  Array,
}
use liberdos.Base.Word.{u16, u32, high, low}
use liberdos.Machine.{Ram, Iregs, peek_byte, peek_word, peek_dword, poke_byte}
use liberdos.Fat.{Disk, Volume, Fat, no_lba, is_volume, fat_drive_present}
use liberdos.Fat.Entries.{fat_commit}
use liberdos.Fat.Mount.{read_fat_loop}

-- `absdisk_invalidate`; a failed read ends the reload.
abbrev pub reloaded : {S : Type 0} → Fat S → Bool × Array ℕ × S → Fat S
reloaded x (ok, cache, after) = record x { fatcache = cache; disks = after; fat12_dirty = false }

unfoldable pub absdisk_invalidate : {S : Type 0} → Disk S → Fat S → ℕ → Fat S
absdisk_invalidate disk x drv =
    let m = x.vols drv in
    let y = record x { buf_lba = no_lba; f16vol = none; f16lba = no_lba } in
    let again = read_fat_loop disk m.bios_drive m.fat_lba m.secs_per_fat 0 x.fatcache x.disks in
    if is_volume x.v12 drv then reloaded y again else y

-- The 512 bytes of a sector at a far pointer.
abbrev pub sector_at : Ram → ℕ → ℕ → Array ℕ
sector_at ram seg off i = peek_byte ram seg (off + i)

unfoldable pub put_bytes : Array ℕ → ℕ → ℕ → ℕ → ℕ → Ram → Ram
put_bytes buf seg off zero i ram = ram
put_bytes buf seg off (suc n) i ram =
    put_bytes buf seg off n (i + 1) (poke_byte ram seg (off + i) (buf i))

-- One sector, and the loop over `n` of them; the segment goes on by 512 bytes.
unfoldable pub transfer : {S : Type 0} → Disk S → Bool → ℕ → ℕ → ℕ → ℕ → S → Ram → Bool × S × Ram
transfer disk write drive lba seg off s ram =
    let (stored, written) = disk.disk_write drive lba (sector_at ram seg off) s in
    let (ok, buf, after) = disk.disk_read drive lba (sector_at ram seg off) s in
    if write then (stored, written, ram) else (ok, after, put_bytes buf seg off 512 0 ram)

unfoldable pub abs_loop :
    {S : Type 0} → Disk S → Bool → ℕ → ℕ → ℕ → ℕ → ℕ → ℕ → S → Ram → Bool × S × Ram
unfolding transfer
abs_loop disk write drive start off zero i seg s ram = (true, s, ram)
abs_loop disk write drive start off (suc n) i seg s ram =
    let (ok, s', ram') = transfer disk write drive (u32 (start + i)) seg off s ram in
    let rest = abs_loop disk write drive start off n (i + 1) (u16 (seg + 32)) s' ram' in
    if ok then rest else (false, s', ram')

-- `absdisk_cf` with the registers, the driver and RAM.
pub record Reply (S : Type 0) : Type 0 where
  pub absdisk_cf : Bool
  pub regs : Iregs
  pub fat : Fat S
  pub ram : Ram

abbrev pub refused : {S : Type 0} → Fat S → Iregs → Ram → ℕ → Reply S
refused x r ram ax = record { absdisk_cf = true; regs = record r { ax = ax }; fat = x; ram = ram }

-- What is asked for: in registers or, with CX = FFFFh, in the packet at DS:BX.
pub record Request : Type 0 where
  pub sector : ℕ
  pub count : ℕ
  pub seg : ℕ
  pub off : ℕ

abbrev pub is_packet : Iregs → Bool
is_packet r = r.cx == 0xFFFF

abbrev pub request_of : Ram → Iregs → Request
request_of ram r =
    if is_packet r
    then record {
      sector = peek_dword ram r.ds r.bx;
      count = peek_word ram r.ds (r.bx + 4);
      seg = peek_word ram r.ds (r.bx + 8);
      off = peek_word ram r.ds (r.bx + 6);
    }
    else record { sector = r.dx; count = r.cx; seg = r.ds; off = r.bx }

abbrev pub is_outside : Volume → Request → Bool
is_outside m q =
    q.count == 0 || (leb m.total_secs q.sector || ltb (m.total_secs - q.sector) q.count)

-- The end of the call: a write leaves nothing in the caches.
abbrev pub finished : {S : Type 0} → Disk S → Bool → ℕ → Fat S → Iregs → Bool × S × Ram → Reply S
finished disk write drv x r (ok, s, ram) =
    let y = record x { disks = s } in
    let z = if write then absdisk_invalidate disk y drv else y in
    if ok
    then record { absdisk_cf = false; regs = r; fat = z; ram = ram }
    else refused z r ram 0x8080

unfoldable pub perform : {S : Type 0} → Disk S → Bool → ℕ → Request → Fat S → Iregs → Ram → Reply S
perform disk write drv q x r ram =
    let m = x.vols drv in
    finished disk write drv x r (
      abs_loop disk write m.bios_drive (u32 (m.base_lba + q.sector)) q.off q.count 0 q.seg x.disks
        ram)

unfoldable pub absdisk_dispatch : {S : Type 0} → Disk S → Fat S → Iregs → Ram → Reply S
unfolding perform
absdisk_dispatch disk x r ram =
    let drv = low r.ax in
    let m = x.vols drv in
    let q = request_of ram r in
    let (ok, y) = fat_commit disk x in
    let done = perform disk (not (high r.ax == 0)) drv q y r ram in
    if not (fat_drive_present x drv)
    then refused x r ram 0x0101
    else if not (is_packet r) && ltb 0xFFFF m.total_secs
    then refused x r ram 0x0207
    else if is_outside m q
    then refused x r ram 0x0408
    else if ok
    then done
    else refused y r ram 0x8080
