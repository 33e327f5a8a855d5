-- ===== src/Drives/Linear.antt =====
-- src/kernel/disk.c: on a hard disk, disk.c does what fat.c relies on, if the BIOS does what its calls are
-- documented to do.
use liberdos.Base.{
  ℕ, zero, suc, ◌≤◌, ◌<◌, ◌≡◌, ◌≢◌, inl, inr, refl, sym, ap, ◌∙◌, Bool, true, false, ◌&&◌, arith,
  Array, Bool-cases, ltb, leb, ◌==◌, if◌then◌else◌, if_true, if_false,
}
use liberdos.Fat.Cache.{IsDisk, differ}
use liberdos.Drives.{
  Dap, Int13, Drives, floppy_call, floppy_tries, floppy_io, packet, hdd_tries, sector_copied,
  hdd_io, disk_read, disk_write, disk_of, cylsec_of, headdrv_of,
}

-- What the calls of INT 13h are documented to do, for the sectors that the drives have: reads and resets
-- change no sector; a read with a packet for one sector that works delivers the sector; a write with
-- one that works stores it, and it changes no other sector and not the buffer.
pub record IsInt13 {S : Type 0} (int13 : Int13 S) : Type 0 where
  pub content : S → ℕ → ℕ → Array ℕ
  pub read1_keeps :
      (cx dx : ℕ) (buf : Array ℕ) (s : S) (drive lba i : ℕ)
      → content (int13.read1 cx dx buf s).2 drive lba i ≡ content s drive lba i
  pub reset_keeps :
      (drv : ℕ) (s : S) (drive lba i : ℕ)
      → content (int13.reset drv s) drive lba i ≡ content s drive lba i
  pub edd_keeps :
      (drv : ℕ) (dp : Dap) (buf : Array ℕ) (s : S) (drive lba i : ℕ)
      → content (int13.edd 0x42 drv dp buf s).2 drive lba i ≡ content s drive lba i
  pub edd_reads :
      (drv lba : ℕ) (buf : Array ℕ) (s : S) (i : ℕ)
      → i < 512
      → (int13.edd 0x42 drv (packet lba) buf s).0 ≡ 0
      → (int13.edd 0x42 drv (packet lba) buf s).1 i ≡ content s drv lba i
  pub edd_source :
      (drv lba : ℕ) (buf : Array ℕ) (s : S) (i : ℕ)
      → (int13.edd 0x43 drv (packet lba) buf s).1 i ≡ buf i
  pub edd_writes :
      (drv lba : ℕ) (buf : Array ℕ) (s : S) (i : ℕ)
      → i < 512
      → (int13.edd 0x43 drv (packet lba) buf s).0 ≡ 0
      → content (int13.edd 0x43 drv (packet lba) buf s).2 drv lba i ≡ buf i
  pub edd_others :
      (drv lba : ℕ) (buf : Array ℕ) (s : S) (lba' i : ℕ)
      → lba ≢ lba'
      → content (int13.edd 0x43 drv (packet lba) buf s).2 drv lba' i ≡ content s drv lba' i

module _ {S : Type 0} (int13 : Int13 S) (k : IsInt13 int13) where
  -- Reading changes no sector, however often it is tried.
  floppy-keeps :
      (cx dx drv n : ℕ) (buf : Array ℕ) (s : S) (drive lba i : ℕ)
      → k.content (floppy_tries int13 false cx dx drv n buf s).2 drive lba i
        ≡ k.content s drive lba i
  unfolding floppy_tries floppy_call
  floppy-keeps cx dx drv zero buf s drive lba i = refl
  floppy-keeps cx dx drv (suc n) buf s drive lba i =
      let r = int13.read1 cx dx buf s in
      let first = k.read1_keeps cx dx buf s drive lba i in
      elim (Bool-cases (r.0 == 0)) [
        | inl t ↦ rw t first
        | inr f ↦ rw f (
            floppy-keeps cx dx drv n r.1 (int13.reset drv r.2) drive lba i
            ∙ k.reset_keeps drv r.2 drive lba i
            ∙ first)
      ]

  hdd-keeps :
      (drv n : ℕ) (dp : Dap) (low : Array ℕ) (s : S) (drive lba i : ℕ)
      → k.content (hdd_tries int13 0x42 drv dp n low s).2 drive lba i ≡ k.content s drive lba i
  unfolding hdd_tries
  hdd-keeps drv zero dp low s drive lba i = refl
  hdd-keeps drv (suc n) dp low s drive lba i =
      let r = int13.edd 0x42 drv dp low s in
      let first = k.edd_keeps drv dp low s drive lba i in
      elim (Bool-cases (r.0 == 0)) [
        | inl t ↦ rw t first
        | inr f ↦ rw f (
            hdd-keeps drv n dp r.1 (int13.reset drv r.2) drive lba i
            ∙ k.reset_keeps drv r.2 drive lba i
            ∙ first)
      ]

  module _ (drv lba : ℕ) where
    hdd-reads :
        (n : ℕ) (low : Array ℕ) (s : S) (i : ℕ)
        → i < 512
        → (hdd_tries int13 0x42 drv (packet lba) n low s).0 ≡ true
        → (hdd_tries int13 0x42 drv (packet lba) n low s).1 i ≡ k.content s drv lba i
    unfolding hdd_tries
    hdd-reads zero low s i hi e = absurd (differ e)
    hdd-reads (suc n) low s i hi e =
        let r = int13.edd 0x42 drv (packet lba) low s in
        elim (Bool-cases (r.0 == 0)) [
          | inl t ↦ rw t (k.edd_reads drv lba low s i hi (ground (arith, t)))
          | inr f ↦ rw f (
              hdd-reads n r.1 (int13.reset drv r.2) i hi (rw f at e)
              ∙ k.reset_keeps drv r.2 drv lba i
              ∙ k.edd_keeps drv (packet lba) low s drv lba i)
        ]

    hdd-writes :
        (n : ℕ) (low : Array ℕ) (s : S) (i : ℕ)
        → i < 512
        → (hdd_tries int13 0x43 drv (packet lba) n low s).0 ≡ true
        → k.content (hdd_tries int13 0x43 drv (packet lba) n low s).2 drv lba i ≡ low i
    unfolding hdd_tries
    hdd-writes zero low s i hi e = absurd (differ e)
    hdd-writes (suc n) low s i hi e =
        let r = int13.edd 0x43 drv (packet lba) low s in
        elim (Bool-cases (r.0 == 0)) [
          | inl t ↦ rw t (k.edd_writes drv lba low s i hi (ground (arith, t)))
          | inr f ↦ rw f (
              hdd-writes n r.1 (int13.reset drv r.2) i hi (rw f at e)
              ∙ k.edd_source drv lba low s i)
        ]

    hdd-others :
        (n : ℕ) (low : Array ℕ) (s : S) (lba' i : ℕ)
        → lba ≢ lba'
        → k.content (hdd_tries int13 0x43 drv (packet lba) n low s).2 drv lba' i
          ≡ k.content s drv lba' i
    unfolding hdd_tries
    hdd-others zero low s lba' i ne = refl
    hdd-others (suc n) low s lba' i ne =
        let r = int13.edd 0x43 drv (packet lba) low s in
        let first = k.edd_others drv lba low s lba' i ne in
        elim (Bool-cases (r.0 == 0)) [
          | inl t ↦ rw t first
          | inr f ↦ rw f (
              hdd-others n r.1 (int13.reset drv r.2) lba' i ne
              ∙ k.reset_keeps drv r.2 drv lba' i
              ∙ first)
        ]

  hard_read :
      (drv lba : ℕ) (buf : Array ℕ) (d : Drives S)
      → 0x80 ≤ drv
      → disk_read int13 drv lba buf d ≡ hdd_io int13 false drv lba buf d
  unfolding disk_read
  hard_read drv lba buf d h = if_true {b = leb 0x80 drv} _ _ (ground arith)

  hard_write :
      (drv lba : ℕ) (buf : Array ℕ) (d : Drives S)
      → 0x80 ≤ drv
      → disk_write int13 drv lba buf d
        ≡ ((hdd_io int13 true drv lba buf d).0, (hdd_io int13 true drv lba buf d).2)
  unfolding disk_write
  hard_write drv lba buf d h =
      ap (λ (r : Bool × Array ℕ × Drives S). (r.0, r.2))
        (if_true {b = leb 0x80 drv} _ _ (ground arith))

  pub disk_read-delivers :
      (drv lba : ℕ) (buf : Array ℕ) (d : Drives S) (i : ℕ)
      → 0x80 ≤ drv
      → i < 512
      → (disk_read int13 drv lba buf d).0 ≡ true
      → (disk_read int13 drv lba buf d).1 i ≡ k.content d.bios drv lba i
  unfolding hdd_io
  disk_read-delivers drv lba buf d i hard hi e =
      let at = hard_read drv lba buf d hard in
      let ok = ap (λ (r : Bool × Array ℕ × Drives S). r.0) (sym at) ∙ e in
      let low = (hdd_tries int13 0x42 drv (packet lba) 3 d.low_buf d.bios).1 in
      ap (λ (r : Bool × Array ℕ × Drives S). r.1 i) at
      ∙ ap (λ b. (if b && true then sector_copied buf low else buf) i) ok
      ∙ if_true {b = ltb i 512} _ _ (ground arith)
      ∙ hdd-reads drv lba 3 d.low_buf d.bios i hi ok

  pub disk_read-keeps :
      (drv lba : ℕ) (buf : Array ℕ) (d : Drives S) (drive' lba' i : ℕ)
      → k.content (disk_read int13 drv lba buf d).2.bios drive' lba' i
        ≡ k.content d.bios drive' lba' i
  unfolding disk_read hdd_io floppy_io
  disk_read-keeps drv lba buf d drive' lba' i = elim (Bool-cases (leb 0x80 drv)) [
    | inl t ↦
        ap (λ (r : Bool × Array ℕ × Drives S). k.content r.2.bios drive' lba' i)
          (if_true {b = leb 0x80 drv} _ _ t)
        ∙ hdd-keeps drv 3 (packet lba) d.low_buf d.bios drive' lba' i
    | inr f ↦
        ap (λ (r : Bool × Array ℕ × Drives S). k.content r.2.bios drive' lba' i)
          (if_false {b = leb 0x80 drv} _ _ f)
        ∙ floppy-keeps (cylsec_of d lba) (headdrv_of d lba) d.floppy_drive 3 buf d.bios drive' lba'
            i
  ]

  pub disk_write-stores :
      (drv lba : ℕ) (buf : Array ℕ) (d : Drives S) (i : ℕ)
      → 0x80 ≤ drv
      → i < 512
      → (disk_write int13 drv lba buf d).0 ≡ true
      → k.content (disk_write int13 drv lba buf d).1.bios drv lba i ≡ buf i
  unfolding hdd_io
  disk_write-stores drv lba buf d i hard hi e =
      let at = hard_write drv lba buf d hard in
      ap (λ (r : Bool × Drives S). k.content r.1.bios drv lba i) at
      ∙ hdd-writes drv lba 3 (sector_copied d.low_buf buf) d.bios i hi
          (ap (λ (r : Bool × Drives S). r.0) (sym at) ∙ e)
      ∙ if_true {b = ltb i 512} _ _ (ground arith)

  pub disk_write-others :
      (drv lba : ℕ) (buf : Array ℕ) (d : Drives S) (lba' i : ℕ)
      → 0x80 ≤ drv
      → lba ≢ lba'
      → k.content (disk_write int13 drv lba buf d).1.bios drv lba' i ≡ k.content d.bios drv lba' i
  unfolding hdd_io
  disk_write-others drv lba buf d lba' i hard ne =
      ap (λ (r : Bool × Drives S). k.content r.1.bios drv lba' i) (hard_write drv lba buf d hard)
      ∙ hdd-others drv lba 3 (sector_copied d.low_buf buf) d.bios lba' i ne

  -- disk.c does on a hard disk what fat.c relies on: a read or write that works, within its three tries,
  -- reads or writes its sector, no write changes another sector, and no read changes any.
  unfoldable pub disk_of-IsDisk : IsDisk (disk_of int13)
  unfolding disk_of
  disk_of-IsDisk = record {
    content = λ d. k.content d.bios;
    reads = disk_read-delivers;
    keeps = disk_read-keeps;
    writes = disk_write-stores;
    others = disk_write-others;
  }
