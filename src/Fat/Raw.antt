-- ===== src/Fat/Raw.antt =====
-- src/kernel/fat.c: INT 25h and 26h stay inside the volume.
use liberdos.Base.{
  ℕ, zero, suc, ◌+◌, ◌*◌, ◌^◌, ◌≤◌, ◌<◌, ◌≡◌, ◌≢◌, ◌⊎◌, inl, inr, refl, sym, ap, ◌∙◌, Bool, true,
  false, not, ◌&&◌, Option, none, some, ltb, ◌==◌, if◌then◌else◌, if_true, if_false, Array, arith,
  Bool-cases,
}
use liberdos.Base.Word.{u16, u32, high, low}
use liberdos.Machine.{Ram, Iregs}
use liberdos.Fat.{Disk, Volume, Fat, is_volume, flush_to, f16_flush, fat_drive_present}
use liberdos.Fat.Entries.{commit_12, fat_commit}
use liberdos.Fat.Mount.{put_sector, read_fat_loop}
use liberdos.Fat.Cache.{IsDisk}
use liberdos.Fat.Absolute.{
  absdisk_invalidate, transfer, abs_loop, Reply, Request, request_of, is_packet, is_outside,
  finished, perform, absdisk_dispatch,
}

-- A sector that is not of the volume.
abbrev pub IsElsewhere : Volume → ℕ → Type 0
IsElsewhere m lba = (lba < m.base_lba) ⊎ (m.base_lba + m.total_secs ≤ lba)

-- What holds at both ends of a test holds behind it.
at_both :
    {A : Type 0} (P : A → Type 0) (b : Bool) (p q : A)
    → P p
    → (b ≡ false → P q)
    → P (if b then p else q)
at_both P true p q h g = h
at_both P false p q h g = g refl

-- The volumes stay when the caches are written.
module _ {S : Type 0} (disk : Disk S) where
  abbrev HasVols : Fat S → Bool × Fat S → Type 0
  HasVols x r = r.1.vols ≡ x.vols

  flush_to-vols : (x : Fat S) (o : Option ℕ) → HasVols x (flush_to disk x o)
  unfolding flush_to
  flush_to-vols x none = refl
  flush_to-vols x (some w) = at_both (HasVols x) _ _ _ refl (λ _. refl)

  f16_flush-vols : (x : Fat S) → HasVols x (f16_flush disk x)
  unfolding f16_flush
  f16_flush-vols x = at_both (HasVols x) x.f16dirty _ _ (flush_to-vols x x.f16vol) (λ _. refl)

  commit_12-vols : (x : Fat S) (o : Option ℕ) → HasVols x (commit_12 disk x o)
  unfolding commit_12
  commit_12-vols x none = refl
  commit_12-vols x (some w) = at_both (HasVols x) _ _ _ refl (λ _. refl)

  fat_commit-vols : (x : Fat S) → HasVols x (fat_commit disk x)
  unfolding fat_commit
  fat_commit-vols x =
      let y = (f16_flush disk x).1 in
      let kept = f16_flush-vols x in
      at_both (HasVols x) (f16_flush disk x).0 _ (false, y)
        (at_both (HasVols x) y.fat12_dirty (commit_12 disk y y.v12) (true, y)
          (commit_12-vols y y.v12 ∙ kept) (λ _. kept))
        (λ _. kept)

module _ {S : Type 0} (disk : Disk S) (k : IsDisk disk) where
  -- A reload only reads.
  reload-keeps :
      (drive fat_lba n i : ℕ) (cache : Array ℕ) (s : S) (drive' lba j : ℕ)
      → k.content (read_fat_loop disk drive fat_lba n i cache s).2 drive' lba j
        ≡ k.content s drive' lba j
  unfolding read_fat_loop
  reload-keeps drive fat_lba zero i cache s drive' lba j = refl
  reload-keeps drive fat_lba (suc n) i cache s drive' lba j =
      let r = disk.disk_read drive (u32 (fat_lba + i)) (λ q. cache (i * 512 + q)) s in
      let first = k.keeps drive (u32 (fat_lba + i)) (λ q. cache (i * 512 + q)) s drive' lba j in
      elim (Bool-cases r.0) [
        | inl t ↦
            rw t (
              reload-keeps drive fat_lba n (i + 1) (put_sector cache i r.1) r.2 drive' lba j
              ∙ first)
        | inr f ↦ rw f first
      ]

  transfer-keeps :
      (write : Bool) (drive at seg off : ℕ) (s : S) (ram : Ram) (lba j : ℕ)
      → 0x80 ≤ drive
      → at ≢ lba
      → k.content (transfer disk write drive at seg off s ram).1 drive lba j
        ≡ k.content s drive lba j
  unfolding transfer
  transfer-keeps true drive at seg off s ram lba j hard ne = k.others drive at _ s lba j hard ne
  transfer-keeps false drive at seg off s ram lba j hard ne = k.keeps drive at _ s drive lba j

  loop-keeps :
      (write : Bool) (drive start off n i seg : ℕ) (s : S) (ram : Ram) (lba j : ℕ)
      → 0x80 ≤ drive
      → start + i + n ≤ 2 ^ 32
      → (lba < start + i) ⊎ (start + i + n ≤ lba)
      → k.content (abs_loop disk write drive start off n i seg s ram).1 drive lba j
        ≡ k.content s drive lba j
  unfolding abs_loop
  loop-keeps write drive start off zero i seg s ram lba j hard top away = refl
  loop-keeps write drive start off (suc n) i seg s ram lba j hard top away =
      let at : u32 (start + i) ≡ start + i = omega arith in
      let t = transfer disk write drive (u32 (start + i)) seg off s ram in
      let first =
        transfer-keeps write drive (u32 (start + i)) seg off s ram lba j hard
          (λ e. omega (arith, at, e, away)) in
      elim (Bool-cases t.0) [
        | inl ok ↦
            ap (λ q. k.content q.1 drive lba j)
              (if_true (abs_loop disk write drive start off n (i + 1) (u16 (seg + 32)) t.1 t.2)
                (false, t.1, t.2) ok)
            ∙ loop-keeps write drive start off n (i + 1) (u16 (seg + 32)) t.1 t.2 lba j hard
                (omega arith) (omega (arith, away))
            ∙ first
        | inr bad ↦
            ap (λ q. k.content q.1 drive lba j)
              (if_false (abs_loop disk write drive start off n (i + 1) (u16 (seg + 32)) t.1 t.2)
                (false, t.1, t.2) bad)
            ∙ first
      ]

  invalidate-keeps :
      (x : Fat S) (drv drive lba j : ℕ)
      → k.content (absdisk_invalidate disk x drv).disks drive lba j ≡ k.content x.disks drive lba j
  unfolding absdisk_invalidate
  invalidate-keeps x drv drive lba j = elim (Bool-cases (is_volume x.v12 drv)) [
    | inl t ↦
        ap (λ (q : Fat S). k.content q.disks drive lba j) (if_true _ _ t)
        ∙ reload-keeps (x.vols drv).bios_drive (x.vols drv).fat_lba (x.vols drv).secs_per_fat 0
            x.fatcache x.disks drive lba j
    | inr f ↦ ap (λ (q : Fat S). k.content q.disks drive lba j) (if_false _ _ f)
  ]

  finished-keeps :
      (write ok : Bool) (drv drive lba j : ℕ) (x : Fat S) (r : Iregs) (s : S) (ram : Ram)
      → k.content (finished disk write drv x r (ok, s, ram)).fat.disks drive lba j
        ≡ k.content s drive lba j
  finished-keeps true true drv drive lba j x r s ram =
      invalidate-keeps (record x { disks = s }) drv drive lba j
  finished-keeps true false drv drive lba j x r s ram =
      invalidate-keeps (record x { disks = s }) drv drive lba j
  finished-keeps false true drv drive lba j x r s ram = refl
  finished-keeps false false drv drive lba j x r s ram = refl

  -- A request that passes the check lies in the volume.
  request_inside :
      (m : Volume) (q : Request) → is_outside m q ≡ false → q.sector + q.count ≤ m.total_secs
  request_inside m q e = ground (arith, e)

  perform-keeps :
      (write : Bool) (drv : ℕ) (q : Request) (x : Fat S) (r : Iregs) (ram : Ram) (m : Volume)
      (lba j : ℕ)
      → x.vols drv ≡ m
      → 0x80 ≤ m.bios_drive
      → m.base_lba + m.total_secs ≤ 2 ^ 32
      → IsElsewhere m lba
      → is_outside m q ≡ false
      → k.content (perform disk write drv q x r ram).fat.disks m.bios_drive lba j
        ≡ k.content x.disks m.bios_drive lba j
  unfolding perform
  perform-keeps write drv q x r ram m lba j own hard top away e =
      let inside = request_inside m q e in
      let l =
        abs_loop disk write m.bios_drive (u32 (m.base_lba + q.sector)) q.off q.count 0 q.seg x.disks
          ram in
      let some_count : 1 ≤ q.count = ground (arith, e) in
      let start : u32 (m.base_lba + q.sector) ≡ m.base_lba + q.sector =
        omega (arith, inside, some_count, top) in
      ap
        (λ (v : Volume).
          k.content
            (finished disk write drv x r (
              abs_loop disk write v.bios_drive (u32 (v.base_lba + q.sector)) q.off q.count 0 q.seg
                x.disks ram)).fat.disks
            m.bios_drive lba j)
        own
      ∙ finished-keeps write l.0 drv m.bios_drive lba j x r l.1 l.2
      ∙ loop-keeps write m.bios_drive (u32 (m.base_lba + q.sector)) q.off q.count 0 q.seg x.disks
          ram lba j hard (omega (arith, start, inside, top)) (ground (arith, start, inside, away))

  -- A call of INT 25h or 26h for a volume on a hard disk leaves every sector of the drive that is not of
  -- the volume as it is, or as the caches were written to the disk before the transfer, whatever the
  -- request is and whether or not the disk fails, if the volume ends below sector 2^32 and disk.c
  -- does on a hard disk what `IsDisk` says.
  pub absdisk_dispatch-keeps :
      (x : Fat S) (r : Iregs) (ram : Ram) (m : Volume) (lba j : ℕ)
      → x.vols (low r.ax) ≡ m
      → 0x80 ≤ m.bios_drive
      → m.base_lba + m.total_secs ≤ 2 ^ 32
      → IsElsewhere m lba
      → (k.content (absdisk_dispatch disk x r ram).fat.disks m.bios_drive lba j
          ≡ k.content x.disks m.bios_drive lba j)
        ⊎ (k.content (absdisk_dispatch disk x r ram).fat.disks m.bios_drive lba j
            ≡ k.content (fat_commit disk x).1.disks m.bios_drive lba j)
  unfolding absdisk_dispatch
  absdisk_dispatch-keeps x r ram m lba j own hard top away =
      let drv : ℕ = low r.ax in
      let q : Request = request_of ram r in
      let y : Fat S = (fat_commit disk x).1 in
      let kept : y.vols drv ≡ m = (λ i. fat_commit-vols disk x i drv) ∙ own in
      let Q = λ (a : Reply S).
        (k.content a.fat.disks m.bios_drive lba j ≡ k.content x.disks m.bios_drive lba j)
        ⊎ (k.content a.fat.disks m.bios_drive lba j ≡ k.content y.disks m.bios_drive lba j) in
      at_both Q (not (fat_drive_present x drv)) _ _ (inl refl) (λ _.
        at_both Q (not (is_packet r) && ltb 0xFFFF (x.vols drv).total_secs) _ _ (inl refl) (λ _.
          at_both Q (is_outside (x.vols drv) q) _ _ (inl refl) (λ inside.
            at_both Q (fat_commit disk x).0 _ _
              (inr (
                perform-keeps (not (high r.ax == 0)) drv q y r ram m lba j kept hard top away
                  (ap (λ v. is_outside v q) (sym own) ∙ inside)))
              (λ _. inr refl))))
