-- ===== src/Fat/Mounted.antt =====
-- src/kernel/fat.c: what `mount_volume` leaves when it succeeds.
use liberdos.Base.{
  ℕ, ◌+◌, ◌≤◌, ◌≡◌, refl, sym, Bool, true, false, not, ◌&&◌, ◌||◌, arith, Array, update,
  update_self, ltb, leb, if◌then◌else◌, subst,
}
use liberdos.Base.Word.{u32}
use liberdos.Fat.{Disk, Volume, Fat, no_lba, word_at}
use liberdos.Fat.Cache.{differ}
use liberdos.Fat.Mount.{
  is_some, parse_bpb, laid_out, total_of, is_bad_bpb, fatsz_of, set_volume, mount_fat, mount_bpb,
  mount_volume,
}

-- A volume that is mounted: the divisors of the layout are not 0, and a FAT of twelve bits is small
-- enough for the cache.
pub record IsMounted (m : Volume) : Type 0 where
  pub present : m.present ≡ true
  pub sectors : 1 ≤ m.secs_per_clus
  pub fats : 1 ≤ m.num_fats
  pub fat_size : 1 ≤ fatsz_of m
  pub size : m.fat32 ≡ false → m.fat16 ≡ false → (m.max_cluster ≤ 4085) × (m.secs_per_fat ≤ 12)

IsSound : Volume → Type 0
IsSound m = (1 ≤ m.secs_per_clus) × (1 ≤ m.num_fats) × (1 ≤ fatsz_of m)

good_bpb : (m : Volume) (total : ℕ) → is_bad_bpb m total ≡ false → IsSound m
unfolding IsSound
good_bpb m total e = ground (arith, e)

few_clusters : (b : Bool) (n : ℕ) → b ≡ false → not b && leb 4085 n ≡ false → u32 (n + 1) ≤ 4085
few_clusters b n e f = ground (arith, e, f)

laid_out-small :
    (m : Volume) (part reserved total : ℕ)
    → m.fat32 ≡ false
    → (laid_out m part reserved total).fat16 ≡ false
    → (laid_out m part reserved total).max_cluster ≤ 4085
unfolding laid_out
laid_out-small m part reserved total e f = few_clusters m.fat32 _ e f

-- The ends of `mount_fat`, of which two are good.
abbrev outcome : {A : Type 0} (wide busy ok : Bool) (a b c d : A) → Bool × A
outcome wide busy ok a b c d =
    if wide then (true, a) else if busy then (false, b) else if ok then (true, c) else (false, d)

ends :
    {A : Type 0} (P : A → Type 0) (wide busy ok : Bool) (a b c d : A)
    → (wide ≡ true → P a)
    → (wide ≡ false → busy ≡ false → P c)
    → (outcome wide busy ok a b c d).0 ≡ true
    → P (outcome wide busy ok a b c d).1
ends P true busy ok a b c d f g e = f refl
ends P false true ok a b c d f g e = absurd (differ e)
ends P false false true a b c d f g e = g refl refl
ends P false false false a b c d f g e = absurd (differ e)

-- A check in front of what may succeed.
abbrev end_behind : {A : Type 0} → Bool → A → Bool × A → Bool × A
end_behind bad a r = if bad then (false, a) else r

behind_check :
    {A : Type 0} (P : A → Type 0) (bad : Bool) (a : A) (r : Bool × A)
    → (bad ≡ false → r.0 ≡ true → P r.1)
    → (end_behind bad a r).0 ≡ true
    → P (end_behind bad a r).1
behind_check P true a r f e = absurd (differ e)
behind_check P false a r f e = f refl e

-- The same with the good end first.
abbrev only_if : {A : Type 0} → Bool → Bool × A → A → Bool × A
only_if ok r a = if ok then r else (false, a)

behind_read :
    {A : Type 0} (P : A → Type 0) (ok : Bool) (r : Bool × A) (a : A)
    → (r.0 ≡ true → P r.1)
    → (only_if ok r a).0 ≡ true
    → P (only_if ok r a).1
behind_read P true r a f e = f e
behind_read P false r a f e = absurd (differ e)

module _ {S : Type 0} (disk : Disk S) where
  -- The volume of a drive is mounted.
  abbrev pub Has : ℕ → Fat S → Type 0
  Has drv x = IsMounted (x.vols drv)

  has_at :
      (vols : Array Volume) (drv : ℕ) (m : Volume) → IsMounted m → IsMounted (update vols drv m drv)
  has_at vols drv m h = subst IsMounted (sym (update_self vols drv m)) h

  mount_fat-mounted :
      (x : Fat S) (drv : ℕ) (m : Volume)
      → IsSound m
      → (m.fat32 ≡ false → m.fat16 ≡ false → m.max_cluster ≤ 4085)
      → (mount_fat disk x drv m).0 ≡ true
      → Has drv (mount_fat disk x drv m).1
  unfolding mount_fat IsSound
  mount_fat-mounted x drv m (a, b, c) few e =
      ends (Has drv) (m.fat16 || m.fat32) (is_some x.v12 || ltb 12 m.secs_per_fat) _ _ _ _ _
        (λ wide.
          has_at x.vols drv (record m { present = true })
            (record {
              present = refl;
              sectors = a;
              fats = b;
              fat_size = c;
              size = λ f32 f16. absurd (differ (ground (arith, wide, f32, f16)));
            }))
        (λ _ free.
          has_at (update x.vols drv m) drv (record m { present = true })
            (record {
              present = refl;
              sectors = a;
              fats = b;
              fat_size = c;
              size = λ f32 f16. (few f32 f16, ground (arith, free));
            }))
        e

  laid_out-IsSound :
      (m : Volume) (part reserved total : ℕ) → IsSound m → IsSound (laid_out m part reserved total)
  unfolding laid_out IsSound
  laid_out-IsSound m part reserved total s = s

  mount_bpb-mounted :
      (x : Fat S) (drv part : ℕ) (m : Volume)
      → (mount_bpb disk x drv part m).0 ≡ true
      → Has drv (mount_bpb disk x drv part m).1
  unfolding mount_bpb
  mount_bpb-mounted x drv part start e =
      let m = parse_bpb start x.disk_buf in
      behind_check (Has drv) (is_bad_bpb m (total_of x.disk_buf)) _ _
        (λ good f.
          mount_fat-mounted _ drv _
            (laid_out-IsSound m part (word_at x.disk_buf 14) (total_of x.disk_buf)
              (good_bpb m (total_of x.disk_buf) good))
            (laid_out-small m part (word_at x.disk_buf 14) (total_of x.disk_buf)) f)
        e

  -- After `mount_volume` succeeds the volume of the drive is there, its sectors per cluster, the number
  -- of its FATs and their size are not 0, and a FAT of twelve bits has at most 4084 clusters and twelve
  -- sectors.
  pub mount_volume-IsMounted :
      (x : Fat S) (drv bios_drive part : ℕ)
      → (mount_volume disk x drv bios_drive part).0 ≡ true
      → IsMounted ((mount_volume disk x drv bios_drive part).1.vols drv)
  unfolding mount_volume
  mount_volume-IsMounted x drv bios_drive part e =
      let (ok, buf, after) = disk.disk_read bios_drive part x.disk_buf x.disks in
      let m : Volume = record (x.vols drv) { present = false; bios_drive = bios_drive } in
      let y : Fat S = record x { disk_buf = buf; disks = after } in
      let z : Fat S = record y { buf_lba = no_lba } in
      behind_read (Has drv) ok (mount_bpb disk z drv part m) (set_volume y drv m)
        (mount_bpb-mounted z drv part m) e
