-- ===== src/Clock/Times.antt =====
-- src/kernel/clock.c: the time of day, through BCD and the clock of the BIOS, and its FAT stamp.
use Prim.Native.Nat.{bit_or}
use liberdos.Base.{
  ℕ, ◌+◌, ◌*◌, ◌/◌, ◌%◌, ◌^◌, ◌≤◌, ◌<◌, ◌≡◌, inl, inr, ◌||◌, some, refl, ◌∙◌, arith, ltb,
  Bool-cases,
}
use liberdos.Base.Bits.{bit_or_apart}
use liberdos.Base.Word.{u16, high, low}
use liberdos.Machine.{Ram, Iregs, set_al}
use liberdos.Clock.{
  Rtc, Time, bcd2bin, bin2bcd, clock_get_time, f2c_gettime, f2d_settime, clock_dos_time,
}

-- A clock that stands at the time that it is given: AH=02h answers what AH=03h was told last.
abbrev pub KeepsTime : (C : Type 0) → Rtc C → Type 0
KeepsTime C rtc =
    (cx dx : ℕ) (c : C)
    → cx < 2 ^ 16
    → dx < 2 ^ 16
    → rtc.time (rtc.set_time cx dx c) ≡ some (cx, dx)

pub record IsTime (t : Time) : Type 0 where
  pub hour : t.hour ≤ 23
  pub min : t.min ≤ 59
  pub sec : t.sec ≤ 59

-- The time that CX and DX hold.
abbrev pub time_of : Iregs → Time
time_of r = record { hour = high r.cx; min = low r.cx; sec = high r.dx }

abbrev time_cx : ℕ → ℕ → ℕ
time_cx hour min = u16 (bin2bcd hour * 256 + bin2bcd min)

abbrev time_dx : ℕ → ℕ
time_dx sec = u16 (bin2bcd sec * 256)

abbrev raw : ℕ → ℕ → Time
raw cx dx = record { hour = bcd2bin (high cx); min = bcd2bin (low cx); sec = bcd2bin (high dx) }

time_eq : (a b : Time) → a.hour ≡ b.hour → a.min ≡ b.min → a.sec ≡ b.sec → a ≡ b
time_eq a b p q s i = record { hour = p i; min = q i; sec = s i }

pair_high : (a b : ℕ) → a < 100 → b < 100 → bcd2bin (high (time_cx a b)) ≡ a
unfolding bcd2bin bin2bcd
pair_high a b h k = omega arith

pair_low : (a b : ℕ) → a < 100 → b < 100 → bcd2bin (low (time_cx a b)) ≡ b
unfolding bcd2bin bin2bcd
pair_low a b h k = omega arith

one_high : (a : ℕ) → a < 100 → bcd2bin (high (time_dx a)) ≡ a
unfolding bcd2bin bin2bcd
one_high a h = omega arith

raw-eq : (t : Time) → IsTime t → raw (time_cx t.hour t.min) (time_dx t.sec) ≡ t
raw-eq t v =
    time_eq _ t (pair_high t.hour t.min (omega (arith, v.hour)) (omega (arith, v.min)))
      (pair_low t.hour t.min (omega (arith, v.hour)) (omega (arith, v.min)))
      (one_high t.sec (omega (arith, v.sec)))

-- Three fields in a word.
stamp_fields :
    (h m s : ℕ)
    → h < 32
    → m < 64
    → s < 32
    → bit_or (bit_or (u16 (h * 2048)) (m * 32)) s ≡ h * 2048 + m * 32 + s
stamp_fields h m s hh hm hs =
    let wide : u16 (h * 2048) ≡ h * 2 ^ 11 = omega arith in
    let outer : bit_or (h * 2 ^ 11) (m * 32) ≡ h * 2 ^ 11 + m * 32 =
      bit_or_apart 11 h (m * 32) (omega arith) in
    let shape : h * 2 ^ 11 + m * 32 ≡ (h * 64 + m) * 2 ^ 5 = omega arith in
    rw (wide, outer, shape) (bit_or_apart 5 (h * 64 + m) s hs ∙ omega arith)

module _ (C : Type 0) (rtc : Rtc C) where
  set_time-eq :
      (c : C) (r : Iregs)
      → IsTime (time_of r)
      → f2d_settime rtc c r
        ≡ (rtc.set_time (time_cx (high r.cx) (low r.cx)) (time_dx (high r.dx)) c, set_al r 0)
  unfolding f2d_settime
  set_time-eq c r v = ground (arith, v.hour, v.min, v.sec)

  get_time_back :
      (c : C) (t : Time)
      → IsTime t
      → rtc.time c ≡ some (time_cx t.hour t.min, time_dx t.sec)
      → clock_get_time rtc c ≡ t
  unfolding clock_get_time
  get_time_back c t v e = rw e (raw-eq t v)

  -- With a clock that stands at the time that it is given, after 2Dh with an hour up to 23 and minute
  -- and second up to 59, AL is 0, and 2Ch answers that hour, minute and second, with hundredths
  -- below 100.
  pub f2c_gettime-f2d_settime :
      (c : C) (ram : Ram) (r q : Iregs)
      → KeepsTime C rtc
      → r.cx < 2 ^ 16
      → IsTime (time_of r)
      → let a = f2c_gettime rtc (f2d_settime rtc c r).0 ram q in
        ((f2d_settime rtc c r).1 ≡ set_al r 0)
        × (a.cx ≡ r.cx)
        × (high a.dx ≡ high r.dx)
        × (low a.dx < 100)
  unfolding f2c_gettime
  f2c_gettime-f2d_settime c ram r q keeps small v =
      let t = time_of r in
      let back : clock_get_time rtc (rtc.set_time (time_cx t.hour t.min) (time_dx t.sec) c) ≡ t =
        get_time_back _ t v (keeps _ _ c (omega arith) (omega arith)) in
      rw (set_time-eq c r v, back) (refl, omega arith, omega (arith, v.sec), omega arith)

  -- 2Dh with an hour above 23 or a minute or second above 59 answers FFh in AL, and leaves the clock as
  -- it is.
  pub f2d_settime-refuses :
      (c : C) (r : Iregs) → (IsTime (time_of r) → ⊥) → f2d_settime rtc c r ≡ (c, set_al r 0xFF)
  unfolding f2d_settime
  f2d_settime-refuses c r bad =
      elim (Bool-cases (ltb 23 (high r.cx) || (ltb 59 (low r.cx) || ltb 59 (high r.dx)))) [
        | inl t ↦ rw t refl
        | inr f ↦
            absurd (bad (record { hour = ground arith; min = ground arith; sec = ground arith }))
      ]

  -- Where the clock answers a time of day, the FAT stamp holds the hour, the minute and half the
  -- seconds.
  pub clock_dos_time_fields :
      (c : C)
      → IsTime (clock_get_time rtc c)
      → let t = clock_get_time rtc c in
        (clock_dos_time rtc c / 2048 ≡ t.hour)
        × (clock_dos_time rtc c / 32 % 64 ≡ t.min)
        × (clock_dos_time rtc c % 32 ≡ t.sec / 2)
  unfolding clock_dos_time
  clock_dos_time_fields c v =
      let t = clock_get_time rtc c in
      let e =
        stamp_fields t.hour t.min (t.sec / 2) (omega (arith, v.hour)) (omega (arith, v.min))
          (omega (arith, v.sec)) in
      rw e (omega (arith, v.min, v.sec), omega (arith, v.min, v.sec), omega (arith, v.min, v.sec))
