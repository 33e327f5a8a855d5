-- ===== src/Clock/Dates.antt =====
-- src/kernel/clock.c: the date, through BCD and the clock of the BIOS, and its FAT stamp.
use Prim.Native.Nat.{bit_or}
use liberdos.Base.{
  ℕ, ◌+◌, ◌-◌, ◌*◌, ◌/◌, ◌%◌, ◌^◌, ◌≤◌, ◌<◌, ◌≡◌, inl, inr, ◌||◌, some, refl, ap, ◌∙◌, arith, ltb,
  ◌==◌, Bool-cases,
}
use liberdos.Base.Bits.{bit_or_apart}
use liberdos.Base.Word.{u8, u16, high, low, with_low}
use liberdos.Machine.{Iregs, set_al}
use liberdos.Clock.{
  Rtc, Date, bcd2bin, bin2bcd, checked, clock_get_date, f2a_getdate, f2b_setdate, clock_dos_date,
}
use liberdos.Clock.Weekday.{weekday, day_of_week_lem}

pub bcd2bin-bin2bcd : (v : ℕ) → v < 100 → bcd2bin (bin2bcd v) ≡ v
unfolding bcd2bin bin2bcd
bcd2bin-bin2bcd v h = omega arith

pub bin2bcd-u8 : (v : ℕ) → bin2bcd v < 256
unfolding bin2bcd
bin2bcd-u8 v = omega arith

-- A clock that keeps the date that it is given: AH=04h answers what AH=05h was told last.
abbrev pub KeepsDate : (C : Type 0) → Rtc C → Type 0
KeepsDate C rtc =
    (cx dx : ℕ) (c : C)
    → cx < 2 ^ 16
    → dx < 2 ^ 16
    → rtc.date (rtc.set_date cx dx c) ≡ some (cx, dx)

-- The dates that 2Bh takes.
pub record IsDosDate (d : Date) : Type 0 where
  pub year_from : 1980 ≤ d.year
  pub year_to : d.year ≤ 2099
  pub month_from : 1 ≤ d.month
  pub month_to : d.month ≤ 12
  pub day_from : 1 ≤ d.day
  pub day_to : d.day ≤ 31

-- The date that CX and DX hold.
abbrev pub date_of : Iregs → Date
date_of r = record { year = r.cx; month = high r.dx; day = low r.dx }

-- The two words that go to the BIOS.
abbrev date_cx : ℕ → ℕ
date_cx year = u16 (bin2bcd (u8 (year / 100)) * 256 + bin2bcd (u8 (year % 100)))

abbrev date_dx : ℕ → ℕ → ℕ
date_dx month day = u16 (bin2bcd month * 256 + bin2bcd day)

date_cx-year :
    (y : ℕ) → y < 10000 → bcd2bin (high (date_cx y)) * 100 + bcd2bin (low (date_cx y)) ≡ y
unfolding bcd2bin bin2bcd
date_cx-year y h = omega arith

date_dx-month : (m d : ℕ) → m < 100 → d < 100 → bcd2bin (high (date_dx m d)) ≡ m
unfolding bcd2bin bin2bcd
date_dx-month m d h k = omega arith

date_dx-day : (m d : ℕ) → m < 100 → d < 100 → bcd2bin (low (date_dx m d)) ≡ d
unfolding bcd2bin bin2bcd
date_dx-day m d h k = omega arith

abbrev raw : ℕ → ℕ → Date
raw cx dx = record {
  year = u16 (bcd2bin (high cx) * 100 + bcd2bin (low cx));
  month = bcd2bin (high dx);
  day = bcd2bin (low dx);
}

date_eq : (a b : Date) → a.year ≡ b.year → a.month ≡ b.month → a.day ≡ b.day → a ≡ b
date_eq a b p q s i = record { year = p i; month = q i; day = s i }

raw-eq : (d : Date) → IsDosDate d → raw (date_cx d.year) (date_dx d.month d.day) ≡ d
raw-eq d v =
    date_eq _ d (omega (arith, date_cx-year d.year (omega (arith, v.year_to)), v.year_to))
      (date_dx-month d.month d.day (omega (arith, v.month_to)) (omega (arith, v.day_to)))
      (date_dx-day d.month d.day (omega (arith, v.month_to)) (omega (arith, v.day_to)))

checked-eq : (d : Date) → IsDosDate d → checked d ≡ d
unfolding checked
checked-eq d v = ground (arith, v.year_from, v.month_from, v.month_to, v.day_from)

-- Three fields in a word.
stamp_fields :
    (y m d : ℕ)
    → y ≤ 127
    → m < 16
    → d < 32
    → bit_or (bit_or (u16 (y * 512)) (m * 32)) d ≡ y * 512 + m * 32 + d
stamp_fields y m d hy hm hd =
    let wide : u16 (y * 512) ≡ y * 2 ^ 9 = omega arith in
    let outer : bit_or (y * 2 ^ 9) (m * 32) ≡ y * 2 ^ 9 + m * 32 =
      bit_or_apart 9 y (m * 32) (omega arith) in
    let shape : y * 2 ^ 9 + m * 32 ≡ (y * 16 + m) * 2 ^ 5 = omega arith in
    rw (wide, outer, shape) (bit_or_apart 5 (y * 16 + m) d hd ∙ omega arith)

module _ (C : Type 0) (rtc : Rtc C) where
  -- Whatever the clock answers, the date has a year from 1980 on, a month and a day that is not 0.
  pub clock_get_date-plausible :
      (c : C)
      → let d = clock_get_date rtc c in
        (1980 ≤ d.year) × (1 ≤ d.month) × (d.month ≤ 12) × (1 ≤ d.day) × (d.day < 256)
  unfolding clock_get_date checked bcd2bin
  clock_get_date-plausible c = ground arith

  -- The year, month and day are read back from the words that 2Bh writes.
  get_date_back :
      (c : C) (d : Date)
      → IsDosDate d
      → rtc.date c ≡ some (date_cx d.year, date_dx d.month d.day)
      → clock_get_date rtc c ≡ d
  unfolding clock_get_date
  get_date_back c d v e = rw e (ap checked (raw-eq d v) ∙ checked-eq d v)

  set_date-eq :
      (c : C) (r : Iregs)
      → IsDosDate (date_of r)
      → f2b_setdate rtc c r
        ≡ (rtc.set_date (date_cx r.cx) (date_dx (high r.dx) (low r.dx)) c, set_al r 0)
  unfolding f2b_setdate
  set_date-eq c r v =
      ground (arith, v.year_from, v.year_to, v.month_from, v.month_to, v.day_from, v.day_to)

  -- With a clock that keeps the date that it is given, after 2Bh with a date from 1980 to 2099, a month
  -- and a day from 1 to 31, AL is 0, and 2Ah answers that date with its weekday in AL.
  pub f2a_getdate-f2b_setdate :
      (c : C) (r q : Iregs)
      → KeepsDate C rtc
      → r.dx < 2 ^ 16
      → IsDosDate (date_of r)
      → ((f2b_setdate rtc c r).1 ≡ set_al r 0)
        × (f2a_getdate rtc (f2b_setdate rtc c r).0 q ≡ record q {
          ax = with_low q.ax (weekday r.cx (high r.dx) (low r.dx));
          cx = r.cx;
          dx = r.dx;
        })
  unfolding f2a_getdate
  f2a_getdate-f2b_setdate c r q keeps small v =
      let d = date_of r in
      let back : clock_get_date rtc (rtc.set_date (date_cx r.cx) (date_dx d.month d.day) c) ≡ d =
        get_date_back _ d v (keeps _ _ c (omega arith) (omega arith)) in
      let day =
        day_of_week_lem r.cx d.month d.day v.year_from (omega (arith, v.year_to)) v.month_from
          v.month_to v.day_from (omega arith) in
      let word : u16 (d.month * 256 + d.day) ≡ r.dx = omega arith in
      rw (set_date-eq c r v) (refl, rw back (rw (day, word) refl))

  -- 2Bh with any other date answers FFh in AL, and leaves the clock as it is.
  pub f2b_setdate-refuses :
      (c : C) (r : Iregs) → (IsDosDate (date_of r) → ⊥) → f2b_setdate rtc c r ≡ (c, set_al r 0xFF)
  unfolding f2b_setdate
  f2b_setdate-refuses c r bad =
      elim (Bool-cases (
        ltb r.cx 1980
        || (ltb 2099 r.cx
            || (high r.dx == 0 || (ltb 12 (high r.dx) || (low r.dx == 0 || ltb 31 (low r.dx))))))) [
              | inl t ↦ rw t refl
              | inr f ↦ absurd (
                  bad (record {
                    year_from = ground arith;
                    year_to = ground arith;
                    month_from = ground arith;
                    month_to = ground arith;
                    day_from = ground arith;
                    day_to = ground arith;
                  }))
            ]

  -- For a date up to 2107 with a day up to 31, the FAT stamp holds its three fields.
  pub clock_dos_date_fields :
      (c : C)
      → (clock_get_date rtc c).year ≤ 2107
      → (clock_get_date rtc c).day ≤ 31
      → let d = clock_get_date rtc c in
        (clock_dos_date rtc c / 512 + 1980 ≡ d.year)
        × (clock_dos_date rtc c / 32 % 16 ≡ d.month)
        × (clock_dos_date rtc c % 32 ≡ d.day)
  unfolding clock_dos_date
  clock_dos_date_fields c ly ld =
      let (y, m1, m12, d1, _) = clock_get_date-plausible c in
      let e =
        stamp_fields ((clock_get_date rtc c).year - 1980) (clock_get_date rtc c).month
          (clock_get_date rtc c).day (omega arith) (omega arith) (omega arith) in
      rw e (omega arith, omega arith, omega arith)
