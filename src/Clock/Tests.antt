-- ===== src/Clock/Tests.antt =====
-- src/kernel/clock.c: runs at dates and times, and the theorems at them.
use liberdos.Base.{ℕ, ◌≡◌, refl, some, arith}
use liberdos.Base.Word.{with_low}
use liberdos.Machine.{Iregs, set_al}
use liberdos.Clock.{
  Rtc, bcd2bin, checked, clock_get_date, clock_get_time, day_of_week, f2a_getdate, f2b_setdate,
}
use liberdos.Clock.Weekday.{weekday, day_of_week_lem}
use liberdos.Clock.Dates.{f2a_getdate-f2b_setdate}

-- A clock that keeps two pairs of words: the time and the date.
abbrev Words : Type 0
Words = (ℕ × ℕ) × (ℕ × ℕ)

abbrev test_rtc : Rtc Words
test_rtc = record {
  time = λ c. some c.0;
  date = λ c. some c.1;
  set_time = λ cx dx c. ((cx, dx), c.1);
  set_date = λ cx dx c. (c.0, (cx, dx));
}

-- 13:37:42 on 29 February 2024, in BCD.
abbrev leap_day : Words
leap_day = ((0x1337, 0x4200), (0x2024, 0x0229))

abbrev regs : ℕ → ℕ → Iregs
regs cx dx = record {
  ax = 0x2B00;
  bx = 0;
  cx = cx;
  dx = dx;
  si = 0;
  di = 0;
  bp = 0;
  ds = 0;
  es = 0;
  ip = 0;
  cs = 0;
  flags = 0;
}

leap_day_was_thursday : day_of_week 2024 2 29 ≡ 4
unfolding day_of_week
leap_day_was_thursday = refl

stopped_clock :
    clock_get_date test_rtc ((0, 0), (0, 0)) ≡ record { year = 1980; month = 1; day = 1 }
unfolding clock_get_date checked bcd2bin
stopped_clock = refl

day_of_week_lem_example : day_of_week 2024 2 29 ≡ weekday 2024 2 29
day_of_week_lem_example =
    day_of_week_lem 2024 2 29 (omega arith) (omega arith) (omega arith) (omega arith) (omega arith)
      (omega arith)

-- 24 December 1999.
abbrev set_xmas : Iregs
set_xmas = regs 1999 0x0C18

f2a_getdate-f2b_setdate_example :
    ((f2b_setdate test_rtc leap_day set_xmas).1 ≡ set_al set_xmas 0)
    × (f2a_getdate test_rtc (f2b_setdate test_rtc leap_day set_xmas).0 (regs 0 0)
        ≡ record (regs 0 0) { ax = with_low 0x2B00 (weekday 1999 12 24); cx = 1999; dx = 0x0C18 })
f2a_getdate-f2b_setdate_example =
    f2a_getdate-f2b_setdate Words test_rtc leap_day set_xmas (regs 0 0) (λ cx dx c h k. refl)
      (omega arith)
      (record {
        year_from = omega arith;
        year_to = omega arith;
        month_from = omega arith;
        month_to = omega arith;
        day_from = omega arith;
        day_to = omega arith;
      })

leap_day_date : clock_get_date test_rtc leap_day ≡ record { year = 2024; month = 2; day = 29 }
unfolding clock_get_date checked bcd2bin
leap_day_date = refl

-- 12:34:56.
abbrev set_noon : Iregs
set_noon = regs 0x0C22 0x3800

leap_day_time : clock_get_time test_rtc leap_day ≡ record { hour = 13; min = 37; sec = 42 }
unfolding clock_get_time bcd2bin
leap_day_time = refl
