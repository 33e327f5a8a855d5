-- ===== src/Clock.antt =====
-- src/kernel/clock.c: date and time, INT 21h functions 2Ah to 2Dh over the clock of the BIOS, and the
-- time stamps of the FAT.
pub mod Weekday
pub mod Dates
pub mod Times
mod Tests
use Prim.Native.Nat.{bit_or}
use liberdos.Base.{
  ℕ, ◌+◌, ◌-◌, ◌*◌, ◌/◌, ◌%◌, ◌^◌, Bool, true, false, ◌||◌, Option, none, some, ltb, ◌==◌,
  if◌then◌else◌,
}
use liberdos.Base.Word.{u8, u16, high, low}
use liberdos.Machine.{Ram, peek_word, Iregs, set_al}

-- INT 1Ah over a clock with states `C`: AH=02h and 04h return CX and DX, or `none` with the carry set;
-- AH=03h and 05h set the time and the date.
pub record Rtc (C : Type 0) : Type 0 where
  pub time : C → Option (ℕ × ℕ)
  pub date : C → Option (ℕ × ℕ)
  pub set_time : ℕ → ℕ → C → C
  pub set_date : ℕ → ℕ → C → C

-- The two halves of a reply, each 0 with the carry set.
abbrev pub reply_cx : Option (ℕ × ℕ) → ℕ
reply_cx none = 0
reply_cx (some (cx, dx)) = cx

abbrev pub reply_dx : Option (ℕ × ℕ) → ℕ
reply_dx none = 0
reply_dx (some (cx, dx)) = dx

pub bcd2bin : ℕ → ℕ
bcd2bin b = u8 (b / 16 * 10 + b % 16)

-- `(v / 10) << 4 | v % 10`: the two parts have no bit in common.
pub bin2bcd : ℕ → ℕ
bin2bcd v = u8 (v / 10 * 16 + v % 10)

-- Year, month and day; hour, minute and second.
pub record Date : Type 0 where
  pub year : ℕ
  pub month : ℕ
  pub day : ℕ

pub record Time : Type 0 where
  pub hour : ℕ
  pub min : ℕ
  pub sec : ℕ

-- The check at the end of `clock_get_date`.
checked : Date → Date
checked d =
    if ltb d.year 1980 || (d.month == 0 || (ltb 12 d.month || d.day == 0))
    then record { year = 1980; month = 1; day = 1 }
    else d

pub clock_get_date : {C : Type 0} → Rtc C → C → Date
unfolding bcd2bin checked
clock_get_date rtc c =
    let cx = reply_cx (rtc.date c) in
    let dx = reply_dx (rtc.date c) in
    checked (record {
      year = u16 (bcd2bin (high cx) * 100 + bcd2bin (low cx));
      month = bcd2bin (high dx);
      day = bcd2bin (low dx);
    })

pub clock_get_time : {C : Type 0} → Rtc C → C → Time
unfolding bcd2bin
clock_get_time rtc c =
    let cx = reply_cx (rtc.time c) in
    record {
      hour = bcd2bin (high cx);
      min = bcd2bin (low cx);
      sec = bcd2bin (high (reply_dx (rtc.time c)));
    }

-- The table of `day_of_week`; the months outside it are never asked for.
abbrev pub month_shift : ℕ → ℕ
month_shift m =
    if m == 1
    then 0
    else if m == 2
    then 3
    else if m == 3
    then 2
    else if m == 4
    then 5
    else if m == 5
    then 0
    else if m == 6
    then 3
    else if m == 7
    then 5
    else if m == 8
    then 1
    else if m == 9
    then 4
    else if m == 10
    then 6
    else if m == 11
    then 2
    else 4

pub day_of_week : ℕ → ℕ → ℕ → ℕ
day_of_week y m d =
    let z = if ltb m 3 then u16 (y + (2 ^ 16 - 1)) else y in
    u16 (z + z / 4 + (2 ^ 16 - z / 100) + z / 400 + month_shift m + d) % 7

-- 2Ah and 2Bh.
pub f2a_getdate : {C : Type 0} → Rtc C → C → Iregs → Iregs
unfolding day_of_week
f2a_getdate rtc c r =
    let d = clock_get_date rtc c in
    set_al (record r { cx = d.year; dx = u16 (d.month * 256 + d.day) })
      (day_of_week d.year d.month d.day)

pub f2b_setdate : {C : Type 0} → Rtc C → C → Iregs → C × Iregs
unfolding bin2bcd
f2b_setdate rtc c r =
    let year = r.cx in
    let month = high r.dx in
    let day = low r.dx in
    if ltb year 1980
      || (ltb 2099 year || (month == 0 || (ltb 12 month || (day == 0 || ltb 31 day))))
    then (c, set_al r 0xFF)
    else (
      rtc.set_date (u16 (bin2bcd (u8 (year / 100)) * 256 + bin2bcd (u8 (year % 100))))
          (u16 (bin2bcd month * 256 + bin2bcd day)) c,
      set_al r 0,
    )

-- 2Ch and 2Dh. The hundredths come from the tick count at 40h:6Ch; `ticks * 5` is a u16.
pub f2c_gettime : {C : Type 0} → Rtc C → C → Ram → Iregs → Iregs
f2c_gettime rtc c ram r =
    let t = clock_get_time rtc c in
    record r {
      cx = u16 (t.hour * 256 + t.min);
      dx = u16 (t.sec * 256 + u8 (u16 (peek_word ram 0x40 0x6C * 5) % 100));
    }

pub f2d_settime : {C : Type 0} → Rtc C → C → Iregs → C × Iregs
unfolding bin2bcd
f2d_settime rtc c r =
    let hour = high r.cx in
    let min = low r.cx in
    let sec = high r.dx in
    if ltb 23 hour || (ltb 59 min || ltb 59 sec) then (c, set_al r 0xFF) else (
      rtc.set_time (u16 (bin2bcd hour * 256 + bin2bcd min)) (u16 (bin2bcd sec * 256)) c,
      set_al r 0,
    )

-- The time stamps. The fields are joined by `|`, so bits that run over into the next field are
-- joined to it.
pub clock_dos_date : {C : Type 0} → Rtc C → C → ℕ
clock_dos_date rtc c =
    let d = clock_get_date rtc c in
    bit_or (bit_or (u16 ((d.year - 1980) * 512)) (d.month * 32)) d.day

pub clock_dos_time : {C : Type 0} → Rtc C → C → ℕ
clock_dos_time rtc c =
    let t = clock_get_time rtc c in bit_or (bit_or (u16 (t.hour * 2048)) (t.min * 32)) (t.sec / 2)
