-- ===== src/Clock/Weekday.antt =====
-- src/kernel/clock.c: `day_of_week` against the count of days of the calendar.
use liberdos.Base.{
  ℕ, zero, suc, ◌+◌, ◌-◌, ◌*◌, ◌/◌, ◌%◌, ◌^◌, ◌≤◌, ◌<◌, ◌≡◌, Bool, not, ◌&&◌, ◌||◌, refl, ap, ◌∙◌,
  subst, inl, inr, Bool-cases, arith, ltb, ◌==◌, if◌then◌else◌,
}
use liberdos.Base.Word.{u16}
use liberdos.Clock.{month_shift, day_of_week}

-- The Gregorian rule.
abbrev pub is_leap : ℕ → Bool
is_leap y = y % 4 == 0 && (not (y % 100 == 0) || y % 400 == 0)

abbrev pub year_days : ℕ → ℕ
year_days y = if is_leap y then 366 else 365

abbrev pub month_days : ℕ → ℕ → ℕ
month_days y m =
    if m == 2
    then (if is_leap y then 29 else 28)
    else if m == 4 || (m == 6 || (m == 9 || m == 11))
    then 30
    else 31

-- The days from 1 January 1980 to 1 January of the year `n` years on, and from there to the first of
-- the month `m + 1`.
unfoldable pub days_to_year : ℕ → ℕ
days_to_year zero = 0
days_to_year (suc n) = days_to_year n + year_days (1980 + n)

unfoldable pub days_to_month : ℕ → ℕ → ℕ
days_to_month y zero = 0
days_to_month y (suc m) = days_to_month y m + month_days y (suc m)

-- 1 January 1980 was a Tuesday; 0 is Sunday.
abbrev pub weekday : ℕ → ℕ → ℕ → ℕ
weekday y m d = (2 + days_to_year (y - 1980) + days_to_month y (m - 1) + (d - 1)) % 7

-- The leap days up to the end of a year.
abbrev leaps : ℕ → ℕ
leaps y = y / 4 + y / 400 - y / 100

leap_step : (y : ℕ) → leaps (suc y) ≡ leaps y + (if is_leap (suc y) then 1 else 0)
leap_step y = ground arith

year_lem : (n : ℕ) → days_to_year n ≡ 365 * n + leaps (1979 + n) - 479
unfolding days_to_year
year_lem zero = refl
year_lem (suc n) = ground (arith, year_lem n, leap_step (1979 + n), leaps_from n)
  where
    leaps_from : (n : ℕ) → 479 ≤ leaps (1979 + n)
    leaps_from n = omega arith

-- The table of shifts, against the lengths of the months before.
month_lem :
    (y m : ℕ)
    → 1 ≤ m
    → m ≤ 12
    → (days_to_month y (m - 1) + 6) % 7
      ≡ (month_shift m + (if ltb m 3 then 6 else if is_leap y then 1 else 0)) % 7
unfolding days_to_month
month_lem y zero lo hi = absurd (omega arith)
month_lem y (suc zero) lo hi = ground arith
month_lem y (suc (suc zero)) lo hi = ground arith
month_lem y (suc (suc (suc zero))) lo hi = ground arith
month_lem y (suc (suc (suc (suc zero)))) lo hi = ground arith
month_lem y (suc (suc (suc (suc (suc zero))))) lo hi = ground arith
month_lem y (suc (suc (suc (suc (suc (suc zero)))))) lo hi = ground arith
month_lem y (suc (suc (suc (suc (suc (suc (suc zero))))))) lo hi = ground arith
month_lem y (suc (suc (suc (suc (suc (suc (suc (suc zero)))))))) lo hi = ground arith
month_lem y (suc (suc (suc (suc (suc (suc (suc (suc (suc zero))))))))) lo hi = ground arith
month_lem y (suc (suc (suc (suc (suc (suc (suc (suc (suc (suc zero)))))))))) lo hi = ground arith
month_lem y (suc (suc (suc (suc (suc (suc (suc (suc (suc (suc (suc zero))))))))))) lo hi =
    ground arith
month_lem y (suc (suc (suc (suc (suc (suc (suc (suc (suc (suc (suc (suc zero)))))))))))) lo hi =
    ground arith
month_lem y (suc (suc (suc (suc (suc (suc (suc (suc (suc (suc (suc (suc (suc m))))))))))))) lo hi =
    absurd (omega arith)

-- The sum of `day_of_week` does not wrap.
sum_lem :
    (z s d : ℕ)
    → z ≤ 50000
    → s < 7
    → d < 256
    → u16 (z + z / 4 + (2 ^ 16 - z / 100) + z / 400 + s + d) ≡ z + leaps z + s + d
sum_lem z s d hi hs hd = omega arith

-- The two counts of days agree modulo 7, for the months from March on and for the two before.
late_lem :
    (y s days l0 l1 L n d : ℕ)
    → 1980 ≤ y
    → (days + 6) % 7 ≡ (s + L) % 7
    → l1 ≡ l0 + L
    → 479 ≤ l0
    → n ≡ 365 * (y - 1980) + l0 - 479
    → 1 ≤ d
    → (y + l1 + s + d) % 7 ≡ (2 + n + days + (d - 1)) % 7
late_lem y s days l0 l1 L n d lo e el pos en hd = omega arith

early_lem :
    (y s days l0 n d : ℕ)
    → 1980 ≤ y
    → (days + 6) % 7 ≡ (s + 6) % 7
    → 479 ≤ l0
    → n ≡ 365 * (y - 1980) + l0 - 479
    → 1 ≤ d
    → (y - 1 + l0 + s + d) % 7 ≡ (2 + n + days + (d - 1)) % 7
early_lem y s days l0 n d lo e pos en hd = omega arith

shift_small : (m : ℕ) → month_shift m < 7
shift_small m = ground arith

year_at : (y : ℕ) → 1980 ≤ y → days_to_year (y - 1980) ≡ 365 * (y - 1980) + leaps (y - 1) - 479
year_at y lo =
    let e : 1979 + (y - 1980) ≡ y - 1 = omega arith in
    year_lem (y - 1980) ∙ ap (λ k. 365 * (y - 1980) + leaps k - 479) e

leap_at : (y : ℕ) → 1980 ≤ y → leaps y ≡ leaps (y - 1) + (if is_leap y then 1 else 0)
leap_at y lo =
    subst (λ k. leaps k ≡ leaps (y - 1) + (if is_leap k then 1 else 0)) (omega arith)
      (leap_step (y - 1))

leaps_from : (y : ℕ) → 1979 ≤ y → 479 ≤ leaps y
leaps_from y h = omega arith

-- For every date from 1980 to 50000 whose day fits a byte, Sakamoto's formula gives the weekday that
-- the count of days from Tuesday, 1 January 1980, leads to.
pub day_of_week_lem :
    (y m d : ℕ)
    → 1980 ≤ y
    → y ≤ 50000
    → 1 ≤ m
    → m ≤ 12
    → 1 ≤ d
    → d < 256
    → day_of_week y m d ≡ weekday y m d
unfolding day_of_week
day_of_week_lem y m d lo hi m1 m12 d1 d256 = elim (Bool-cases (ltb m 3)) [
  | inl early ↦
      let e : (days_to_month y (m - 1) + 6) % 7 ≡ (month_shift m + 6) % 7 =
        subst
          (λ b.
            (days_to_month y (m - 1) + 6) % 7
            ≡ (month_shift m + (if b then 6 else if is_leap y then 1 else 0)) % 7)
          early (month_lem y m m1 m12) in
      let z : u16 (y + (2 ^ 16 - 1)) ≡ y - 1 = omega arith in
      rw (early, z, sum_lem (y - 1) (month_shift m) d (omega arith) (shift_small m) d256)
        (early_lem y (month_shift m) (days_to_month y (m - 1)) (leaps (y - 1)) _ d lo e
          (leaps_from (y - 1) (omega arith)) (year_at y lo) d1)
  | inr late ↦
      let e : (days_to_month y (m - 1) + 6) % 7
          ≡ (month_shift m + (if is_leap y then 1 else 0)) % 7 =
        subst
          (λ b.
            (days_to_month y (m - 1) + 6) % 7
            ≡ (month_shift m + (if b then 6 else if is_leap y then 1 else 0)) % 7)
          late (month_lem y m m1 m12) in
      rw (late, sum_lem y (month_shift m) d hi (shift_small m) d256)
        (late_lem y (month_shift m) (days_to_month y (m - 1)) (leaps (y - 1)) (leaps y) _ _ d lo e
          (leap_at y lo) (leaps_from (y - 1) (omega arith)) (year_at y lo) d1)
]
