-- ===== src/Time/RoundTrip.antt =====
-- From a UNIX time to the fields on disk and back.
use fat.Shared.{
  Bool-cases, inl, inr, ltb, ℕ, suc, ◌+◌, ◌-◌, ◌*◌, ◌/◌, ◌%◌, ◌^◌, ◌≤◌, ◌<◌, ◌≡◌, refl, ◌∙◌, arith,
  some, le→not_ltb, u8,
}
use native.Mathlib.Decide.{dec_lt}
use fat.Shared.Bits.{bit_or-disjoint}
use fat.Time.{
  Timespec, FatTime, epoch_1980, days_in_year, pack_date, pack_time, unix_to_fat_time, is_leap,
  add_years, add_months, fat_to_unix_time,
}
use fat.Time.Calendar.{YearFound, MonthFound, find_year-YearFound, month_of, dim-le, add_years_mono}

pack_date-sum :
    (n m d : ℕ) → n < 128 → m < 16 → d < 32 → pack_date (1980 + n) m d ≡ n * 512 + m * 32 + d
unfolding pack_date
pack_date-sum n m d hn hm hd =
    rw
      (
        since,
        bit_or-disjoint 9 n (m * 32) (omega arith),
        regroup,
        bit_or-disjoint 5 (n * 16 + m) d (omega arith),
      )
      (omega arith)
  where
    since : 1980 + n - 1980 ≡ n
    since = omega arith

    regroup : n * 2 ^ 9 + m * 32 ≡ (n * 16 + m) * 2 ^ 5
    regroup = omega arith

pack_time-sum : (h m s : ℕ) → h < 24 → m < 60 → s < 60 → pack_time h m s ≡ h * 2048 + m * 32 + s / 2
unfolding pack_time
pack_time-sum h m s hh hm hs =
    rw
      (
        bit_or-disjoint 11 h (m * 32) (omega arith),
        regroup,
        bit_or-disjoint 5 (h * 64 + m) (s / 2) (omega arith),
      )
      (omega arith)
  where
    regroup : h * 2 ^ 11 + m * 32 ≡ (h * 64 + m) * 2 ^ 5
    regroup = omega arith

-- The last second of 2107, after which the seven bits of the year no longer suffice.
abbrev pub end_of_2107 : ℕ
end_of_2107 = 4354819199

-- 1980 to 2107 are 128 years.
eras : add_years 128 1980 0 ≡ (end_of_2107 + 1 - epoch_1980)
unfolding add_years days_in_year is_leap
eras = refl

-- The year found before the end of 2107 fits seven bits.
year_bound :
    (day n d : ℕ)
    → YearFound (suc day) day 1980 n d
    → day * 86400 < end_of_2107 + 1 - epoch_1980
    → n < 128
year_bound day n d f h = elim (dec_lt n 128) [
  | yes p ↦ p
  | no p ↦
      let split : n ≡ 128 + (n - 128) = omega arith in
      absurd
        (omega (arith, eras, f.passed 0, rw (← split) at (add_years_mono 128 (n - 128) 1980 0)))
]

timespec-eq :
    {a b c d : ℕ}
    → a ≡ c
    → b ≡ d
    → ◌≡◌ {A = Timespec} (record { tv_sec = a; tv_nsec = b }) (record { tv_sec = c; tv_nsec = d })
timespec-eq p q = λ i. record { tv_sec = p i; tv_nsec = q i }

-- Decoding of fields in their ranges.
unpacked :
    (n m d h i s t : ℕ)
    → n < 128
    → m < 12
    → d < 31
    → h < 24
    → i < 60
    → s < 60
    → t < 200
    → fat_to_unix_time (n * 512 + (1 + m) * 32 + (d + 1)) (h * 2048 + i * 32 + s / 2) t ≡ record {
      tv_sec =
          add_months m (1980 + n) 1 (add_years n 1980 0)
          + d * 86400
          + (h * 3600 + i * 60 + (s / 2 * 2 + t / 100))
          + epoch_1980;
      tv_nsec = t % 100 * 10000000;
    }
unfolding fat_to_unix_time
unpacked n m d h i s t hn hm hd hh hi hs ht = rw (
  year_is,
  month_is,
  day_is,
  hour_is,
  minute_is,
  second_is,
  le→not_ltb 199 t (omega arith),
  le→not_ltb (1 + m) 1 (omega arith),
  le→not_ltb 12 (1 + m) (omega arith),
  le→not_ltb (d + 1) 1 (omega arith),
  years,
  months,
  days,
)
  where
    year_is : (n * 512 + (1 + m) * 32 + (d + 1)) / 512 % 128 ≡ n
    year_is = omega arith

    month_is : (n * 512 + (1 + m) * 32 + (d + 1)) / 32 % 16 ≡ 1 + m
    month_is = omega arith

    day_is : (n * 512 + (1 + m) * 32 + (d + 1)) % 32 ≡ d + 1
    day_is = omega arith

    hour_is : (h * 2048 + i * 32 + s / 2) / 2048 % 32 ≡ h
    hour_is = omega arith

    minute_is : (h * 2048 + i * 32 + s / 2) / 32 % 64 ≡ i
    minute_is = omega arith

    second_is : (h * 2048 + i * 32 + s / 2) % 32 ≡ s / 2
    second_is = omega arith

    years : 1980 + n - 1980 ≡ n
    years = omega arith

    months : 1 + m - 1 ≡ m
    months = omega arith

    days : d + 1 - 1 ≡ d
    days = omega arith

-- What the encoder stores, with the loops' results put in.
module _ (ts : Timespec) (after : epoch_1980 ≤ ts.tv_sec) (before : ts.tv_sec ≤ end_of_2107)
    (proper : ts.tv_nsec < 1000000000) where
  abbrev seconds : ℕ
  seconds = ts.tv_sec - epoch_1980

  abbrev stored : ℕ → ℕ → ℕ → FatTime
  stored n m d = record {
    date = n * 512 + (1 + m) * 32 + (d + 1);
    time = seconds / 3600 % 24 * 2048 + seconds / 60 % 60 * 32 + seconds % 60 / 2;
    tenths = ts.tv_nsec / 10000000 + seconds % 60 % 2 * 100;
  }

  encoded :
      (n e m d : ℕ)
      → YearFound (suc (seconds / 86400)) (seconds / 86400) 1980 n e
      → MonthFound 12 (1980 + n) 1 e m d
      → unix_to_fat_time ts ≡ some (stored n m d)
  unfolding unix_to_fat_time
  encoded n e m d f g = rw (
    le→not_ltb ts.tv_sec epoch_1980 after,
    f.found,
    g.found,
    pack_date-sum n (1 + m) (d + 1) (year_bound (seconds / 86400) n e f (omega arith))
        (omega (arith, g.in_time)) (omega (arith, g.within, dim-le (1980 + n) (1 + m))),
    pack_time-sum (seconds / 3600 % 24) (seconds / 60 % 60) (seconds % 60) (omega arith)
        (omega arith) (omega arith),
    no_wrap,
  )
    where
      no_wrap :
          u8 (ts.tv_nsec / 10000000 + seconds % 60 % 2 * 100)
          ≡ ts.tv_nsec / 10000000 + seconds % 60 % 2 * 100
      no_wrap = omega arith

  abbrev back : FatTime → Timespec
  back t = fat_to_unix_time t.date t.time t.tenths

  decoded :
      (n e m d : ℕ)
      → YearFound (suc (seconds / 86400)) (seconds / 86400) 1980 n e
      → MonthFound 12 (1980 + n) 1 e m d
      → back (stored n m d)
        ≡ record { tv_sec = ts.tv_sec; tv_nsec = ts.tv_nsec / 10000000 * 10000000 }
  decoded n e m d f g =
      unpacked n m d (seconds / 3600 % 24) (seconds / 60 % 60) (seconds % 60) _
        (year_bound (seconds / 86400) n e f (omega arith)) g.in_time
        (omega (arith, g.within, dim-le (1980 + n) (1 + m))) (omega arith) (omega arith)
        (omega arith) (omega arith)
      ∙ timespec-eq (omega (arith, f.passed 0, g.passed (add_years n 1980 0))) (omega arith)

-- From 1980 to the end of 2107 the conversion to the fields on disk ends with a value, and converting
-- the fields back gives the same second, and the nanoseconds rounded down to hundredths of a second.
pub fat_to_unix_time-unix_to_fat_time :
    (ts : Timespec)
    → epoch_1980 ≤ ts.tv_sec
    → ts.tv_sec ≤ end_of_2107
    → ts.tv_nsec < 1000000000
    → (t : FatTime) × (unix_to_fat_time ts ≡ some t)
      × (fat_to_unix_time t.date t.time t.tenths
          ≡ record { tv_sec = ts.tv_sec; tv_nsec = ts.tv_nsec / 10000000 * 10000000 })
fat_to_unix_time-unix_to_fat_time ts after before proper =
    let day = (ts.tv_sec - epoch_1980) / 86400 in
    let (n, e, f) = find_year-YearFound (suc day) day 1980 (omega arith) in
    let (m, d, g) = month_of (1980 + n) e f.within in
    (
      stored ts after before proper n m d,
      encoded ts after before proper n e m d f g,
      decoded ts after before proper n e m d f g,
    )

-- The conversion to the fields on disk ends with a value, whatever the time.
pub unix_to_fat_time-total : (ts : Timespec) → (t : FatTime) × (unix_to_fat_time ts ≡ some t)
unfolding unix_to_fat_time
unix_to_fat_time-total ts = elim (Bool-cases (ltb ts.tv_sec epoch_1980)) [
  | inl p ↦ rw p (_, refl)
  | inr p ↦
      let day = (ts.tv_sec - epoch_1980) / 86400 in
      let (n, e, f) = find_year-YearFound (suc day) day 1980 (omega arith) in
      rw (p, f.found) (_, refl)
]
