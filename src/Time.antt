-- ===== src/Time.antt =====
-- The date and time conversions of fat32_util.c. `int` and `time_t` hold every value that occurs, so
-- they are plain numbers, and a `tv_sec` before 1970 counts as 0 (both are clamped). Each output is
-- computed; a caller that passes NULL ignores it.
pub mod Calendar
pub mod RoundTrip
use Prim.Native.Nat.{bit_or}
use fat.Shared.{
  ℕ, zero, suc, ◌+◌, ◌-◌, ◌*◌, ◌/◌, ◌%◌, ◌^◌, Bool, true, false, not, ◌&&◌, ◌||◌, Option, none,
  some, List, [], ◌∷◌, ltb, ◌==◌, if◌then◌else◌, u8, u16, ◌<<<◌, ◌>>>◌, low_bits, get_or,
}

-- timespec_t
pub record Timespec : Type 0 where
  pub tv_sec : ℕ
  pub tv_nsec : ℕ

-- What fat32_unix_to_fat_time stores.
pub record FatTime : Type 0 where
  pub date : ℕ
  pub time : ℕ
  pub tenths : ℕ

abbrev pub epoch_1980 : ℕ
epoch_1980 = 315532800

abbrev pub days_in_month : List ℕ
days_in_month = 0 ∷ 31 ∷ 28 ∷ 31 ∷ 30 ∷ 31 ∷ 30 ∷ 31 ∷ 31 ∷ 30 ∷ 31 ∷ 30 ∷ 31 ∷ []

unfoldable pub is_leap : ℕ → Bool
is_leap year = (year % 4 == 0) && (not (year % 100 == 0) || (year % 400 == 0))

unfoldable pub days_in_year : ℕ → ℕ
days_in_year year = if is_leap year then 366 else 365

-- `int dim = days_in_month[i]; if (i == 2 && is_leap(year)) dim++;`
unfoldable pub dim : ℕ → ℕ → ℕ
dim year i = get_or days_in_month i 0 + (if (i == 2) && is_leap year then 1 else 0)

-- The loop over the years: the year, and the days left of it. `none`: out of fuel.
unfoldable pub find_year : ℕ → ℕ → ℕ → Option (ℕ × ℕ)
find_year zero day year = none
find_year (suc fuel) day year =
    let rest = find_year fuel (day - days_in_year year) (year + 1) in
    if ltb day (days_in_year year) then some (year, day) else rest

-- The loop over the months, from month `i` on, `left` of them.
unfoldable pub find_month : ℕ → ℕ → ℕ → ℕ → ℕ × ℕ
find_month zero year i day = (i, day)
find_month (suc left) year i day =
    let rest = find_month left year (i + 1) (day - dim year i) in
    if ltb day (dim year i) then (i, day) else rest

-- The packing of the results; `(year - 1980) << 9` loses its upper bits in the uint16_t.
unfoldable pub pack_date : ℕ → ℕ → ℕ → ℕ
pack_date year month day = u16 (bit_or (bit_or ((year - 1980) <<< 9) (month <<< 5)) day)

unfoldable pub pack_time : ℕ → ℕ → ℕ → ℕ
pack_time hour minute sec = u16 (bit_or (bit_or (hour <<< 11) (minute <<< 5)) (sec / 2))

-- fat32_unix_to_fat_time
unfoldable pub unix_to_fat_time : Timespec → Option FatTime
unix_to_fat_time ts =
    let seconds = ts.tv_sec - epoch_1980 in
    let sec = seconds % 60 in
    let day = seconds / 86400 in
    let dated : Option FatTime = elim (find_year (suc day) day 1980) [
      | none ↦ none
      | some (year, day_of_year) ↦
          let (month, rest) = find_month 12 year 1 day_of_year in
          some (record {
            date = pack_date year month (rest + 1);
            time = pack_time (seconds / 3600 % 24) (seconds / 60 % 60) sec;
            tenths = u8 (ts.tv_nsec / 10000000 + sec % 2 * 100);
          })
    ] in
    if ltb ts.tv_sec epoch_1980
    then some (record { date = bit_or (1 <<< 5) 1; time = 0; tenths = 0 })
    else dated

-- The loops of fat32_fat_to_unix_time that add up whole years and whole months.
unfoldable pub add_years : ℕ → ℕ → ℕ → ℕ
add_years zero i seconds = seconds
add_years (suc left) i seconds = add_years left (i + 1) (seconds + days_in_year i * 86400)

unfoldable pub add_months : ℕ → ℕ → ℕ → ℕ → ℕ
add_months zero year i seconds = seconds
add_months (suc left) year i seconds = add_months left year (i + 1) (seconds + dim year i * 86400)

-- fat32_fat_to_unix_time
unfoldable pub fat_to_unix_time : ℕ → ℕ → ℕ → Timespec
fat_to_unix_time date time tenths0 =
    let year = 1980 + low_bits (date >>> 9) 7 in
    let month0 = low_bits (date >>> 5) 4 in
    let day0 = low_bits date 5 in
    let hour = low_bits (time >>> 11) 5 in
    let minute = low_bits (time >>> 5) 6 in
    let tenths = if ltb 199 tenths0 then 199 else tenths0 in
    let sec = low_bits time 5 * 2 + tenths / 100 in
    let month1 = if ltb month0 1 then 1 else month0 in
    let month = if ltb 12 month1 then 12 else month1 in
    let day = if ltb day0 1 then 1 else day0 in
    let years = add_years (year - 1980) 1980 0 in
    let months = add_months (month - 1) year 1 years in
    record {
      tv_sec = months + (day - 1) * 86400 + (hour * 3600 + minute * 60 + sec) + epoch_1980;
      tv_nsec = tenths % 100 * 10000000;
    }
