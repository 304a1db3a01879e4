-- ===== src/Time/Calendar.antt =====
-- What the two loops of the calendar find.
use native.Mathlib.Decide.{ℕ_discrete}
use fat.Shared.{
  Bool, ℕ, zero, suc, ◌+◌, ◌-◌, ◌*◌, ◌≤◌, ◌<◌, ◌≡◌, refl, ap, ◌∙◌, arith, some, List, [], ◌∷◌, ltb,
  ◌==◌, if◌then◌else◌, get_or, All, Bool-cases, inl, inr, true, false, not_ltb→le, ltb→lt, ==_false,
  ◌&&◌,
}
use fat.Time.{
  days_in_month, is_leap, days_in_year, dim, find_year, find_month, add_years, add_months,
}

-- The search for a year ends, with a day of that year, and `add_years` counts the days passed over.
pub record YearFound (fuel day year n d : ℕ) : Type 0 where
  pub found : find_year fuel day year ≡ some (year + n, d)
  pub within : d < days_in_year (year + n)
  pub passed : (s : ℕ) → add_years n year s + d * 86400 ≡ s + day * 86400

days_in_year_pos : (y : ℕ) → 1 ≤ days_in_year y
unfolding days_in_year
days_in_year_pos y = ground arith

pub find_year-YearFound :
    (fuel day year : ℕ) → day < fuel → (n : ℕ) × (d : ℕ) × YearFound fuel day year n d
unfolding find_year add_years
find_year-YearFound zero day year h = absurd (omega arith)
find_year-YearFound (suc fuel) day year h = elim (Bool-cases (ltb day (days_in_year year))) [
  | inl here ↦ (
    0,
    day,
    record {
      found = rw here (ap (λ (y : ℕ). some (y, day)) (omega arith));
      within = rw at_zero (ltb→lt day _ here);
      passed = λ s. refl;
    },
  )
  | inr later ↦
      let (n, d, r) =
        find_year-YearFound fuel (day - days_in_year year) (year + 1)
          (omega (arith, days_in_year_pos year, not_ltb→le day _ later)) in
      (
        suc n,
        d,
        record {
          found = rw (later, r.found) (ap (λ (y : ℕ). some (y, d)) (omega arith));
          within = rw (at_suc n) r.within;
          passed = λ s.
              (r.passed (s + days_in_year year * 86400) ∙ omega (arith, not_ltb→le day _ later));
        },
      )
]
  where
    at_zero : year + 0 ≡ year
    at_zero = omega arith

    at_suc : (n : ℕ) → year + suc n ≡ year + 1 + n
    at_suc n = omega arith

-- Likewise for the month, where the months left hold the day.
span : ℕ → ℕ → ℕ → ℕ
span zero year i = 0
span (suc left) year i = dim year i + span left year (i + 1)

-- The twelve months make up the year.
span_year : (year : ℕ) → span 12 year 1 ≡ days_in_year year
unfolding span dim days_in_year
span_year year = ground arith

pub record MonthFound (left year i day n d : ℕ) : Type 0 where
  pub found : find_month left year i day ≡ (i + n, d)
  pub in_time : n < left
  pub within : d < dim year (i + n)
  pub passed : (s : ℕ) → add_months n year i s + d * 86400 ≡ s + day * 86400

find_month-MonthFound :
    (left year i day : ℕ)
    → day < span left year i
    → (n : ℕ) × (d : ℕ) × MonthFound left year i day n d
unfolding find_month span add_months
find_month-MonthFound zero year i day h = absurd (omega arith)
find_month-MonthFound (suc left) year i day h = elim (Bool-cases (ltb day (dim year i))) [
  | inl here ↦ (
    0,
    day,
    record {
      found = rw here (ap (λ (m : ℕ). (m, day)) (omega arith));
      in_time = omega arith;
      within = rw at_zero (ltb→lt day _ here);
      passed = λ s. refl;
    },
  )
  | inr later ↦
      let (n, d, r) =
        find_month-MonthFound left year (i + 1) (day - dim year i)
          (omega (arith, not_ltb→le day _ later)) in
      (
        suc n,
        d,
        record {
          found = rw (later, r.found) (ap (λ (m : ℕ). (m, d)) (omega arith));
          in_time = omega (arith, r.in_time);
          within = rw (at_suc n) r.within;
          passed = λ s. (r.passed (s + dim year i * 86400) ∙ omega (arith, not_ltb→le day _ later));
        },
      )
]
  where
    at_zero : i + 0 ≡ i
    at_zero = omega arith

    at_suc : (n : ℕ) → i + suc n ≡ i + 1 + n
    at_suc n = omega arith

pub month_of :
    (year day : ℕ) → day < days_in_year year → (n : ℕ) × (d : ℕ) × MonthFound 12 year 1 day n d
month_of year day h = find_month-MonthFound 12 year 1 day (rw (span_year year) h)

table_bound : (xs : List ℕ) (i : ℕ) → All (λ x. x ≤ 31) xs → get_or xs i 0 ≤ 31
table_bound [] i h = omega arith
table_bound (x ∷ xs) zero h = h.0
table_bound (x ∷ xs) (suc i) h = table_bound xs i h.1

pub dim-le : (year i : ℕ) → dim year i ≤ 31
unfolding dim
dim-le year i = elim (ℕ_discrete i 2) [
  | yes e ↦ rw e (february (is_leap year))
  | no e ↦ rw (==_false e) (omega (arith, table_bound days_in_month i (omega arith)))
]
  where
    february : (b : Bool) → 28 + (if (2 == 2) && b then 1 else 0) ≤ 31
    february true = omega arith
    february false = omega arith

add_years-ge : (n i s : ℕ) → s ≤ add_years n i s
unfolding add_years
add_years-ge zero i s = omega arith
add_years-ge (suc n) i s = omega (arith, add_years-ge n (i + 1) (s + days_in_year i * 86400))

-- Later years begin later.
pub add_years_mono : (a b i s : ℕ) → add_years a i s ≤ add_years (a + b) i s
unfolding add_years
add_years_mono zero b i s = add_years-ge (0 + b) i s
add_years_mono (suc a) b i s = rw shift (add_years_mono a b (i + 1) (s + days_in_year i * 86400))
  where
    shift : suc a + b ≡ suc (a + b)
    shift = omega arith
