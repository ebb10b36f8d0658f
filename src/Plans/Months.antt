-- ===== src/Plans/Months.antt =====
-- Adding months to a day: `addMonths` of apps/backend/src/modules/payments/payments.service.ts, with what
-- `setMonth` and `setDate` of the language do to a day that a month does not have.
use finskool_monorepo.Base.{
  ℕ, ◌+◌, ◌-◌, ◌*◌, ◌/◌, ◌%◌, ◌≤◌, ◌<◌, min, ◌≡◌, refl, Bool, true, false, not, ◌&&◌, ◌||◌, ◌==◌,
  leb, if◌then◌else◌, arith, Bool-cases, inl, inr, ==_refl, leb→le,
}
use finskool_monorepo.Plans.{Day}

abbrev pub is_leap : ℕ → Bool
is_leap y = y % 4 == 0 && not (y % 100 == 0) || y % 400 == 0

unfoldable pub days_in_month : ℕ → ℕ → ℕ
days_in_month y m =
    if m == 1
    then (if is_leap y then 29 else 28)
    else if m == 3 || m == 5 || m == 8 || m == 10
    then 30
    else 31

-- A day past the end of its month runs on into the next one.
unfoldable pub roll : ℕ → ℕ → ℕ → Day
unfolding days_in_month
roll y m d =
    if leb d (days_in_month y m)
    then record { year = y; month = m; day = d }
    else if m == 11
    then record { year = y + 1; month = 0; day = d - days_in_month y m }
    else record { year = y; month = m + 1; day = d - days_in_month y m }

unfoldable pub set_month : Day → ℕ → Day
unfolding roll
set_month b m = roll (b.year + m / 12) (m % 12) b.day

-- `setDate(0)`: the last day of the month before.
unfoldable pub set_date_zero : Day → Day
unfolding days_in_month
set_date_zero b =
    if b.month == 0
    then record { year = b.year - 1; month = 11; day = days_in_month (b.year - 1) 11 }
    else record { year = b.year; month = b.month - 1; day = days_in_month b.year (b.month - 1) }

unfoldable pub add_months : Day → ℕ → Day
unfolding set_month set_date_zero
add_months base months =
    let target_month = base.month + months in
    let result = set_month base target_month in
    if result.month == target_month % 12 then result else set_date_zero result

pub record IsDay (b : Day) : Type 0 where
  pub month_in : b.month < 12
  pub day_in : (1 ≤ b.day) × (b.day ≤ days_in_month b.year b.month)

-- The months since year 0.
abbrev pub month_index : Day → ℕ
month_index b = b.year * 12 + b.month

-- Days in the order of the calendar.
abbrev pub day_key : Day → ℕ
day_key b = month_index b * 31 + (b.day - 1)

pub days_in_month_bounds : (y m : ℕ) → (28 ≤ days_in_month y m) × (days_in_month y m ≤ 31)
unfolding days_in_month
days_in_month_bounds y m = ground arith

-- The month that is asked for, with the day kept or, where the month is too short, its last day.
abbrev pub clamped : ℕ → ℕ → ℕ → Day
clamped y m d = record { year = y; month = m; day = min d (days_in_month y m) }

kept_day : (y m d : ℕ) → d ≤ days_in_month y m → roll y m d ≡ clamped y m d
unfolding roll
kept_day y m d h =
    let k : leb d (days_in_month y m) ≡ true = ground arith in
    let e : min d (days_in_month y m) ≡ d = omega arith in rw (k, e) refl

december : (y m : ℕ) → (m == 11) ≡ true → days_in_month y m ≡ 31
unfolding days_in_month
december y m h = ground arith

-- A day that the month does not have is put back to its last one.
put_back :
    (y m d : ℕ)
    → m < 12
    → d ≤ 31
    → days_in_month y m < d
    → set_date_zero (roll y m d) ≡ clamped y m d
unfolding roll set_date_zero
put_back y m d hm hd h =
    let over : leb d (days_in_month y m) ≡ false = ground arith in
    let last : min d (days_in_month y m) ≡ days_in_month y m = omega arith in
    elim (Bool-cases (m == 11)) [
      | inl p ↦ let no : ⊥ = omega (arith, december y m p, hd, h) in elim no [ ]
      | inr n ↦
          let next : (m + 1 == 0) ≡ false = ground arith in
          let back : m + 1 - 1 ≡ m = omega arith in rw (over, n, next, back, last) refl
    ]

rolled_month :
    (y m d : ℕ) → m < 12 → d ≤ 31 → days_in_month y m < d → ((roll y m d).month == m) ≡ false
unfolding roll
rolled_month y m d hm hd h =
    let over : leb d (days_in_month y m) ≡ false = ground arith in
    elim (Bool-cases (m == 11)) [
      | inl p ↦ let no : ⊥ = omega (arith, december y m p, hd, h) in elim no [ ]
      | inr n ↦ rw (over, n) (ground arith)
    ]

to_month :
    (y m d : ℕ)
    → m < 12
    → d ≤ 31
    → (if (roll y m d).month == m then roll y m d else set_date_zero (roll y m d)) ≡ clamped y m d
to_month y m d hm hd = elim (Bool-cases (leb d (days_in_month y m))) [
  | inl p ↦ let e = kept_day y m d (leb→le d (days_in_month y m) p) in rw (e, ==_refl m) refl
  | inr n ↦
      let h : days_in_month y m < d = ground (arith, n) in
      rw (rolled_month y m d hm hd h) (put_back y m d hm hd h)
]

-- Adding months to a day of the calendar gives the month that is so many months later, and in it the same
-- day, or the last one where that month is shorter.
pub add_months_lem :
    (base : Day) (months : ℕ)
    → IsDay base
    → add_months base months
      ≡ clamped (base.year + (base.month + months) / 12) ((base.month + months) % 12) base.day
unfolding add_months set_month
add_months_lem base months h =
    to_month (base.year + (base.month + months) / 12) ((base.month + months) % 12) base.day
      (omega arith) (omega (arith, h.day_in, days_in_month_bounds base.year base.month))

pub add_months-IsDay : (base : Day) (months : ℕ) → IsDay base → IsDay (add_months base months)
add_months-IsDay base months h =
    let y = base.year + (base.month + months) / 12 in
    let m = (base.month + months) % 12 in
    rw (add_months_lem base months h) (record {
      month_in = omega arith;
      day_in = omega (arith, h.day_in, days_in_month_bounds y m);
    })

pub month_index-add_months :
    (base : Day) (months : ℕ)
    → IsDay base
    → month_index (add_months base months) ≡ month_index base + months
month_index-add_months base months h = rw (add_months_lem base months h) (omega arith)

-- More months end later.
pub add_months_later :
    (base : Day) (months : ℕ)
    → IsDay base
    → 1 ≤ months
    → day_key base < day_key (add_months base months)
add_months_later base months h more = omega (
  arith,
  month_index-add_months base months h,
  (add_months-IsDay base months h).day_in,
  h.day_in,
  days_in_month_bounds base.year base.month,
  more,
)
