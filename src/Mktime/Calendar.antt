-- ===== src/Mktime/Calendar.antt =====
-- kernel_mktime against the calendar: days counted one year and one month at a time.
use linux_0_1_1_comment.Prelude.{
  ltb, ◌==◌, ◌=/=◌, if◌then◌else◌, ltb→lt, ==_iff, holds_up_to, holds_up_to_at, ℕ, zero, suc, ◌+◌,
  ◌-◌, ◌*◌, ◌/◌, ◌%◌, ◌^◌, ◌≤◌, ◌<◌, ◌≡◌, refl, Bool, true, false, not, ◌&&◌, ◌||◌, arith,
}
use linux_0_1_1_comment.Mktime.{minute, hour, day, year, month, Tm, kernel_mktime}
use linux_0_1_1_comment.Word.{add, sub, mul, slt, sdiv, smod}

abbrev pub is_leap : ℕ → Bool
is_leap y = y % 4 == 0

abbrev pub days_in_year : ℕ → ℕ
days_in_year y = if is_leap y then 366 else 365

-- Days from 1 January 1970 to 1 January of 1970 + n.
unfoldable pub days_to_year : ℕ → ℕ
days_to_year zero = 0
days_to_year (suc n) = days_to_year n + days_in_year (1970 + n)

-- The length of month `m` (0 is January).
unfoldable pub days_in_month : Bool → ℕ → ℕ
days_in_month leap m =
    if m == 1
    then (if leap then 29 else 28)
    else (if (m == 3) || (m == 5) || (m == 8) || (m == 10) then 30 else 31)

-- Days of a year before month `m`.
unfoldable pub days_to_month : Bool → ℕ → ℕ
days_to_month leap zero = 0
days_to_month leap (suc m) = days_to_month leap m + days_in_month leap m

-- A moment between 1970 and 2037, years counted from 1900.
pub record ValidTm (tm : Tm) : Type 0 where
  pub year_from : 70 ≤ tm.tm_year
  pub year_to : tm.tm_year ≤ 137
  pub mon : tm.tm_mon < 12
  pub mday_from : 1 ≤ tm.tm_mday
  pub mday_to : tm.tm_mday ≤ days_in_month (is_leap (1900 + tm.tm_year)) tm.tm_mon
  pub hours : tm.tm_hour < 24
  pub mins : tm.tm_min < 60
  pub secs : tm.tm_sec < 60

abbrev pub seconds_since_epoch : Tm → ℕ
seconds_since_epoch tm =
    (days_to_year (tm.tm_year - 70)
        + days_to_month (is_leap (1900 + tm.tm_year)) tm.tm_mon
        + (tm.tm_mday - 1))
      * 86400
    + tm.tm_hour * 3600
    + tm.tm_min * 60
    + tm.tm_sec

days_to_year-closed : (n : ℕ) → days_to_year n ≡ 365 * n + (n + 1) / 4
unfolding days_to_year
days_to_year-closed zero = refl
days_to_year-closed (suc n) = ground (arith, days_to_year-closed n)

-- The table, less a day after February of a common year, is the sum of the months before.
abbrev common_day : Bool → ℕ → ℕ
common_day leap m = if ltb 1 m && not leap then 1 else 0

month_table :
    (leap : Bool)
    → holds_up_to (λ m. month m == (days_to_month leap m + common_day leap m) * 86400) 12 ≡ true
unfolding holds_up_to month days_to_month days_in_month
month_table true = refl
month_table false = refl

month-days_to_month :
    (leap : Bool) (m : ℕ) → m < 12 → month m ≡ (days_to_month leap m + common_day leap m) * 86400
month-days_to_month leap m h = (==_iff _ _).0 (holds_up_to_at _ 12 m h (month_table leap))

days_to_month_table :
    (leap : Bool)
    → holds_up_to (λ m. ltb (days_to_month leap m + days_in_month leap m) 367) 12 ≡ true
unfolding holds_up_to days_to_month days_in_month
days_to_month_table true = refl
days_to_month_table false = refl

days_bound : (leap : Bool) (m : ℕ) → m < 12 → days_to_month leap m + days_in_month leap m < 367
days_bound leap m h = ltb→lt _ _ (holds_up_to_at _ 12 m h (days_to_month_table leap))

year_word : (y : ℕ) → 70 ≤ y → y ≤ 137 → sub y 70 ≡ y - 70
unfolding sub
year_word y lo hi = omega arith

leap_days : (y : ℕ) → y ≤ 67 → sdiv (add y 1) 4 ≡ (y + 1) / 4
unfolding sdiv add
leap_days y h = ground arith

leap_test : (y : ℕ) → y ≤ 67 → (smod (add y 2) 4 =/= 0) ≡ not (is_leap (1970 + y))
unfolding smod add
leap_test y h = ground arith

after_february : (m : ℕ) → m < 12 → slt 1 m ≡ ltb 1 m
after_february m h = ground arith

-- The additions of kernel_mktime, when none of them wraps.
module _ (y dm m : ℕ) (tm : Tm) (small : y ≤ 67) (first : 1 ≤ tm.tm_mday)
    (days : dm + tm.tm_mday ≤ 367) (hours : tm.tm_hour < 24) (mins : tm.tm_min < 60)
    (secs : tm.tm_sec < 60) where
  start : ℕ
  start = 365 * y + (y + 1) / 4

  total : ℕ
  unfolding start
  total = (start + dm + (tm.tm_mday - 1)) * 86400 + tm.tm_hour * 3600 + tm.tm_min * 60 + tm.tm_sec

  adjusted :
      (late : Bool)
      → m ≡ (dm + (if late then 1 else 0)) * 86400
      → (if late
          then sub (add (add (mul year y) (mul day ((y + 1) / 4))) m) day
          else add (add (mul year y) (mul day ((y + 1) / 4))) m)
        ≡ (start + dm) * 86400
  unfolding sub add mul start
  adjusted true e = omega arith
  adjusted false e = omega arith

  assembled :
      add
        (add
          (add (add ((start + dm) * 86400) (mul day (sub tm.tm_mday 1))) (mul hour tm.tm_hour))
          (mul minute tm.tm_min))
        tm.tm_sec
      ≡ total
  unfolding add mul sub total
  assembled = omega arith

  total_bound : total < 2 ^ 31
  unfolding total
  total_bound = omega arith

-- For a date from 1970 to 2037, kernel_mktime gives the seconds since the epoch, counted year by
-- year and month by month, and they fit a `long`.
pub kernel_mktime-seconds :
    (tm : Tm)
    → ValidTm tm
    → (kernel_mktime tm ≡ seconds_since_epoch tm) × (seconds_since_epoch tm < 2 ^ 31)
unfolding kernel_mktime total
kernel_mktime-seconds tm v =
    let leap = is_leap (1900 + tm.tm_year) in
    let bound = days_bound leap tm.tm_mon v.mon in
    let table = month-days_to_month leap tm.tm_mon v.mon in
    let years = days_to_year-closed (tm.tm_year - 70) in
    let same : 1970 + (tm.tm_year - 70) ≡ 1900 + tm.tm_year = omega (arith, v.year_from) in
    let y = tm.tm_year - 70 in
    let dm = days_to_month leap tm.tm_mon in
    let small : y ≤ 67 = omega (arith, v.year_to) in
    let days : dm + tm.tm_mday ≤ 367 = omega (arith, v.mday_to) in
    let adj =
      adjusted y dm (month tm.tm_mon) tm small v.mday_from days v.hours v.mins v.secs
        (ltb 1 tm.tm_mon && not leap) table in
    rw
      (
        year_word tm.tm_year v.year_from v.year_to,
        leap_days y small,
        leap_test y small,
        after_february tm.tm_mon v.mon,
        same,
        years,
        adj,
      )
      (
        assembled y dm (month tm.tm_mon) tm small v.mday_from days v.hours v.mins v.secs,
        total_bound y dm (month tm.tm_mon) tm small v.mday_from days v.hours v.mins v.secs,
      )
