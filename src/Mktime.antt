-- ===== src/Mktime.antt =====
-- kernel/mktime.c: kernel_mktime, on the words of Word.antt.
pub mod Calendar
use linux_0_1_1_comment.Prelude.{◌=/=◌, if◌then◌else◌, get_or, ℕ, ◌*◌, ◌&&◌, [], ◌∷◌}
use linux_0_1_1_comment.Word.{add, sub, mul, slt, sdiv, smod}

abbrev pub minute : ℕ
minute = 60

abbrev pub hour : ℕ
hour = 60 * minute

abbrev pub day : ℕ
day = 24 * hour

abbrev pub year : ℕ
year = 365 * day

-- The seconds before each month of a leap year. An index past the table reads 0 here; the callers
-- keep `tm_mon` below 12.
unfoldable pub month : ℕ → ℕ
month m =
    get_or
      (0
        ∷ day * 31
        ∷ day * 60
        ∷ day * 91
        ∷ day * 121
        ∷ day * 152
        ∷ day * 182
        ∷ day * 213
        ∷ day * 244
        ∷ day * 274
        ∷ day * 305
        ∷ day * 335
        ∷ [])
      m 0

-- struct tm, as far as it is read
pub record Tm : Type 0 where
  pub tm_sec : ℕ
  pub tm_min : ℕ
  pub tm_hour : ℕ
  pub tm_mday : ℕ
  pub tm_mon : ℕ
  pub tm_year : ℕ

unfoldable pub kernel_mktime : Tm → ℕ
kernel_mktime tm =
    let y = sub tm.tm_year 70 in
    let res = add (mul year y) (mul day (sdiv (add y 1) 4)) in
    let res = add res (month tm.tm_mon) in
    let res = if slt 1 tm.tm_mon && (smod (add y 2) 4 =/= 0) then sub res day else res in
    let res = add res (mul day (sub tm.tm_mday 1)) in
    let res = add res (mul hour tm.tm_hour) in
    let res = add res (mul minute tm.tm_min) in add res tm.tm_sec
