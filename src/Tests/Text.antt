-- ===== src/Tests/Text.antt =====
-- The clock, and the printing of numbers.
use linux_0_1_1_comment.Prelude.{
  length, ℕ, ◌+◌, ◌^◌, ◌≤◌, ◌<◌, ◌≡◌, refl, true, some, List, [], ◌∷◌, ◌++◌, arith,
}
use linux_0_1_1_comment.Mktime.{month, Tm, kernel_mktime}
use linux_0_1_1_comment.Mktime.Calendar.{
  days_in_month, ValidTm, seconds_since_epoch, kernel_mktime-seconds,
}
use linux_0_1_1_comment.Vsprintf.{skip_atoi, digit_loop, to_digits, lay_out, number}
use linux_0_1_1_comment.Vsprintf.Convert.{convert_number, convert, directive, format_loop, vsprintf}
use linux_0_1_1_comment.Vsprintf.Digits.{to_digits_fits}
use linux_0_1_1_comment.Vsprintf.Directives.{vsprintf-skip_atoi, vsprintf_star}
use linux_0_1_1_comment.Vsprintf.Format.{
  word, take_flags, take_width, take_precision, skip_qualifier,
}
use linux_0_1_1_comment.Vsprintf.Prints.{Prints, vsprintf-Prints}
use linux_0_1_1_comment.Word.{add, sub, mul, sdiv}

abbrev new_year_2000 : Tm
new_year_2000 = record {
  tm_sec = 0;
  tm_min = 0;
  tm_hour = 0;
  tm_mday = 1;
  tm_mon = 0;
  tm_year = 100;
}

new_year_2000-ValidTm : ValidTm new_year_2000
unfolding days_in_month
new_year_2000-ValidTm = record {
  year_from = omega arith;
  year_to = omega arith;
  mon = omega arith;
  mday_from = omega arith;
  mday_to = omega arith;
  hours = omega arith;
  mins = omega arith;
  secs = omega arith;
}

kernel_mktime-seconds_example :
    (kernel_mktime new_year_2000 ≡ seconds_since_epoch new_year_2000)
    × (seconds_since_epoch new_year_2000 < 2 ^ 31)
kernel_mktime-seconds_example = kernel_mktime-seconds new_year_2000 new_year_2000-ValidTm

new_year_run : kernel_mktime new_year_2000 ≡ 946684800
unfolding kernel_mktime add mul sub sdiv month
new_year_run = refl

to_digits_fits_example :
    (length (to_digits true 2 0xffffffff) ≤ 32)
    × (digit_loop true 2 (32 + 4) 0xffffffff [] ≡ digit_loop true 2 32 0xffffffff [])
to_digits_fits_example = to_digits_fits true 2 0xffffffff 4 (omega arith) (omega arith)

-- "n=%u;" and "%*d"
vsprintf-skip_atoi_example :
    (digits : List ℕ) × (vsprintf ((b'n' ∷ b'=' ∷ []) ++ b'%' ∷ b'u' ∷ b';' ∷ []) (word 42 ∷ [])
      ≡ some (((b'n' ∷ b'=' ∷ []) ++ digits) ++ b';' ∷ [], []))
    × (skip_atoi 0 (digits ++ b';' ∷ []) ≡ skip_atoi 42 (b';' ∷ []))
vsprintf-skip_atoi_example =
    vsprintf-skip_atoi (b'n' ∷ b'=' ∷ []) (b';' ∷ []) 42
      ((λ e. absurd (omega arith)), ((λ e. absurd (omega arith)), tt))
      ((λ e. absurd (omega arith)), tt) (omega arith)

vsprintf_star_example :
    vsprintf ([] ++ b'%' ∷ b'*' ∷ b'd' ∷ []) (word 7 ∷ [])
    ≡ some (([] ++ b'%' ∷ b'*' ∷ []) ++ b'd' ∷ [], [])
vsprintf_star_example = vsprintf_star [] [] b'd' 7 tt tt (λ e. absurd (omega arith))

-- "%x"
abbrev hex_format : List ℕ
hex_format = b'%' ∷ b'x' ∷ []

vsprintf-Prints_example :
    Prints
      (record { out = []; args = word 255 ∷ []; fmt = hex_format; stored = [] })
      (vsprintf hex_format (word 255 ∷ []))
vsprintf-Prints_example = vsprintf-Prints hex_format (word 255 ∷ [])

vsprintf_run : vsprintf hex_format (word 255 ∷ []) ≡ some (b'f' ∷ b'f' ∷ [], [])
unfolding vsprintf format_loop directive take_flags take_width take_precision skip_qualifier convert
    convert_number number to_digits digit_loop lay_out
vsprintf_run = refl
