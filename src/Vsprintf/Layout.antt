-- ===== src/Vsprintf/Layout.antt =====
-- The field that `number` (kernel/vsprintf.c) fills.
use mathlib.Core.List.{append-nil, append_assoc}
use linux_0_1_1_comment.Prelude.{
  ltb, if◌then◌else◌, length, replicate, length-append, length-replicate, ℤ, pos_part, minus,
  pos_part-minus, max, ℕ, zero, suc, ◌+◌, ◌-◌, ◌^◌, ◌≤◌, ◌<◌, ◌≡◌, refl, ◌∙◌, true, false, ◌||◌,
  some, List, [], ◌++◌, arith,
}
use linux_0_1_1_comment.Vsprintf.{
  skip_atoi, Flags, to_digits, sign_text, magnitude, special_text, lay_out, number,
}
use linux_0_1_1_comment.Vsprintf.Digits.{atoi_digit, skip_atoi-to_digits}

skip_atoi-zeros : (k : ℕ) (s : List ℕ) → skip_atoi 0 (replicate k b'0' ++ s) ≡ skip_atoi 0 s
skip_atoi-zeros zero s = refl
skip_atoi-zeros (suc k) s =
    atoi_digit false 0 0 (replicate k b'0' ++ s) (omega arith) (omega arith) ∙ skip_atoi-zeros k s

length-lay_out :
    (flags : Flags) (pad fill : ℕ) (sign special digits : List ℕ)
    → length (lay_out flags pad fill sign special digits)
      ≡ pad + fill + length sign + length special + length digits
unfolding lay_out
length-lay_out flags pad fill sign special digits =
    simp (length-append, length-replicate) (ground arith)

base_test : (base : ℕ) → 2 ≤ base → base ≤ 36 → (ltb base 2 || ltb 36 base) ≡ false
base_test base lo hi = ground arith

pad_parts :
    (size : ℤ) (a b c : ℕ)
    → pos_part (minus (minus (minus size a) b) c) ≡ pos_part size - (a + b + c)
pad_parts size a b c = omega (
  arith,
  pos_part-minus (minus (minus size a) b) c,
  pos_part-minus (minus size a) b,
  pos_part-minus size a,
)

field_sum :
    (size : ℤ) (a b i p : ℕ)
    → (let q = if ltb i p then p else i in
        pos_part (minus (minus (minus size a) b) q) + (q - i) + a + b + i
        ≡ max (pos_part size) (a + b + max p i))
field_sum size a b i p = rw (pad_parts size a b (if ltb i p then p else i)) (ground arith)

-- For a base from 2 to 36, number gives a text, and it is as long as the field asks for, or longer
-- where the sign, the prefix and the digits need more.
pub number-length :
    (num base : ℕ) (size precision : ℤ) (flags : Flags)
    → 2 ≤ base
    → base ≤ 36
    → (text : List ℕ) × (number num base size precision flags ≡ some text)
      × (length text
          ≡ max (pos_part size) (
              length (sign_text num flags)
              + length (special_text base flags)
              + max
                  (pos_part precision)
                  (length (to_digits flags.small base (magnitude num flags)))))
unfolding number
number-length num base size precision flags lo hi =
    let sign = sign_text num flags in
    let special = special_text base flags in
    let digits = to_digits flags.small base (magnitude num flags) in
    let i = length digits in
    let precision' = if ltb i (pos_part precision) then pos_part precision else i in
    let pad = pos_part (minus (minus (minus size (length sign)) (length special)) precision') in
    (
      lay_out flags pad (precision' - i) sign special digits,
      rw (base_test base lo hi),
      (length-lay_out flags pad (precision' - i) sign special digits
          ∙ field_sum size (length sign) (length special) i (pos_part precision)),
    )

magnitude_plain : (num : ℕ) (flags : Flags) → sign_text num flags ≡ [] → magnitude num flags ≡ num
magnitude_plain num flags h = ground arith

special_plain : (base : ℕ) (flags : Flags) → flags.special ≡ false → special_text base flags ≡ []
special_plain base flags h = rw h

nothing_behind : (pad : ℕ) → pad - 0 - (pad - 0) ≡ 0
nothing_behind pad = omega arith

lay_out_read :
    (flags : Flags) (pad fill num : ℕ) (rest : List ℕ)
    → num < 2 ^ 32
    → flags.left ≡ false
    → flags.zeropad ≡ true
    → skip_atoi 0 (lay_out flags pad fill [] [] (to_digits flags.small 10 num) ++ rest)
      ≡ skip_atoi num rest
unfolding lay_out
lay_out_read flags pad fill num rest w no_left zero_padded =
    rw (no_left, zero_padded, nothing_behind pad)
      (simp (append-nil, append_assoc)
        (skip_atoi-zeros (pad - 0) _
          ∙ skip_atoi-zeros fill _
          ∙ skip_atoi-to_digits flags.small num rest w))

-- A decimal word with no sign to show and no prefix, printed with zeros for padding and not to the
-- left, is read back by skip_atoi whatever the width and the precision are and whatever follows.
pub skip_atoi-number :
    (num : ℕ) (size precision : ℤ) (flags : Flags) (rest : List ℕ)
    → num < 2 ^ 32
    → sign_text num flags ≡ []
    → flags.special ≡ false
    → flags.left ≡ false
    → flags.zeropad ≡ true
    → (text : List ℕ) × (number num 10 size precision flags ≡ some text)
      × (skip_atoi 0 (text ++ rest) ≡ skip_atoi num rest)
unfolding number
skip_atoi-number num size precision flags rest w no_sign no_special no_left zero_padded =
    rw (no_sign, magnitude_plain num flags no_sign, special_plain 10 flags no_special)
      (_, refl, lay_out_read flags _ _ num rest w no_left zero_padded)
