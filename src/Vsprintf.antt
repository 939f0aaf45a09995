-- ===== src/Vsprintf.antt =====
-- kernel/vsprintf.c: skip_atoi and number; vsprintf stands in Format and Convert. Text is a list of
-- character codes; what a routine writes at `str` is the list that it returns. Field widths and
-- precisions are integers, and are taken to be far from the bounds of `int`.
pub mod Digits
pub mod Layout
pub mod Format
pub mod Convert
pub mod Directives
pub mod Rounds
pub mod Prints
use linux_0_1_1_comment.Prelude.{
  ltb, leb, ◌==◌, if◌then◌else◌, length, replicate, ℤ, pos_part, minus, ℕ, zero, suc, ◌+◌, ◌-◌, ◌/◌,
  ◌%◌, Bool, not, ◌&&◌, ◌||◌, Option, none, some, List, [], ◌∷◌, ◌++◌,
}
use linux_0_1_1_comment.Word.{add, sub, neg, mul, is_neg}

abbrev pub is_digit : ℕ → Bool
is_digit c = leb b'0' c && leb c b'9'

-- The value, on 32 bits, and the text behind the digits; `i` is the value so far.
unfoldable pub skip_atoi : ℕ → List ℕ → ℕ × List ℕ
skip_atoi i [] = (i, [])
skip_atoi i (c ∷ s) = if is_digit c then skip_atoi (sub (add (mul i 10) c) b'0') s else (i, c ∷ s)

-- The bits ZEROPAD, SIGN, PLUS, SPACE, LEFT, SPECIAL and SMALL of `type`.
pub record Flags : Type 0 where
  pub zeropad : Bool
  pub sign : Bool
  pub plus : Bool
  pub space : Bool
  pub left : Bool
  pub special : Bool
  pub small : Bool

-- `digits[k]` for k below 36
abbrev pub digit : Bool → ℕ → ℕ
digit small k = if ltb k 10 then b'0' + k else (if small then b'a' + (k - 10) else b'A' + (k - 10))

-- while (num!=0) tmp[i++]=digits[do_div(num,base)]; `tmp` has the last character first, which is
-- the order in which it is written out. `do_div` is the unsigned division.
unfoldable pub digit_loop : Bool → ℕ → ℕ → ℕ → List ℕ → List ℕ
digit_loop small base zero num tmp = tmp
digit_loop small base (suc fuel) num tmp =
    let rest = digit_loop small base fuel (num / base) (digit small (num % base) ∷ tmp) in
    if num == 0 then tmp else rest

-- a word has at most 32 digits
unfoldable pub to_digits : Bool → ℕ → ℕ → List ℕ
to_digits small base num = if num == 0 then b'0' ∷ [] else digit_loop small base 32 num []

-- the sign, and the number that is left to print
abbrev pub negative : ℕ → Flags → Bool
negative num flags = flags.sign && is_neg num

abbrev pub sign_text : ℕ → Flags → List ℕ
sign_text num flags =
    if negative num flags
    then b'-' ∷ []
    else (if flags.plus then b'+' ∷ [] else (if flags.space then b' ' ∷ [] else []))

abbrev pub magnitude : ℕ → Flags → ℕ
magnitude num flags = if negative num flags then neg num else num

-- what SPECIAL puts before the digits; `digits[33]` is the X of the alphabet in use
abbrev pub special_text : ℕ → Flags → List ℕ
special_text base flags =
    if flags.special
    then (if base == 8
        then b'0' ∷ []
        else (if base == 16 then b'0' ∷ digit flags.small 33 ∷ [] else []))
    else []

-- The layout of number: padding `pad` is what is left of `size`. A loop `while(size-->0)` leaves
-- nothing for the next one.
unfoldable pub lay_out : Flags → ℕ → ℕ → List ℕ → List ℕ → List ℕ → List ℕ
lay_out flags pad fill sign special digits =
    let zero_padded = flags.zeropad && not flags.left in
    let before = if zero_padded || flags.left then 0 else pad in
    let inside = if flags.left then 0 else pad - before in
    let behind = pad - before - inside in
    replicate before b' '
    ++ (sign
        ++ (special
            ++ (replicate inside (if zero_padded then b'0' else b' ')
                ++ (replicate fill b'0' ++ (digits ++ replicate behind b' ')))))

-- `none` is the null pointer returned for a base out of range.
unfoldable pub number : ℕ → ℕ → ℤ → ℤ → Flags → Option (List ℕ)
number num base size precision flags =
    if ltb base 2 || ltb 36 base
    then none
    else (let sign = sign_text num flags in
        let special = special_text base flags in
        let digits = to_digits flags.small base (magnitude num flags) in
        let i = length digits in
        let precision' = if ltb i (pos_part precision) then pos_part precision else i in
        let pad = pos_part (minus (minus (minus size (length sign)) (length special)) precision') in
        some (lay_out flags pad (precision' - i) sign special digits))
