-- ===== src/Vsprintf/Format.antt =====
-- vsprintf of kernel/vsprintf.c: the format is the list of its characters before the 0, and what is
-- written at `buf`, without the 0, is a list. Where va_arg would read past the arguments, or read
-- one of another kind, there is no result.
use linux_0_1_1_comment.Prelude.{
  ◌==◌, if◌then◌else◌, length, replicate, take, ℤ, pos, negsuc, pos_part, ℕ, ◌-◌, ◌%◌, true, false,
  ◌||◌, Option, none, some, List, [], ◌∷◌, ◌++◌,
}
use linux_0_1_1_comment.Vsprintf.{is_digit, skip_atoi, Flags}
use linux_0_1_1_comment.Word.{neg, is_neg}

-- An `int`, a `long` or a pointer; or the string that a pointer names.
pub data Arg : Type 0 where
  word : ℕ → Arg
  text : List ℕ → Arg

-- The text so far, the arguments and the format that are left, and what %n stored at which pointer.
pub record Printing : Type 0 where
  pub out : List ℕ
  pub args : List Arg
  pub fmt : List ℕ
  pub stored : List (ℕ × ℕ)

abbrev pub to_int : ℕ → ℤ
to_int w = if is_neg w then negsuc (0xffffffff - w) else pos w

abbrev pub no_flags : Flags
no_flags = record {
  zeropad = false;
  sign = false;
  plus = false;
  space = false;
  left = false;
  special = false;
  small = false;
}

-- what a flag character adds to the flags
abbrev pub add_flag : ℕ → Flags → Option Flags
add_flag c f =
    if c == b'-'
    then some (record f { left = true })
    else if c == b'+'
    then some (record f { plus = true })
    else if c == b' '
    then some (record f { space = true })
    else if c == b'#'
    then some (record f { special = true })
    else if c == b'0'
    then some (record f { zeropad = true })
    else none

abbrev pub flag_or : Option Flags → (Flags → Flags × List ℕ) → Flags × List ℕ → Flags × List ℕ
flag_or none next stop = stop
flag_or (some g) next stop = next g

-- repeat: ++fmt; switch (*fmt), on the format behind the first %
unfoldable pub take_flags : Flags → List ℕ → Flags × List ℕ
take_flags f [] = (f, [])
take_flags f (c ∷ s) = flag_or (add_flag c f) (λ g. take_flags g s) (f, c ∷ s)

-- Flags, field width, and the format and the arguments that are left.
pub record Width : Type 0 where
  pub flags : Flags
  pub field_width : ℤ
  pub fmt : List ℕ
  pub args : List Arg

-- field_width = va_arg(args, int), which leaves fmt at the *
abbrev pub star_width : Flags → List ℕ → List Arg → Option Width
star_width f s [] = none
star_width f s (text t ∷ args) = none
star_width f s (word w ∷ args) =
    if is_neg w
    then some (record {
      flags = record f { left = true };
      field_width = to_int (neg w);
      fmt = s;
      args = args;
    })
    else some (record { flags = f; field_width = to_int w; fmt = s; args = args })

unfoldable pub take_width : Flags → List ℕ → List Arg → Option Width
take_width f [] args = some (record { flags = f; field_width = negsuc 0; fmt = []; args = args })
take_width f (c ∷ s) args =
    if is_digit c
    then (let r = skip_atoi 0 (c ∷ s) in
        some (record { flags = f; field_width = to_int r.0; fmt = r.1; args = args }))
    else if c == b'*'
    then star_width f (c ∷ s) args
    else some (record { flags = f; field_width = negsuc 0; fmt = c ∷ s; args = args })

-- if (precision < 0) precision = 0
abbrev pub not_negative : ℤ → ℤ
not_negative z = pos (pos_part z)

abbrev pub star_precision : List ℕ → List Arg → Option (ℤ × List ℕ × List Arg)
star_precision s [] = none
star_precision s (text t ∷ args) = none
star_precision s (word w ∷ args) = some (not_negative (to_int w), s, args)

-- the precision behind the dot
unfoldable pub after_dot : List ℕ → List Arg → Option (ℤ × List ℕ × List Arg)
after_dot [] args = some (pos 0, [], args)
after_dot (c ∷ s) args =
    if is_digit c
    then (let r = skip_atoi 0 (c ∷ s) in some (not_negative (to_int r.0), r.1, args))
    else if c == b'*'
    then star_precision (c ∷ s) args
    else some (pos 0, c ∷ s, args)

unfoldable pub take_precision : List ℕ → List Arg → Option (ℤ × List ℕ × List Arg)
take_precision [] args = some (negsuc 0, [], args)
take_precision (c ∷ s) args = if c == b'.' then after_dot s args else some (negsuc 0, c ∷ s, args)

-- the qualifier, which nothing looks at
unfoldable pub skip_qualifier : List ℕ → List ℕ
skip_qualifier [] = []
skip_qualifier (c ∷ s) = if (c == b'h') || (c == b'l') || (c == b'L') then s else c ∷ s

-- %c: while (--field_width > 0) *str++ = ' ', before the character or behind it
unfoldable pub char_text : Flags → ℤ → ℕ → List ℕ
char_text f width w =
    let pad = replicate (pos_part width - 1) b' ' in
    if f.left then w % 256 ∷ pad else pad ++ w % 256 ∷ []

abbrev pub shown_part : ℤ → List ℕ → List ℕ
shown_part (pos n) t = take n t
shown_part (negsuc n) t = t

-- %s
unfoldable pub string_text : Flags → ℤ → ℤ → List ℕ → List ℕ
string_text f width precision t =
    let shown = shown_part precision t in
    let pad = replicate (pos_part width - length shown) b' ' in
    if f.left then shown ++ pad else pad ++ shown

-- Base and flags of a conversion that calls number.
abbrev pub numeric : ℕ → Flags → Option (ℕ × Flags)
numeric c f =
    if c == b'o'
    then some (8, f)
    else if c == b'x'
    then some (16, record f { small = true })
    else if c == b'X'
    then some (16, f)
    else if (c == b'd') || (c == b'i')
    then some (10, record f { sign = true })
    else if c == b'u'
    then some (10, f)
    else none
