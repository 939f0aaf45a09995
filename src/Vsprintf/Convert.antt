-- ===== src/Vsprintf/Convert.antt =====
-- The conversions and the loop of vsprintf (kernel/vsprintf.c).
use linux_0_1_1_comment.Prelude.{
  ◌==◌, ◌=/=◌, if◌then◌else◌, length, ℤ, pos, negsuc, ℕ, zero, suc, true, Option, none, some, List,
  [], ◌∷◌, ◌++◌,
}
use linux_0_1_1_comment.Vsprintf.{Flags, number}
use linux_0_1_1_comment.Vsprintf.Format.{
  Arg, word, text, Printing, no_flags, take_flags, Width, take_width, take_precision,
  skip_qualifier, char_text, string_text, numeric,
}

-- What a conversion writes behind `out`, with the format behind its character.
abbrev pub written : List ℕ → List Arg → List ℕ → List (ℕ × ℕ) → Option (List ℕ) → Option Printing
written out args s stored none = none
written out args s stored (some t) =
    some (record { out = out ++ t; args = args; fmt = s; stored = stored })

unfoldable pub convert_number :
    List ℕ → List Arg → ℕ → ℤ → ℤ → Flags → List ℕ → List (ℕ × ℕ) → Option Printing
convert_number out [] base width precision f s stored = none
convert_number out (text t ∷ args) base width precision f s stored = none
convert_number out (word w ∷ args) base width precision f s stored =
    written out args s stored (number w base width precision f)

-- %p: eight digits with zeros where no width is given
abbrev pub pointer_width : ℤ → ℤ
pointer_width (pos n) = pos n
pointer_width (negsuc zero) = pos 8
pointer_width (negsuc (suc n)) = negsuc (suc n)

abbrev pub pointer_flags : ℤ → Flags → Flags
pointer_flags (pos n) f = f
pointer_flags (negsuc zero) f = record f { zeropad = true }
pointer_flags (negsuc (suc n)) f = f

unfoldable pub convert_char :
    List ℕ → List Arg → ℤ → Flags → List ℕ → List (ℕ × ℕ) → Option Printing
convert_char out [] width f s stored = none
convert_char out (text t ∷ args) width f s stored = none
convert_char out (word w ∷ args) width f s stored =
    written out args s stored (some (char_text f width w))

unfoldable pub convert_string :
    List ℕ → List Arg → ℤ → ℤ → Flags → List ℕ → List (ℕ × ℕ) → Option Printing
convert_string out [] width precision f s stored = none
convert_string out (word w ∷ args) width precision f s stored = none
convert_string out (text t ∷ args) width precision f s stored =
    written out args s stored (some (string_text f width precision t))

-- %n: *ip = (str - buf)
unfoldable pub convert_count : List ℕ → List Arg → List ℕ → List (ℕ × ℕ) → Option Printing
convert_count out [] s stored = none
convert_count out (text t ∷ args) s stored = none
convert_count out (word ip ∷ args) s stored =
    some (record { out = out; args = args; fmt = s; stored = stored ++ (ip, length out) ∷ [] })

abbrev pub convert_other :
    List ℕ
    → List Arg
    → ℕ
    → ℤ
    → ℤ
    → Flags
    → List ℕ
    → List (ℕ × ℕ)
    → Option (ℕ × Flags)
    → Option Printing
convert_other out args c width precision f s stored (some (base, g)) =
    convert_number out args base width precision g s stored
convert_other out args c width precision f s stored none =
    written out args s stored (some (if c =/= b'%' then b'%' ∷ c ∷ [] else c ∷ []))

-- switch (*fmt); at the end of the format a lone % is written
unfoldable pub convert : List ℕ → List Arg → ℤ → ℤ → Flags → List ℕ → List (ℕ × ℕ) → Option Printing
convert out args width precision f [] stored = written out args [] stored (some (b'%' ∷ []))
convert out args width precision f (c ∷ s) stored =
    if c == b'c'
    then convert_char out args width f s stored
    else if c == b's'
    then convert_string out args width precision f s stored
    else if c == b'p'
    then convert_number out args 16 (pointer_width width) precision (pointer_flags width f) s stored
    else if c == b'n'
    then convert_count out args s stored
    else convert_other out args c width precision f s stored (numeric c f)

abbrev pub with_precision :
    List ℕ → List (ℕ × ℕ) → Width → Option (ℤ × List ℕ × List Arg) → Option Printing
with_precision out stored w none = none
with_precision out stored w (some (precision, s, args)) =
    convert out args w.field_width precision w.flags (skip_qualifier s) stored

abbrev pub with_width : List ℕ → List (ℕ × ℕ) → Option Width → Option Printing
with_width out stored none = none
with_width out stored (some w) = with_precision out stored w (take_precision w.fmt w.args)

-- one directive, on the format behind its %
unfoldable pub directive : Printing → Option Printing
directive p =
    let r = take_flags no_flags p.fmt in with_width p.out p.stored (take_width r.0 r.1 p.args)

abbrev pub or_stop :
    Option Printing → (Printing → Option (List ℕ × List (ℕ × ℕ))) → Option (List ℕ × List (ℕ × ℕ))
or_stop none next = none
or_stop (some p) next = next p

-- for (str=buf ; *fmt ; ++fmt), with `fuel` rounds
unfoldable pub format_loop :
    ℕ → List ℕ → List ℕ → List Arg → List (ℕ × ℕ) → Option (List ℕ × List (ℕ × ℕ))
format_loop fuel [] out args stored = some (out, stored)
format_loop zero (c ∷ s) out args stored = none
format_loop (suc fuel) (c ∷ s) out args stored =
    let copied = format_loop fuel s (out ++ c ∷ []) args stored in
    let converted =
      or_stop (directive (record { out = out; args = args; fmt = s; stored = stored }))
        (λ p. format_loop fuel p.fmt p.out p.args p.stored) in
    if c =/= b'%' then copied else converted

-- What is written at buf, and the numbers that %n stores. Each round takes a character.
unfoldable pub vsprintf : List ℕ → List Arg → Option (List ℕ × List (ℕ × ℕ))
vsprintf fmt args = format_loop (length fmt) fmt [] args []
