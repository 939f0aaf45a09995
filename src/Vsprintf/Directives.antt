-- ===== src/Vsprintf/Directives.antt =====
-- What vsprintf (kernel/vsprintf.c) makes of some formats.
use mathlib.Core.List.{append-nil, append_assoc}
use linux_0_1_1_comment.Prelude.{
  ltb, if◌then◌else◌, Bool-cases, ne→=/=, length, length-append, negsuc, minus, pos_part-minus, ℕ,
  zero, suc, ◌+◌, ◌^◌, ◌≤◌, ◌<◌, ◌≡◌, refl, ap, ◌∙◌, ◌≢◌, inl, inr, false, Option, some, List, [],
  ◌∷◌, ◌++◌, arith,
}
use linux_0_1_1_comment.Vsprintf.{skip_atoi, to_digits, lay_out, number}
use linux_0_1_1_comment.Vsprintf.Convert.{
  convert_number, convert, directive, or_stop, format_loop, vsprintf,
}
use linux_0_1_1_comment.Vsprintf.Digits.{skip_atoi-to_digits}
use linux_0_1_1_comment.Vsprintf.Format.{
  Arg, word, no_flags, take_flags, take_width, take_precision, skip_qualifier,
}
use linux_0_1_1_comment.Word.{is_neg}

-- Text without a %.
abbrev pub Plain : List ℕ → Type 0
Plain [] = Unit {0}
Plain (c ∷ s) = (c ≢ b'%') × Plain s

abbrev Result : Type 0
Result = Option (List ℕ × List (ℕ × ℕ))

format_loop-Plain :
    (pre s out : List ℕ) (fuel k : ℕ) (args : List Arg) (stored : List (ℕ × ℕ))
    → Plain pre
    → fuel ≡ length pre + k
    → format_loop fuel (pre ++ s) out args stored ≡ format_loop k s (out ++ pre) args stored
unfolding format_loop
format_loop-Plain [] s out fuel k args stored plain e =
    rw (e, append-nil out) (ap (λ k. format_loop k s out args stored) (omega arith))
format_loop-Plain (c ∷ pre) s out zero k args stored plain e = absurd (omega arith)
format_loop-Plain (c ∷ pre) s out (suc fuel) k args stored plain e = rw (ne→=/= c b'%' plain.0) (
    format_loop-Plain pre s (out ++ c ∷ []) fuel k args stored plain.1 (omega arith)
    ∙ ap (λ o. format_loop k s o args stored) (append_assoc out (c ∷ []) pre))

format_loop-end :
    (post out : List ℕ) (fuel : ℕ) (args : List Arg) (stored : List (ℕ × ℕ))
    → Plain post
    → length post ≤ fuel
    → format_loop fuel post out args stored ≡ some (out ++ post, stored)
unfolding format_loop
format_loop-end [] out fuel args stored plain le = rw (append-nil out) refl
format_loop-end (c ∷ post) out zero args stored plain le = absurd (omega arith)
format_loop-end (c ∷ post) out (suc fuel) args stored plain le = rw (ne→=/= c b'%' plain.0) (
    format_loop-end post (out ++ c ∷ []) fuel args stored plain.1 (omega arith)
    ∙ ap (λ o. some (o, stored)) (append_assoc out (c ∷ []) post))

lay_out_bare :
    (pad fill : ℕ) (digits : List ℕ)
    → pad ≡ 0
    → fill ≡ 0
    → lay_out no_flags pad fill [] [] digits ≡ digits
unfolding lay_out
lay_out_bare pad fill digits p f = rw (p, f) (append-nil digits)

number_bare : (n : ℕ) → number n 10 (negsuc 0) (negsuc 0) no_flags ≡ some (to_digits false 10 n)
unfolding number
number_bare n =
    let i = length (to_digits false 10 n) in
    let wide : (if ltb i 0 then 0 else i) ≡ i = ground arith in
    rw wide (
      ap some (
        lay_out_bare _ _ (to_digits false 10 n) (pos_part-minus (negsuc 0) i ∙ omega arith)
          (omega arith)))

directive_u :
    (out post : List ℕ) (n : ℕ)
    → directive (record { out = out; args = word n ∷ []; fmt = b'u' ∷ post; stored = [] })
      ≡ some (record { out = out ++ to_digits false 10 n; args = []; fmt = post; stored = [] })
unfolding directive take_flags take_width take_precision skip_qualifier convert convert_number
directive_u out post n = rw (number_bare n) refl

directive_star :
    (out post : List ℕ) (w : ℕ)
    → directive (record { out = out; args = word w ∷ []; fmt = b'*' ∷ post; stored = [] })
      ≡ some (record { out = out ++ b'%' ∷ b'*' ∷ []; args = []; fmt = post; stored = [] })
unfolding directive take_flags take_width take_precision skip_qualifier convert
directive_star out post w = elim (Bool-cases (is_neg w)) [
  | inl minus ↦ rw minus refl
  | inr plus ↦ rw plus refl
]

-- A format without a % is written as it stands.
pub vsprintf-Plain :
    (fmt : List ℕ) (args : List Arg) → Plain fmt → vsprintf fmt args ≡ some (fmt, [])
unfolding vsprintf
vsprintf-Plain fmt args plain = format_loop-end fmt [] (length fmt) args [] plain (omega arith)

format_loop-directive :
    (out post t fmt : List ℕ) (arg : Arg)
    → Plain post
    → length post ≤ length fmt
    → directive (record { out = out; args = arg ∷ []; fmt = fmt; stored = [] })
      ≡ some (record { out = out ++ t; args = []; fmt = post; stored = [] })
    → format_loop (suc (length fmt)) (b'%' ∷ fmt) out (arg ∷ []) [] ≡ some ((out ++ t) ++ post, [])
unfolding format_loop
format_loop-directive out post t fmt arg plain le once =
    ap (λ o. or_stop o (λ p. format_loop (length fmt) p.fmt p.out p.args p.stored)) once
    ∙ format_loop-end post (out ++ t) (length fmt) [] [] plain le

-- One directive between texts without a %.
vsprintf-directive :
    (pre post t fmt : List ℕ) (arg : Arg)
    → Plain pre
    → Plain post
    → length post ≤ length fmt
    → directive (record { out = pre; args = arg ∷ []; fmt = fmt; stored = [] })
      ≡ some (record { out = pre ++ t; args = []; fmt = post; stored = [] })
    → vsprintf (pre ++ b'%' ∷ fmt) (arg ∷ []) ≡ some ((pre ++ t) ++ post, [])
unfolding vsprintf
vsprintf-directive pre post t fmt arg plain plain' le once =
    format_loop-Plain pre (b'%' ∷ fmt) [] (length (pre ++ b'%' ∷ fmt)) (suc (length fmt)) (arg ∷ [])
      [] plain (length-append pre (b'%' ∷ fmt))
    ∙ format_loop-directive pre post t fmt arg plain' le once

-- For a 32-bit word and a format of %u between texts without a %, vsprintf writes the two texts
-- with digits between them, and skip_atoi reads these back to the word, whatever the second text
-- is.
pub vsprintf-skip_atoi :
    (pre post : List ℕ) (n : ℕ)
    → Plain pre
    → Plain post
    → n < 2 ^ 32
    → (digits : List ℕ) × (vsprintf (pre ++ b'%' ∷ b'u' ∷ post) (word n ∷ [])
        ≡ some ((pre ++ digits) ++ post, []))
      × (skip_atoi 0 (digits ++ post) ≡ skip_atoi n post)
vsprintf-skip_atoi pre post n plain plain' lt = (
  to_digits false 10 n,
  vsprintf-directive pre post (to_digits false 10 n) (b'u' ∷ post) (word n) plain plain'
      (omega arith) (directive_u pre post n),
  skip_atoi-to_digits false n post lt,
)

-- For a format of %* and a character other than %, between texts without a %, vsprintf takes the
-- argument as a width but writes %* and the character as they stand.
pub vsprintf_star :
    (pre post : List ℕ) (c w : ℕ)
    → Plain pre
    → Plain post
    → c ≢ b'%'
    → vsprintf (pre ++ b'%' ∷ b'*' ∷ c ∷ post) (word w ∷ [])
      ≡ some ((pre ++ b'%' ∷ b'*' ∷ []) ++ c ∷ post, [])
vsprintf_star pre post c w plain plain' ne =
    vsprintf-directive pre (c ∷ post) (b'%' ∷ b'*' ∷ []) (b'*' ∷ c ∷ post) (word w) plain
      (ne, plain') (omega arith) (directive_star pre (c ∷ post) w)
