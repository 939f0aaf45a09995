-- ===== src/Vsprintf/Rounds.antt =====
-- What a directive of vsprintf (kernel/vsprintf.c) leaves of the format.
use linux_0_1_1_comment.Prelude.{
  ◌==◌, Bool-cases, Option-cases, length, ℤ, minus, ℕ, suc, ◌≤◌, inl, inr, Option, none, some, List,
  [], ◌∷◌, arith,
}
use linux_0_1_1_comment.Vsprintf.{is_digit, skip_atoi, Flags, number}
use linux_0_1_1_comment.Vsprintf.Convert.{
  written, convert_number, pointer_width, pointer_flags, convert_char, convert_string,
  convert_count, convert_other, convert, with_precision, with_width, directive,
}
use linux_0_1_1_comment.Vsprintf.Format.{
  Arg, word, text, Printing, no_flags, add_flag, take_flags, Width, star_width, take_width,
  star_precision, after_dot, take_precision, skip_qualifier, numeric,
}
use linux_0_1_1_comment.Word.{add, sub, mul, is_neg}

skip_atoi_shorter : (i : ℕ) (s : List ℕ) → length (skip_atoi i s).1 ≤ length s
unfolding skip_atoi
skip_atoi_shorter i [] = omega arith
skip_atoi_shorter i (c ∷ s) =
    let ih = skip_atoi_shorter (sub (add (mul i 10) c) b'0') s in ground arith

take_flags_shorter : (f : Flags) (s : List ℕ) → length (take_flags f s).1 ≤ length s
unfolding take_flags
take_flags_shorter f [] = omega arith
take_flags_shorter f (c ∷ s) = elim (Option-cases (add_flag c f)) [
  | inl other ↦ rw other (omega arith)
  | inr (g, flag) ↦ rw flag (let ih = take_flags_shorter g s in omega arith)
]

-- What is left of the format has at most `n` characters.
abbrev pub Short {ℓ} : {A : Type ℓ} → (A → List ℕ) → ℕ → Option A → Type 0
Short rest n none = Unit {0}
Short rest n (some a) = length (rest a) ≤ n

star_width-Short :
    (f : Flags) (s : List ℕ) (args : List Arg) → Short (λ w. w.fmt) (length s) (star_width f s args)
star_width-Short f s [] = tt
star_width-Short f s (text t ∷ args) = tt
star_width-Short f s (word w ∷ args) = elim (Bool-cases (is_neg w)) [
  | inl minus ↦ rw minus (omega arith)
  | inr plus ↦ rw plus (omega arith)
]

take_width-Short :
    (f : Flags) (s : List ℕ) (args : List Arg) → Short (λ w. w.fmt) (length s) (take_width f s args)
unfolding take_width
take_width-Short f [] args = omega arith
take_width-Short f (c ∷ s) args = elim (Bool-cases (is_digit c)) [
  | inl number_there ↦ rw number_there (skip_atoi_shorter 0 (c ∷ s))
  | inr other ↦ rw other (elim (Bool-cases (c == b'*')) [
    | inl star ↦ rw star (star_width-Short f (c ∷ s) args)
    | inr plain ↦ rw plain (omega arith)
  ])
]

abbrev after_precision : ℤ × List ℕ × List Arg → List ℕ
after_precision r = r.1

star_precision-Short :
    (s : List ℕ) (args : List Arg) → Short after_precision (length s) (star_precision s args)
star_precision-Short s [] = tt
star_precision-Short s (text t ∷ args) = tt
star_precision-Short s (word w ∷ args) = omega arith

after_dot-Short :
    (s : List ℕ) (args : List Arg) → Short after_precision (length s) (after_dot s args)
unfolding after_dot
after_dot-Short [] args = omega arith
after_dot-Short (c ∷ s) args = elim (Bool-cases (is_digit c)) [
  | inl number_there ↦ rw number_there (skip_atoi_shorter 0 (c ∷ s))
  | inr other ↦ rw other (elim (Bool-cases (c == b'*')) [
    | inl star ↦ rw star (star_precision-Short (c ∷ s) args)
    | inr plain ↦ rw plain (omega arith)
  ])
]

Short-weaken {ℓ} :
    {A : Type ℓ} (rest : A → List ℕ) (n k : ℕ) (o : Option A)
    → n ≤ k
    → Short rest n o
    → Short rest k o
Short-weaken rest n k none le h = tt
Short-weaken rest n k (some a) le h = omega arith

take_precision-Short :
    (s : List ℕ) (args : List Arg) → Short after_precision (length s) (take_precision s args)
unfolding take_precision
take_precision-Short [] args = omega arith
take_precision-Short (c ∷ s) args = elim (Bool-cases (c == b'.')) [
  | inl dot ↦ rw dot (
      Short-weaken after_precision (length s) (suc (length s)) (after_dot s args) (omega arith)
        (after_dot-Short s args))
  | inr plain ↦ rw plain (omega arith)
]

skip_qualifier_shorter : (s : List ℕ) → length (skip_qualifier s) ≤ length s
unfolding skip_qualifier
skip_qualifier_shorter [] = omega arith
skip_qualifier_shorter (c ∷ s) = ground arith

written-Short :
    (out : List ℕ) (args : List Arg) (s : List ℕ) (stored : List (ℕ × ℕ)) (n : ℕ)
    (o : Option (List ℕ))
    → length s ≤ n
    → Short (λ p. p.fmt) n (written out args s stored o)
written-Short out args s stored n none le = tt
written-Short out args s stored n (some t) le = le

convert_number-Short :
    (out : List ℕ) (args : List Arg) (base : ℕ) (width precision : ℤ) (f : Flags) (s : List ℕ)
    (stored : List (ℕ × ℕ)) (n : ℕ)
    → length s ≤ n
    → Short (λ p. p.fmt) n (convert_number out args base width precision f s stored)
unfolding convert_number
convert_number-Short out [] base width precision f s stored n le = tt
convert_number-Short out (text t ∷ args) base width precision f s stored n le = tt
convert_number-Short out (word w ∷ args) base width precision f s stored n le =
    written-Short out args s stored n (number w base width precision f) le

convert_text-Short :
    (out : List ℕ) (args : List Arg) (width precision : ℤ) (f : Flags) (s : List ℕ)
    (stored : List (ℕ × ℕ)) (n : ℕ)
    → length s ≤ n
    → Short (λ p. p.fmt) n (convert_char out args width f s stored)
      × Short (λ p. p.fmt) n (convert_string out args width precision f s stored)
      × Short (λ p. p.fmt) n (convert_count out args s stored)
unfolding convert_char convert_string convert_count
convert_text-Short out [] width precision f s stored n le = (tt, tt, tt)
convert_text-Short out (text t ∷ args) width precision f s stored n le = (tt, le, tt)
convert_text-Short out (word w ∷ args) width precision f s stored n le = (le, tt, le)

convert_other-Short :
    (out : List ℕ) (args : List Arg) (c : ℕ) (width precision : ℤ) (f : Flags) (s : List ℕ)
    (stored : List (ℕ × ℕ)) (n : ℕ) (o : Option (ℕ × Flags))
    → length s ≤ n
    → Short (λ p. p.fmt) n (convert_other out args c width precision f s stored o)
convert_other-Short out args c width precision f s stored n none le = le
convert_other-Short out args c width precision f s stored n (some (base, g)) le =
    convert_number-Short out args base width precision g s stored n le

convert-Short :
    (out : List ℕ) (args : List Arg) (width precision : ℤ) (f : Flags) (s : List ℕ)
    (stored : List (ℕ × ℕ)) (n : ℕ)
    → length s ≤ n
    → Short (λ p. p.fmt) n (convert out args width precision f s stored)
unfolding convert
convert-Short out args width precision f [] stored n le = le
convert-Short out args width precision f (c ∷ s) stored n le =
    let le' : length s ≤ n = omega arith in
    let texts = convert_text-Short out args width precision f s stored n le' in
    elim (Bool-cases (c == b'c')) [
      | inl h ↦ rw h texts.0
      | inr h ↦ rw h (elim (Bool-cases (c == b's')) [
        | inl h ↦ rw h texts.1
        | inr h ↦ rw h (elim (Bool-cases (c == b'p')) [
          | inl h ↦ rw h (
              convert_number-Short out args 16 (pointer_width width) precision
                (pointer_flags width f) s stored n le')
          | inr h ↦ rw h (elim (Bool-cases (c == b'n')) [
            | inl h ↦ rw h texts.2
            | inr h ↦
                rw h (convert_other-Short out args c width precision f s stored n (numeric c f) le')
          ])
        ])
      ])
    ]

with_precision-Short :
    (out : List ℕ) (stored : List (ℕ × ℕ)) (w : Width) (n : ℕ) (o : Option (ℤ × List ℕ × List Arg))
    → Short after_precision n o
    → Short (λ p. p.fmt) n (with_precision out stored w o)
with_precision-Short out stored w n none h = tt
with_precision-Short out stored w n (some (precision, s, args)) h =
    convert-Short out args w.field_width precision w.flags (skip_qualifier s) stored n
      (omega (arith, skip_qualifier_shorter s))

with_width-Short :
    (out : List ℕ) (stored : List (ℕ × ℕ)) (n : ℕ) (o : Option Width)
    → Short (λ w. w.fmt) n o
    → Short (λ p. p.fmt) n (with_width out stored o)
with_width-Short out stored n none h = tt
with_width-Short out stored n (some w) h =
    with_precision-Short out stored w n (take_precision w.fmt w.args) (
      Short-weaken after_precision (length w.fmt) n (take_precision w.fmt w.args) h
        (take_precision-Short w.fmt w.args))

pub directive-Short : (p : Printing) → Short (λ q. q.fmt) (length p.fmt) (directive p)
unfolding directive
directive-Short p =
    let r = take_flags no_flags p.fmt in
    with_width-Short p.out p.stored (length p.fmt) (take_width r.0 r.1 p.args) (
      Short-weaken (λ w. w.fmt) (length r.1) (length p.fmt) (take_width r.0 r.1 p.args)
        (take_flags_shorter no_flags p.fmt) (take_width-Short r.0 r.1 p.args))
