-- ===== src/Vsprintf/Digits.antt =====
-- The digits that `number` (kernel/vsprintf.c) writes, and skip_atoi.
use native.Mathlib.Nat.{pow-suc}
use Prim.Native.Nat.add
use linux_0_1_1_comment.Prelude.{
  ◌==◌, Bool-cases, length, ℕ, zero, suc, ◌+◌, ◌*◌, ◌/◌, ◌%◌, ◌^◌, ◌≤◌, ◌<◌, ◌≡◌, refl, ap, ◌∙◌,
  inl, inr, Bool, true, List, [], ◌∷◌, ◌++◌, arith,
}
use linux_0_1_1_comment.Vsprintf.{is_digit, skip_atoi, digit, digit_loop, to_digits}
use linux_0_1_1_comment.Word.{add, sub, mul}

div_lt : (num base x : ℕ) → 2 ≤ base → num < x * 2 → num / base < x
div_lt num base x b h = grind arith

fewer : (num base f : ℕ) → 2 ≤ base → num < 2 ^ suc f → num / base < 2 ^ f
fewer num base f b h = div_lt num base (2 ^ f) b (rw pow-suc at h)

-- The rounds that are left do not matter once they are enough for the number.
digit_loop-fuel :
    (small : Bool) (base f k num : ℕ) (tmp : List ℕ)
    → 2 ≤ base
    → num < 2 ^ f
    → digit_loop small base (f + k) num tmp ≡ digit_loop small base f num tmp
unfolding digit_loop
digit_loop-fuel small base zero zero num tmp b h = refl
digit_loop-fuel small base zero (suc k) num tmp b h =
    let z : num ≡ 0 = omega arith in rw (add.zero, z)
digit_loop-fuel small base (suc f) k num tmp b h = rw (
  add.suc f k,
  digit_loop,
  digit_loop-fuel small base f k (num / base) (digit small (num % base) ∷ tmp) b
      (fewer num base f b h),
)

length-digit_loop :
    (small : Bool) (base f num : ℕ) (tmp : List ℕ)
    → length (digit_loop small base f num tmp) ≤ f + length tmp
unfolding digit_loop
length-digit_loop small base zero num tmp = omega arith
length-digit_loop small base (suc f) num tmp =
    ground (arith, length-digit_loop small base f (num / base) (digit small (num % base) ∷ tmp))

atoi_step :
    (q r : ℕ) → r < 10 → q * 10 + r < 2 ^ 32 → sub (add (mul q 10) (b'0' + r)) b'0' ≡ q * 10 + r
unfolding add sub mul
atoi_step q r h w = omega arith

digit_ten : (small : Bool) (r : ℕ) → r < 10 → digit small r ≡ b'0' + r
digit_ten small r h = ground arith

digit_is : (r : ℕ) → r < 10 → is_digit (b'0' + r) ≡ true
digit_is r h = ground arith

pub atoi_digit :
    (small : Bool) (q r : ℕ) (tmp : List ℕ)
    → r < 10
    → q * 10 + r < 2 ^ 32
    → skip_atoi q (digit small r ∷ tmp) ≡ skip_atoi (q * 10 + r) tmp
unfolding skip_atoi
atoi_digit small q r tmp h w = rw (digit_ten small r h, digit_is r h, atoi_step q r h w)

-- skip_atoi reads back what the loop wrote in base 10.
skip_atoi-digit_loop :
    (small : Bool) (f num : ℕ) (tmp : List ℕ)
    → num < 2 ^ 32
    → num < 2 ^ f
    → skip_atoi 0 (digit_loop small 10 f num tmp) ≡ skip_atoi num tmp
unfolding digit_loop
skip_atoi-digit_loop small zero num tmp w h = let z : num ≡ 0 = omega arith in rw z
skip_atoi-digit_loop small (suc f) num tmp w h = elim (Bool-cases (num == 0)) [
  | inl z ↦ rw z (let e : num ≡ 0 = ground arith in rw e)
  | inr nz ↦ rw nz (
      skip_atoi-digit_loop small f (num / 10) (digit small (num % 10) ∷ tmp) (omega arith)
        (fewer num 10 f (omega arith) h)
      ∙ atoi_digit small (num / 10) (num % 10) tmp (omega arith) (omega arith)
      ∙ ap (λ v. skip_atoi v tmp) (omega arith))
]

digit_loop-append :
    (small : Bool) (base f num : ℕ) (tmp rest : List ℕ)
    → digit_loop small base f num tmp ++ rest ≡ digit_loop small base f num (tmp ++ rest)
unfolding digit_loop
digit_loop-append small base zero num tmp rest = refl
digit_loop-append small base (suc f) num tmp rest = elim (Bool-cases (num == 0)) [
  | inl z ↦ rw z
  | inr nz ↦
      rw nz (digit_loop-append small base f (num / base) (digit small (num % base) ∷ tmp) rest)
]

-- What number writes for a 32-bit word in base 10 is read back by skip_atoi, whatever follows.
pub skip_atoi-to_digits :
    (small : Bool) (num : ℕ) (rest : List ℕ)
    → num < 2 ^ 32
    → skip_atoi 0 (to_digits small 10 num ++ rest) ≡ skip_atoi num rest
unfolding to_digits
skip_atoi-to_digits small num rest w = elim (Bool-cases (num == 0)) [
  | inl z ↦ rw z (
      let e : num ≡ 0 = ground arith in
      rw e (atoi_digit small 0 0 rest (omega arith) (omega arith)))
  | inr nz ↦
      rw (nz, digit_loop-append small 10 32 num [] rest)
        (skip_atoi-digit_loop small 32 num rest w w)
]

-- In a base of at least 2 the digits of a 32-bit word are at most 32, and 32 rounds of the loop are
-- enough: more of them give the same digits.
pub to_digits_fits :
    (small : Bool) (base num k : ℕ)
    → 2 ≤ base
    → num < 2 ^ 32
    → (length (to_digits small base num) ≤ 32)
      × (digit_loop small base (32 + k) num [] ≡ digit_loop small base 32 num [])
unfolding to_digits
to_digits_fits small base num k b w = (
  ground (arith, length-digit_loop small base 32 num []),
  digit_loop-fuel small base 32 k num [] b w,
)
