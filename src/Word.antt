-- ===== src/Word.antt =====
-- The 32-bit words of the i386: `unsigned long` is a number below 2^32, `long` and `int` are the
-- same bit patterns read in two's complement.
use linux_0_1_1_comment.Prelude.{
  ℕ, ◌+◌, ◌-◌, ◌*◌, ◌/◌, ◌%◌, ◌^◌, ◌<◌, ◌≡◌, Bool, arith, ltb, leb, if◌then◌else◌,
}

abbrev pub modulus : ℕ
modulus = 2 ^ 32

abbrev pub sign_bit : ℕ
sign_bit = 2 ^ 31

-- C's `+`, `-`, unary `-` and `*` on words
unfoldable pub add : ℕ → ℕ → ℕ
add a b = (a + b) % modulus

unfoldable pub sub : ℕ → ℕ → ℕ
sub a b = (a + modulus - b) % modulus

unfoldable pub neg : ℕ → ℕ
neg a = (modulus - a) % modulus

unfoldable pub mul : ℕ → ℕ → ℕ
mul a b = a * b % modulus

-- `a < 0`, `a < b` and `a <= b` on `long`
abbrev pub is_neg : ℕ → Bool
is_neg a = leb sign_bit a

abbrev pub slt : ℕ → ℕ → Bool
slt a b = ltb ((a + sign_bit) % modulus) ((b + sign_bit) % modulus)

abbrev pub sle : ℕ → ℕ → Bool
sle a b = leb ((a + sign_bit) % modulus) ((b + sign_bit) % modulus)

-- `a / b` and `a % b` on `long` for a positive divisor: both round towards 0
unfoldable pub sdiv : ℕ → ℕ → ℕ
unfolding neg
sdiv a b = if is_neg a then neg (neg a / b) else a / b

unfoldable pub smod : ℕ → ℕ → ℕ
unfolding neg
smod a b = if is_neg a then neg (neg a % b) else a % b

-- `a >> k` on `long` for a shift by one place: arithmetic, as the compiler does it
unfoldable pub sar1 : ℕ → ℕ
sar1 a = if is_neg a then a / 2 + sign_bit else a / 2

pub add_small : (a b : ℕ) → a + b < modulus → add a b ≡ a + b
unfolding add
add_small a b h = omega arith

pub sub_self_add : (a b : ℕ) → a < modulus → b < modulus → add (sub a b) b ≡ a
unfolding add sub
sub_self_add a b h k = omega arith
