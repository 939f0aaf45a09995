-- ===== src/Bitmap/Marks.antt =====
-- The bits of a map of fs/bitmap.c, and what set_bit and clear_bit change.
-- bit `n` of a map, a bit of a missing block counting as set
use linux_0_1_1_comment.Prelude.{
  Option-cases, update, update_self, update_ne, ℕ, ◌+◌, ◌*◌, ◌/◌, ◌%◌, ◌≤◌, ◌<◌, ◌≡◌, refl, ap, ◌∙◌,
  ◌≢◌, inl, inr, Bool, true, false, Option, none, some, arith, ℕ_discrete,
}
use linux_0_1_1_comment.Bitmap.{Bits, write_bit}

abbrev pub bit_of : Option Bits → ℕ → Bool
bit_of none k = true
bit_of (some bits) k = bits k

abbrev pub in_use : (ℕ → Option Bits) → ℕ → Bool
in_use maps n = bit_of (maps (n / 8192)) (n % 8192)

pub write_bit-some :
    (i j : ℕ) (b : Bool) (maps : ℕ → Option Bits) (bits : Bits)
    → maps i ≡ some bits
    → write_bit i j b maps ≡ update maps i (some (update bits j b))
unfolding write_bit
write_bit-some i j b maps bits e = rw (write_bit, e) refl

-- Writing a bit changes that bit alone.
module _ (i j : ℕ) (b : Bool) (maps : ℕ → Option Bits) (bits : Bits) (small : j < 8192)
    (here : maps i ≡ some bits) where
  pub in_use-write_bit : in_use (write_bit i j b maps) (j + i * 8192) ≡ b
  in_use-write_bit =
      let at : (j + i * 8192) / 8192 ≡ i = omega arith in
      let rem : (j + i * 8192) % 8192 ≡ j = omega arith in
      rw (write_bit-some i j b maps bits here, at, rem, update_self maps i (some (update bits j b)))
        (update_self bits j b)

  pub in_use-write_bit_other :
      (n : ℕ) → n ≢ j + i * 8192 → in_use (write_bit i j b maps) n ≡ in_use maps n
  in_use-write_bit_other n ne =
      rw (write_bit-some i j b maps bits here) (elim (ℕ_discrete (n / 8192) i) [
        | yes same ↦
            rw (same, update_self maps i (some (update bits j b)), here)
              (update_ne bits j (n % 8192) b (λ e. ne (omega arith)))
        | no far ↦ rw (update_ne maps i (n / 8192) (some (update bits j b)) far) refl
      ])

pub write_bit-present :
    (i j : ℕ) (b : Bool) (maps : ℕ → Option Bits) (bits : Bits)
    → maps i ≡ some bits
    → write_bit i j b maps i ≡ some (update bits j b)
write_bit-present i j b maps bits here =
    rw (write_bit-some i j b maps bits here) (update_self maps i (some (update bits j b)))

pub in_use-write_bit_twice :
    (i j : ℕ) (maps : ℕ → Option Bits) (bits : Bits)
    → j < 8192
    → maps i ≡ some bits
    → bits j ≡ false
    → (n : ℕ) → in_use (write_bit i j false (write_bit i j true maps)) n ≡ in_use maps n
in_use-write_bit_twice i j maps bits small here free n =
    let marked = write_bit-present i j true maps bits here in
    elim (ℕ_discrete n (j + i * 8192)) [
      | yes e ↦
          let at : (j + i * 8192) / 8192 ≡ i = omega arith in
          let rem : (j + i * 8192) % 8192 ≡ j = omega arith in
          rw
            (
              e,
              in_use-write_bit i j false (write_bit i j true maps) (update bits j true) small
                  marked,
              at,
              rem,
              here,
              free,
            )
            refl
      | no ne ↦
          in_use-write_bit_other i j false (write_bit i j true maps) (update bits j true) small
            marked n ne
          ∙ in_use-write_bit_other i j true maps bits small here n ne
    ]

-- `k` of map `i` is bit `k + i * 8192`.
pub in_use-at :
    (i j : ℕ) (maps : ℕ → Option Bits) (bits : Bits)
    → j < 8192
    → maps i ≡ some bits
    → in_use maps (j + i * 8192) ≡ bits j
in_use-at i j maps bits small here =
    let at : (j + i * 8192) / 8192 ≡ i = omega arith in
    let rem : (j + i * 8192) % 8192 ≡ j = omega arith in rw (at, rem, here) refl

-- A bit that is clear is not the reserved one.
pub clear_positive :
    (z : ℕ) (maps : ℕ → Option Bits) → in_use maps 0 ≡ true → in_use maps z ≡ false → 1 ≤ z
clear_positive z maps reserved free = elim (ℕ_discrete z 0) [
  | yes e ↦ absurd (cc (free, ap (in_use maps) e, reserved))
  | no ne ↦ omega arith
]

pub in_use-full :
    (maps : ℕ → Option Bits)
    → ((i k : ℕ) (bits : Bits) → 0 ≤ i → i < 8 → maps i ≡ some bits → k < 8192 → bits k ≡ true)
    → (n : ℕ) → n < 65536
    → in_use maps n ≡ true
in_use-full maps full n lt = elim (Option-cases (maps (n / 8192))) [
  | inl absent ↦ rw absent refl
  | inr (bits, here) ↦
      rw here (full (n / 8192) (n % 8192) bits (omega arith) (omega arith) here (omega arith))
]
