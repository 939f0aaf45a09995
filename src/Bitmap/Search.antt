-- ===== src/Bitmap/Search.antt =====
-- find_first_zero and the search loops of fs/bitmap.c.
use linux_0_1_1_comment.Prelude.{
  ltb, ltb→lt, ltb→ge, Bool-cases, Option-cases, ne→==, subst, ℕ, zero, suc, ◌+◌, ◌*◌, ◌≤◌, ◌<◌,
  ◌≡◌, sym, ap, ◌∙◌, inl, inr, true, false, Option, none, some, arith, dec_lt, ℕ_discrete,
}
use linux_0_1_1_comment.Bitmap.{Bits, first_zero_bit, first_zero_word, find_first_zero, search_maps}

-- `n` is the first clear bit from `base` on, below `top`, or `top` where there is none.
pub record FirstZero (bits : Bits) (base top n : ℕ) : Type 0 where
  pub above : base ≤ n
  pub bounded : n ≤ top
  pub used : (k : ℕ) → base ≤ k → k < n → bits k ≡ true
  pub clear : n < top → bits n ≡ false

first_zero_bit-FirstZero :
    (rounds : ℕ) (bits : Bits) (base k : ℕ)
    → FirstZero bits (base + k) (base + (k + rounds)) (base + first_zero_bit rounds bits base k)
unfolding first_zero_bit
first_zero_bit-FirstZero zero bits base k = record {
  above = omega arith;
  bounded = omega arith;
  used = λ m lo hi. absurd (omega arith);
  clear = λ lt. absurd (omega arith);
}
first_zero_bit-FirstZero (suc rounds) bits base k = elim (Bool-cases (bits (base + k))) [
  | inr free ↦ rw free (record {
    above = omega arith;
    bounded = omega arith;
    used = λ m lo hi. absurd (omega arith);
    clear = λ lt. free;
  })
  | inl taken ↦
      let ih = first_zero_bit-FirstZero rounds bits base (k + 1) in
      rw taken (record {
        above = omega (arith, ih.above);
        bounded = omega (arith, ih.bounded);
        used = λ m lo hi. elim (ℕ_discrete m (base + k)) [
          | yes e ↦ rw e taken
          | no ne ↦ ih.used m (omega arith) hi
        ];
        clear = λ lt. ih.clear (omega arith);
      })
]

first_zero_word-FirstZero :
    (words : ℕ) (bits : Bits) (base : ℕ)
    → FirstZero bits base (base + 32 * words) (first_zero_word words bits base)
unfolding first_zero_word
first_zero_word-FirstZero zero bits base = record {
  above = omega arith;
  bounded = omega arith;
  used = λ m lo hi. absurd (omega arith);
  clear = λ lt. absurd (omega arith);
}
first_zero_word-FirstZero (suc words) bits base =
    let here = first_zero_bit-FirstZero 32 bits base 0 in
    elim (ℕ_discrete (first_zero_bit 32 bits base 0) 32) [
      | no found ↦ rw (ne→== (first_zero_bit 32 bits base 0) 32 found) (record {
        above = omega (arith, here.above);
        bounded = omega (arith, here.bounded);
        used = λ m lo hi. here.used m (omega arith) hi;
        clear = λ lt. here.clear (omega (arith, here.bounded));
      })
      | yes full ↦
          let ih = first_zero_word-FirstZero words bits (base + 32) in
          rw (full) (record {
            above = omega (arith, ih.above);
            bounded = omega (arith, ih.bounded);
            used = λ m lo hi. elim (dec_lt m (base + 32)) [
              | yes before ↦ here.used m (omega arith) (omega (arith, full))
              | no after ↦ ih.used m (omega arith) hi
            ];
            clear = λ lt. ih.clear (omega arith);
          })
    ]

-- find_first_zero gives the first clear bit of the block, or 8192 where every bit is set.
pub find_first_zero-FirstZero : (bits : Bits) → FirstZero bits 0 8192 (find_first_zero bits)
unfolding find_first_zero
find_first_zero-FirstZero bits = first_zero_word-FirstZero 256 bits 0

-- What the search over the eight blocks of a map gives.
pub data Searched (maps : ℕ → Option Bits) (from to : ℕ) : Option (ℕ × ℕ) → Type 0 where
  all_used :
      ((i k : ℕ) (bits : Bits) → from ≤ i → i < to → maps i ≡ some bits → k < 8192 → bits k ≡ true)
      → Searched maps from to none
  found :
      {i j : ℕ} {bits : Bits}
      → i < to
      → maps i ≡ some bits
      → j < 8192
      → bits j ≡ false
      → Searched maps from to (some (i, j))

Searched-step :
    (maps : ℕ → Option Bits) (from to : ℕ) (r : Option (ℕ × ℕ))
    → ((k : ℕ) (bits : Bits) → maps from ≡ some bits → k < 8192 → bits k ≡ true)
    → Searched maps (from + 1) to r
    → Searched maps from to r
Searched-step maps from to none here (all_used rest) = all_used (λ i k bits lo hi e lt.
    elim (ℕ_discrete i from) [
      | yes same ↦ here k bits (ap maps (sym same) ∙ e) lt
      | no ne ↦ rest i k bits (omega arith) hi e lt
    ])
Searched-step maps from to (some (i, j)) here (found lt e small free) = found lt e small free

pub search_maps-Searched :
    (rounds i : ℕ) (maps : ℕ → Option Bits)
    → Searched maps i (i + rounds) (search_maps rounds i maps)
unfolding search_maps
search_maps-Searched zero i maps = all_used (λ n k bits lo hi e lt. absurd (omega arith))
search_maps-Searched (suc rounds) i maps =
    let ih : Searched maps (i + 1) (i + suc rounds) (search_maps rounds (i + 1) maps) =
      subst (λ to. Searched maps (i + 1) to (search_maps rounds (i + 1) maps)) (omega arith)
        (search_maps-Searched rounds (i + 1) maps) in
    elim (Option-cases (maps i)) [
      | inl absent ↦ rw absent (
          Searched-step maps i (i + suc rounds) (search_maps rounds (i + 1) maps)
            (λ k bits e lt. absurd (cc (absent, e))) ih)
      | inr (bits, here) ↦
          let first = find_first_zero-FirstZero bits in
          rw here (elim (Bool-cases (ltb (find_first_zero bits) 8192)) [
            | inl free ↦
                rw free
                  (found (omega arith) here (ltb→lt _ 8192 free) (first.clear (ltb→lt _ 8192 free)))
            | inr full ↦ rw full (
                Searched-step maps i (i + suc rounds) (search_maps rounds (i + 1) maps)
                  (λ k bits' e lt.
                    (let same : bits ≡ bits' = cc (here, e) in
                      rw (← same) (
                        first.used k (omega arith) (let past = ltb→ge _ 8192 full in omega arith))))
                  ih)
          ])
    ]
