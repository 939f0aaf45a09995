-- ===== src/Buffer/Chain.antt =====
-- A hash queue of fs/buffer.c: buffers linked both ways, with NULL at both ends.
-- from `x` on, behind `back`
use linux_0_1_1_comment.Prelude.{
  ◌==◌, if◌then◌else◌, ==_refl, ne→==, ◌∈◌, ◌∉◌, Distinct, without, apart, subst, ℕ, ◌≡◌, refl, sym,
  ◌∙◌, ◌≢◌, ◌⊎◌, inl, inr, List, [], ◌∷◌, arith, ℕ_discrete,
}

abbrev pub Chain : (ℕ → ℕ) → (ℕ → ℕ) → ℕ → ℕ → List ℕ → Type 0
Chain next prev x back [] = x ≡ 0
Chain next prev x back (y ∷ ys) = (x ≡ y) × (prev y ≡ back) × Chain next prev (next y) y ys

pub first-Chain :
    (next prev : ℕ → ℕ) (x back : ℕ) (xs : List ℕ) → Chain next prev x back xs → x ∈ (0 ∷ xs)
first-Chain next prev x back [] c = rw c refl
first-Chain next prev x back (y ∷ ys) (e, p, c) = rw e (ground arith)

-- Links that agree on the buffers of a queue.
pub Chain-frame :
    (next prev next' prev' : ℕ → ℕ) (x back : ℕ) (xs : List ℕ)
    → ((a : ℕ) → a ∈ xs → next' a ≡ next a)
    → ((a : ℕ) → a ∈ xs → prev' a ≡ prev a)
    → Chain next prev x back xs
    → Chain next' prev' x back xs
Chain-frame next prev next' prev' x back [] f g c = c
Chain-frame next prev next' prev' x back (y ∷ ys) f g (e, p, c) = (
  e,
  g y (ground arith) ∙ p,
  rw (f y (ground arith)) (
      Chain-frame next prev next' prev' (next y) y ys (λ a i. f a (ground arith))
        (λ a i. g a (ground arith)) c),
)

-- What the stores of remove_from_queues do to the links, for the buffer `b`.
pub record Skips (next prev next' prev' : ℕ → ℕ) (b : ℕ) : Type 0 where
  pub next_at : prev b ≢ 0 → next' (prev b) ≡ next b
  pub next_else : (a : ℕ) → a ≢ prev b → next' a ≡ next a
  pub prev_at : next b ≢ 0 → prev' (next b) ≡ prev b
  pub prev_else : (a : ℕ) → a ≢ next b → prev' a ≡ prev a

module _ (next prev : ℕ → ℕ) (b : ℕ) where
  -- The neighbours of a buffer are on its queue.
  pub next-Chain :
      (x back : ℕ) (xs : List ℕ) → Chain next prev x back xs → b ∈ xs → next b ∈ (0 ∷ xs)
  next-Chain x back [] c i = absurd (ground arith)
  next-Chain x back (y ∷ []) (e, p, c) i = ground arith
  next-Chain x back (y ∷ z ∷ zs) (e, p, c) i =
      let ih = next-Chain (next y) y (z ∷ zs) c in ground (arith, ih, c.0)

  pub prev-Chain :
      (x back : ℕ) (xs : List ℕ)
      → Chain next prev x back xs
      → b ∈ xs
      → ((x ≡ b) × (prev b ≡ back)) ⊎ ((x ≢ b) × (prev b ∈ xs))
  prev-Chain x back [] c i = absurd (ground arith)
  prev-Chain x back (y ∷ ys) (e, p, c) i = elim (ℕ_discrete y b) [
    | yes q ↦ inl (e ∙ q, subst (λ a. prev a ≡ back) q p)
    | no ne ↦ elim (prev-Chain (next y) y ys c (ground arith)) [
      | inl (q, l) ↦ inr (λ f. ne (sym e ∙ f), ground arith)
      | inr (q, l) ↦ inr (λ f. ne (sym e ∙ f), ground arith)
    ]
  ]

  module _ (next' prev' : ℕ → ℕ) (k : Skips next prev next' prev' b) where
    -- behind the buffer itself
    Skips_first :
        (back : ℕ) (ys : List ℕ)
        → Chain next prev (next b) b ys
        → Distinct ys
        → 0 ∉ ys
        → back ∉ ys
        → prev b ≡ back
        → Chain next' prev' (next b) back ys
    Skips_first back [] c d o ob p = c
    Skips_first back (z ∷ zs) (e, q, c) (out, d) o ob p =
        let z_ne : z ≢ 0 = apart z 0 (z ∷ zs) (ground arith) o in
        let at : prev' z ≡ prev b =
          subst (λ a. prev' a ≡ prev b) e (k.prev_at (λ f. z_ne (sym e ∙ f))) in
        let off : (a : ℕ) → a ∈ (z ∷ zs) → a ≢ prev b = λ a i. rw p (apart a back (z ∷ zs) i ob) in
        (
          e,
          at ∙ p,
          rw (k.next_else z (off z (ground arith))) (
              Chain-frame next prev next' prev' (next z) z zs
                (λ a i. k.next_else a (off a (ground arith)))
                (λ a i. k.prev_else a (λ f. apart a z zs i out (f ∙ e))) c),
        )

    -- one link further on
    step :
        (y : ℕ) (ys : List ℕ)
        → Chain next prev (next y) y ys
        → y ∉ ys
        → y ≢ 0
        → b ∈ ys
        → next' y ≡ (if next y == b then next b else next y)
    step y ys c out y_ne i = elim (prev-Chain (next y) y ys c i) [
      | inl (q, l) ↦
          rw (q, ==_refl b) (subst (λ a. next' a ≡ next b) l (k.next_at (λ f. y_ne (sym l ∙ f))))
      | inr (q, l) ↦
          rw (ne→== (next y) b q) (k.next_else y (λ f. apart (prev b) y ys l out (sym f)))
    ]

    pub Skips-Chain :
        (x back : ℕ) (xs : List ℕ)
        → Chain next prev x back xs
        → Distinct xs
        → 0 ∉ xs
        → back ∉ xs
        → b ∈ xs
        → Chain next' prev' (if x == b then next b else x) back (without b xs)
    unfolding without
    Skips-Chain x back [] c d o ob i = absurd (ground arith)
    Skips-Chain x back (y ∷ ys) (e, p, c) (out, d) o ob i = elim (ℕ_discrete y b) [
      | yes q ↦
          rw (e, q, ==_refl b)
            (Skips_first back ys (subst (λ a. Chain next prev (next a) a ys) q c) d (ground arith)
              (ground arith) (subst (λ a. prev a ≡ back) q p))
      | no ne ↦
          let y_ne : y ≢ 0 = apart y 0 (y ∷ ys) (ground arith) o in
          let y0 = ne→== y 0 y_ne in
          let inside : b ∈ ys = ground arith in
          let ih = Skips-Chain (next y) y ys c d (ground arith) out inside in
          rw (e, ne→== y b ne)
            (
              refl,
              k.prev_else y (λ f.
                    apart (next b) y (0 ∷ ys) (next-Chain (next y) y ys c inside) (ground arith)
                      (sym f))
                  ∙ p,
              rw (step y ys c out y_ne inside) ih,
            )
    ]
