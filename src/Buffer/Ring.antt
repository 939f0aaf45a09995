-- ===== src/Buffer/Ring.antt =====
-- The free list of fs/buffer.c: a ring of buffers, linked both ways.
use linux_0_1_1_comment.Prelude.{
  ◌∈◌, ◌∉◌, Distinct, apart, update, update_self, update_ne, ℕ, ◌≡◌, sym, ap, ◌∙◌, List, [], ◌∷◌,
  ◌++◌, arith,
}

module _ (next prev : ℕ → ℕ) where
  -- from `x` the links lead through `xs` to `y`, and back
  abbrev pub Seg : ℕ → List ℕ → ℕ → Type 0
  Seg x [] y = (next x ≡ y) × (prev y ≡ x)
  Seg x (z ∷ zs) y = (next x ≡ z) × (prev z ≡ x) × Seg z zs y

  pub Seg-split : (x z y : ℕ) (us vs : List ℕ) → Seg x (us ++ z ∷ vs) y → Seg x us z × Seg z vs y
  Seg-split x z y [] vs (n, p, s) = ((n, p), s)
  Seg-split x z y (a ∷ us) vs (n, p, s) = let (l, r) = Seg-split a z y us vs s in ((n, p, l), r)

  pub Seg-join : (x z y : ℕ) (us vs : List ℕ) → Seg x us z → Seg z vs y → Seg x (us ++ z ∷ vs) y
  Seg-join x z y [] vs (n, p) s = (n, p, s)
  Seg-join x z y (a ∷ us) vs (n, p, l) s = (n, p, Seg-join a z y us vs l s)

  pub Seg-last : (x y : ℕ) (xs : List ℕ) → Seg x xs y → (next (prev y) ≡ y) × (prev y ∈ (x ∷ xs))
  Seg-last x y [] (n, p) = (ap next p ∙ n, rw p (ground arith))
  Seg-last x y (z ∷ zs) (n, p, s) = let (l, i) = Seg-last z y zs s in (l, ground arith)

-- Links that agree on the nodes of a segment.
pub Seg-frame :
    (next prev next' prev' : ℕ → ℕ) (x y : ℕ) (xs : List ℕ)
    → ((a : ℕ) → a ∈ (x ∷ xs) → next' a ≡ next a)
    → ((a : ℕ) → a ∈ (xs ++ y ∷ []) → prev' a ≡ prev a)
    → Seg next prev x xs y
    → Seg next' prev' x xs y
Seg-frame next prev next' prev' x y [] f g (n, p) = (f x (ground arith) ∙ n, g y (ground arith) ∙ p)
Seg-frame next prev next' prev' x y (z ∷ zs) f g (n, p, s) = (
  f x (ground arith) ∙ n,
  g z (ground arith) ∙ p,
  Seg-frame next prev next' prev' z y zs (λ a i. f a (ground arith)) (λ a i. g a (ground arith)) s,
)

-- The last node `l` of a segment is linked to `z` in place of `y`.
pub Seg-relink :
    (next prev : ℕ → ℕ) (x y z : ℕ) (xs : List ℕ)
    → Distinct (x ∷ xs)
    → z ∉ xs
    → Seg next prev x xs y
    → Seg (update next (prev y) z) (update prev z (prev y)) x xs z
Seg-relink next prev x y z [] d o (n, p) = rw p (update_self next x z, update_self prev z x)
Seg-relink next prev x y z (w ∷ ws) (out, d) o (n, p, s) =
    let (l, i) = Seg-last next prev w y ws s in
    (
      update_ne next (prev y) x z (λ e. apart (prev y) x (w ∷ ws) i out (sym e)) ∙ n,
      update_ne prev z w (prev y) (ground arith) ∙ p,
      Seg-relink next prev w y z ws d (ground arith) s,
    )

-- A ring from `h`.
abbrev pub IsRing : (ℕ → ℕ) → (ℕ → ℕ) → List ℕ → Type 0
IsRing next prev [] = ⊥
IsRing next prev (h ∷ t) = Seg next prev h t h

-- The same ring from another node.
pub IsRing-rotate :
    (next prev : ℕ → ℕ) (h z : ℕ) (us vs : List ℕ)
    → IsRing next prev (h ∷ (us ++ z ∷ vs))
    → IsRing next prev (z ∷ (vs ++ h ∷ us))
IsRing-rotate next prev h z us vs r =
    let (l, s) = Seg-split next prev h z h us vs r in Seg-join next prev z h z vs us s l
