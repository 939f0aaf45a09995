-- ===== src/Prelude/Members.antt =====
-- Lists of numbers without repetitions, and their members.
use Prim.Native.Nat.{ℕ, suc, ◌≤◌}
use mathlib.Core.Path.{◌≡◌, refl, ap, ◌∙◌}
use mathlib.Core.Logic.{◌≢◌, inl, inr}
use mathlib.Core.Bool.{Bool, true, false, ◌||◌}
use mathlib.Core.List.{List, [], ◌∷◌, ◌++◌}
use native.Mathlib.Omega.{arith}
unfoldable use native.Mathlib.Decide.{ℕ_discrete}
use linux_0_1_1_comment.Prelude.Tests.{◌==◌, if◌then◌else◌, ==_refl, ne→==, Bool-cases}
use linux_0_1_1_comment.Prelude.Lists.{length}

abbrev pub has : ℕ → List ℕ → Bool
has a [] = false
has a (x ∷ xs) = (a == x) || has a xs

infix 40 ◌∈◌ ◌∉◌
abbrev pub ◌∈◌ : ℕ → List ℕ → Type 0
a ∈ xs = has a xs ≡ true

abbrev pub ◌∉◌ : ℕ → List ℕ → Type 0
a ∉ xs = has a xs ≡ false

abbrev pub Distinct : List ℕ → Type 0
Distinct [] = Unit {0}
Distinct (x ∷ xs) = (x ∉ xs) × Distinct xs

-- `xs` without `b`
unfoldable pub without : ℕ → List ℕ → List ℕ
without b [] = []
without b (x ∷ xs) = if x == b then xs else x ∷ without b xs

pub has-append : (a : ℕ) (xs ys : List ℕ) → has a (xs ++ ys) ≡ (has a xs || has a ys)
has-append a [] ys = refl
has-append a (x ∷ xs) ys = ground (arith, has-append a xs ys)

pub apart : (a b : ℕ) (xs : List ℕ) → a ∈ xs → b ∉ xs → a ≢ b
apart a b xs i o e = cc (i, o, e)

pub Distinct-append :
    (xs ys : List ℕ) → Distinct (xs ++ ys) → Distinct xs × Distinct ys × ((a : ℕ) → a ∈ xs → a ∉ ys)
Distinct-append [] ys d = (tt, d, λ a i. absurd (ground arith))
Distinct-append (x ∷ xs) ys (out, d) =
    let (l, r, sep) = Distinct-append xs ys d in
    let e = has-append x xs ys in
    ((ground arith, l), r, λ a i. ground (arith, sep a, e, has-append a xs ys))

pub append-Distinct :
    (xs ys : List ℕ) → Distinct xs → Distinct ys → ((a : ℕ) → a ∈ xs → a ∉ ys) → Distinct (xs ++ ys)
append-Distinct [] ys l r sep = r
append-Distinct (x ∷ xs) ys (out, l) r sep =
    let e = has-append x xs ys in
    let first : x ∉ ys = sep x (ground arith) in
    (ground arith, append-Distinct xs ys l r (λ a i. sep a (ground arith)))

pub not_in-without : (b : ℕ) (xs : List ℕ) → Distinct xs → b ∉ without b xs
unfolding without
not_in-without b [] d = refl
not_in-without b (x ∷ xs) (out, d) = let ih = not_in-without b xs d in ground arith

pub has-without : (a b : ℕ) (xs : List ℕ) → a ≢ b → has a (without b xs) ≡ has a xs
unfolding without
has-without a b [] ne = refl
has-without a b (x ∷ xs) ne = let ih = has-without a b xs ne in ground arith

pub without-Distinct : (b : ℕ) (xs : List ℕ) → Distinct xs → Distinct (without b xs)
unfolding without
without-Distinct b [] d = tt
without-Distinct b (x ∷ xs) (out, d) = elim (ℕ_discrete x b) [
  | yes e ↦ rw (e, ==_refl b) d
  | no ne ↦ rw (ne→== x b ne) (has-without x b xs ne ∙ out, without-Distinct b xs d)
]

-- Where a member stands.
pub split_at :
    (b : ℕ) (xs : List ℕ)
    → b ∈ xs
    → Distinct xs
    → (us vs : List ℕ) × (xs ≡ us ++ b ∷ vs) × (without b xs ≡ us ++ vs)
unfolding without
split_at b [] i d = absurd (ground arith)
split_at b (x ∷ xs) i (out, d) = elim (ℕ_discrete x b) [
  | yes e ↦ ([], xs, ap (λ y. y ∷ xs) e, rw (e, ==_refl b) refl)
  | no ne ↦
      let (us, vs, p, q) = split_at b xs (ground arith) d in
      (x ∷ us, vs, ap (◌∷◌ x) p, rw (ne→== x b ne, q) refl)
]

pub without-subset : (a b : ℕ) (xs : List ℕ) → a ∈ without b xs → a ∈ xs
unfolding without
without-subset a b [] i = i
without-subset a b (x ∷ xs) i = let ih = without-subset a b xs in ground (arith, ih)

-- What is on a list without NULL is not NULL.
pub not_null : (a : ℕ) (xs : List ℕ) → 0 ∉ xs → a ∈ xs → (a == 0) ≡ false
not_null a xs o i = ne→== a 0 (apart a 0 xs i o)

pub not_in_rest : (a b : ℕ) (xs : List ℕ) → a ∉ xs → a ∉ without b xs
not_in_rest a b xs o = elim (Bool-cases (has a (without b xs))) [
  | inl j ↦ absurd (cc (without-subset a b xs j, o))
  | inr j ↦ j
]

pub without-stranger : (b : ℕ) (xs : List ℕ) → b ∉ xs → without b xs ≡ xs
unfolding without
without-stranger b [] o = refl
without-stranger b (x ∷ xs) o =
    let ne : (x == b) ≡ false = ne→== x b (λ e. absurd (cc (e, o, ==_refl b))) in
    rw (ne, without-stranger b xs (ground (arith, ne))) refl

pub in_rest : (a b : ℕ) (xs : List ℕ) → a ∈ xs → a ≢ b → a ∈ without b xs
in_rest a b xs i ne = has-without a b xs ne ∙ i

-- What is left is not `b`.
pub rest_apart : (a b : ℕ) (xs : List ℕ) → Distinct xs → a ∈ without b xs → a ≢ b
rest_apart a b xs d i e = absurd (cc (e, i, not_in-without b xs d))

pub length-without : (b : ℕ) (xs : List ℕ) → b ∈ xs → length xs ≡ suc (length (without b xs))
unfolding without
length-without b [] i = absurd (ground arith)
length-without b (x ∷ xs) i = elim (ℕ_discrete x b) [
  | yes e ↦ rw (e, ==_refl b) refl
  | no ne ↦ rw (ne→== x b ne) (ap suc (length-without b xs (ground (arith, ne→== x b ne))))
]

-- A list without repetitions is no longer than one that has all of its members.
pub length_within :
    (xs ys : List ℕ) → Distinct xs → ((a : ℕ) → a ∈ xs → a ∈ ys) → length xs ≤ length ys
length_within [] ys d within = ground arith
length_within (x ∷ xs) ys (out, d) within =
    let len = length-without x ys (within x (ground arith)) in
    let ih =
      length_within xs (without x ys) d
        (λ a i. in_rest a x ys (within a (ground arith)) (apart a x xs i out)) in
    omega arith

-- What is left of a list when a member that occurs once is taken out.
pub without-middle :
    (b : ℕ) (us vs : List ℕ) → Distinct (us ++ b ∷ vs) → without b (us ++ b ∷ vs) ≡ us ++ vs
unfolding without
without-middle b [] vs d = rw (==_refl b) refl
without-middle b (u ∷ us) vs (out, d) =
    let e = has-append u us (b ∷ vs) in
    let ne : (u == b) ≡ false = ground arith in rw ne (ap (◌∷◌ u) (without-middle b us vs d))
