-- ===== src/Buffer/Free.antt =====
-- remove_from_queues and insert_into_queues of fs/buffer.c on the free list.
use mathlib.Core.List.{append-nil}
use linux_0_1_1_comment.Prelude.{
  ◌==◌, if◌then◌else◌, ==_refl, Bool-cases, ne→==, has, ◌∈◌, ◌∉◌, Distinct, without, has-append,
  apart, Distinct-append, append-Distinct, without-Distinct, split_at, without-subset, not_null,
  not_in_rest, update, update_ne, length, subst, ℕ, ◌≤◌, ◌≡◌, refl, sym, ◌∙◌, inl, inr, some, List,
  [], ◌∷◌, ◌++◌, arith,
}
use linux_0_1_1_comment.Buffer.{Cache, remove_from_free}
use linux_0_1_1_comment.Buffer.Ring.{Seg-last, Seg-relink, IsRing, IsRing-rotate}

-- The free list is the ring `xs`, from `first` on, without NULL.
pub record IsFreeList (next prev : ℕ → ℕ) (first : ℕ) (xs : List ℕ) : Type 0 where
  pub ring : IsRing next prev xs
  pub distinct : Distinct xs
  pub no_null : 0 ∉ xs
  pub starts : (rest : List ℕ) × (xs ≡ first ∷ rest)

-- The stores of remove_from_queues, for the first node of a ring of two or more.
remove_front :
    (next prev : ℕ → ℕ) (b z : ℕ) (zs : List ℕ)
    → Distinct (b ∷ z ∷ zs)
    → IsRing next prev (b ∷ z ∷ zs)
    → (next b ≡ z)
      × (update next (prev b) (next b) b ≡ z)
      × (prev b ∈ (z ∷ zs))
      × IsRing (update next (prev b) z) (update prev z (prev b)) (z ∷ zs)
remove_front next prev b z zs (out, d) (n, p, s) =
    let (l, i) = Seg-last next prev z b zs s in
    (
      n,
      update_ne next (prev b) b (next b) (λ e. apart (prev b) b (z ∷ zs) i out (sym e)) ∙ n,
      i,
      Seg-relink next prev z b z zs d (d.0) s,
    )

-- What removing `b` from a ring leaves, behind `b` first and then from the front.
record Unlinked (next prev : ℕ → ℕ) (b : ℕ) (xs : List ℕ) : Type 0 where
  stored : update next (prev b) (next b) b ≡ next b
  before : prev b ∈ xs
  behind : next b ∈ xs
  ring : IsRing (update next (prev b) (next b)) (update prev (next b) (prev b)) xs

front-Unlinked :
    (next prev : ℕ → ℕ) (b z : ℕ) (zs : List ℕ)
    → Distinct (b ∷ z ∷ zs)
    → IsRing next prev (b ∷ z ∷ zs)
    → (next b ≡ z) × Unlinked next prev b (z ∷ zs)
front-Unlinked next prev b z zs d r =
    let (n, st, i, ring) = remove_front next prev b z zs d r in
    (n, record { stored = st ∙ sym n; before = i; behind = rw n (ground arith); ring = rw n ring })

-- Distinct nodes stay so when the ring is turned.
Distinct-turn : (xs ys : List ℕ) → Distinct (xs ++ ys) → Distinct (ys ++ xs)
Distinct-turn xs ys d =
    let (l, r, sep) = Distinct-append xs ys d in
    append-Distinct ys xs r l
      (λ a i. elim (Bool-cases (has a xs)) [ inl j ↦ absurd (cc (sep a j, i)) | inr j ↦ j ])

has-turn : (a : ℕ) (xs ys : List ℕ) → has a (ys ++ xs) ≡ has a (xs ++ ys)
has-turn a xs ys = ground (arith, has-append a xs ys, has-append a ys xs)

middle-Unlinked :
    (next prev : ℕ → ℕ) (h b : ℕ) (us vs : List ℕ)
    → Distinct (h ∷ (us ++ b ∷ vs))
    → IsRing next prev (h ∷ (us ++ b ∷ vs))
    → Unlinked next prev b (h ∷ (us ++ vs))
middle-Unlinked next prev h b us [] d r =
    let turned = IsRing-rotate next prev h b us [] r in
    let d' = Distinct-turn (h ∷ us) (b ∷ []) d in
    let u = (front-Unlinked next prev b h us d' turned).1 in rw (append-nil us) u
middle-Unlinked next prev h b us (v ∷ vs) d r =
    let turned = IsRing-rotate next prev h b us (v ∷ vs) r in
    let d' = Distinct-turn (h ∷ us) (b ∷ v ∷ vs) d in
    let u = (front-Unlinked next prev b v (vs ++ h ∷ us) d' turned).1 in
    record {
      stored = u.stored;
      before = has-turn (prev b) (v ∷ vs) (h ∷ us) ∙ u.before;
      behind = has-turn (next b) (v ∷ vs) (h ∷ us) ∙ u.behind;
      ring = IsRing-rotate _ _ v h vs us u.ring;
    }

-- Removing the first node or another one, by where `split_at` finds it.
at-Unlinked :
    (next prev : ℕ → ℕ) (first b : ℕ) (rest us vs : List ℕ)
    → Distinct (us ++ b ∷ vs)
    → IsRing next prev (us ++ b ∷ vs)
    → us ++ b ∷ vs ≡ first ∷ rest
    → 2 ≤ length (us ++ b ∷ vs)
    → Unlinked next prev b (us ++ vs)
      × ((rest' : List ℕ) × (us ++ vs ≡ (if first == b then next b else first) ∷ rest'))
at-Unlinked next prev first b rest [] [] d r e two = absurd (ground arith)
at-Unlinked next prev first b rest [] (v ∷ vs) d r e two =
    let (n, u) = front-Unlinked next prev b v vs d r in
    let same : b ≡ first = cc (e) in (u, (vs, rw (sym same, ==_refl b, n) refl))
at-Unlinked next prev first b rest (h ∷ us) vs d r e two =
    let u = middle-Unlinked next prev h b us vs d r in
    let same : h ≡ first = cc (e) in
    let (out, d') = d in
    let inside : b ∈ (us ++ b ∷ vs) = has-append b us (b ∷ vs) ∙ ground arith in
    (
      u,
      (us ++ vs, rw (sym same, ne→== h b (λ q. apart b h (us ++ b ∷ vs) inside out (sym q))) refl),
    )

-- One node of two or more, wherever it stands.
any-Unlinked :
    (next prev : ℕ → ℕ) (first b : ℕ) (xs : List ℕ)
    → IsFreeList next prev first xs
    → b ∈ xs
    → 2 ≤ length xs
    → Unlinked next prev b (without b xs)
      × ((rest : List ℕ) × (without b xs ≡ (if first == b then next b else first) ∷ rest))
any-Unlinked next prev first b xs f i two =
    let (us, vs, p, q) = split_at b xs i f.distinct in
    let (rest, e) = f.starts in
    let at =
      at-Unlinked next prev first b rest us vs (subst Distinct p f.distinct)
        (subst (IsRing next prev) p f.ring) (sym p ∙ e) (subst (λ ys. 2 ≤ length ys) p two) in
    rw q at

module _ (b : ℕ) (s : Cache) (xs : List ℕ) where
  -- remove_from_queues does not panic, and takes `b` from the free list.
  pub remove_from_free-IsFreeList :
      IsFreeList s.b_next_free s.b_prev_free s.free_list xs
      → b ∈ xs
      → 2 ≤ length xs
      → (next prev : ℕ → ℕ) × (first : ℕ) × (remove_from_free b s
          ≡ some (record s { b_next_free = next; b_prev_free = prev; free_list = first }))
        × IsFreeList next prev first (without b xs)
  unfolding remove_from_free
  remove_from_free-IsFreeList f i two =
      let (u, starts) = any-Unlinked s.b_next_free s.b_prev_free s.free_list b xs f i two in
      let next = update s.b_next_free (s.b_prev_free b) (s.b_next_free b) in
      let p0 = not_null (s.b_prev_free b) xs f.no_null (without-subset _ b xs u.before) in
      let n0 = not_null (s.b_next_free b) xs f.no_null (without-subset _ b xs u.behind) in
      (
        next,
        update s.b_prev_free (s.b_next_free b) (s.b_prev_free b),
        (if s.free_list == b then s.b_next_free b else s.free_list),
        rw (p0, n0, u.stored) refl,
        record {
          ring = u.ring;
          distinct = without-Distinct b xs f.distinct;
          no_null = not_in_rest 0 b xs f.no_null;
          starts = starts;
        },
      )
