-- ===== src/Buffer/Find.antt =====
-- find_buffer of fs/buffer.c finds the buffer of a block, when there is one.
use mathlib.Core.Path.{ap₂}
use linux_0_1_1_comment.Prelude.{
  ◌==◌, ==_refl, Bool-cases, ne→==, ◌∈◌, ◌∉◌, not_null, length_within, length, subst, ℕ, zero, suc,
  ◌+◌, ◌≤◌, ◌≡◌, sym, ◌∙◌, ◌≢◌, inl, inr, ◌&&◌, List, [], ◌∷◌, arith, ℕ_discrete,
}
use linux_0_1_1_comment.Buffer.{Cache, hashfn, find_loop, find_buffer}
use linux_0_1_1_comment.Buffer.Chain.{Chain}
use linux_0_1_1_comment.Buffer.Queues.{IsCache, null-queue}

-- The buffer of the block, or NULL when no buffer of `l` is for it.

pub data Cached (s : Cache) (l : List ℕ) (dev block : ℕ) : ℕ → Type 0 where
  hit : (b : ℕ) → b ∈ l → s.b_dev b ≡ dev → s.b_blocknr b ≡ block → Cached s l dev block b
  miss : ((a : ℕ) → a ∈ l → s.b_dev a ≡ dev → s.b_blocknr a ≡ block → ⊥) → Cached s l dev block 0

-- One buffer more, for another block.
further :
    (s : Cache) (ys : List ℕ) (dev block y r : ℕ)
    → (s.b_dev y ≡ dev → s.b_blocknr y ≡ block → ⊥)
    → Cached s ys dev block r
    → Cached s (y ∷ ys) dev block r
further s ys dev block y r no_match (hit b i d e) = hit b (ground arith) d e
further s ys dev block y r no_match (miss f) = miss (λ a i d e. elim (ℕ_discrete a y) [
  | yes p ↦ no_match (subst (λ z. s.b_dev z ≡ dev) p d) (subst (λ z. s.b_blocknr z ≡ block) p e)
  | no ne ↦ f a (ground (arith, ne→== a y ne)) d e
])

-- The loop stays on the queue, and passes over no buffer of the block.
find_loop-Cached :
    (dev block n x back : ℕ) (s : Cache) (xs : List ℕ)
    → Chain s.b_next s.b_prev x back xs
    → 0 ∉ xs
    → suc (length xs) ≤ n
    → Cached s xs dev block (find_loop n x dev block s)
unfolding find_loop
find_loop-Cached dev block zero x back s xs c o le = absurd (ground arith)
find_loop-Cached dev block (suc n) x back s [] c o le = rw c (miss (λ a i. absurd (ground arith)))
find_loop-Cached dev block (suc n) x back s (y ∷ ys) (e, p, c) o le =
    let ih = find_loop-Cached dev block n (s.b_next y) y s ys c (ground arith) (ground arith) in
    let y0 = not_null y (y ∷ ys) o (ground arith) in
    rw (e, y0)
      (elim (Bool-cases ((s.b_dev y == dev) && (s.b_blocknr y == block))) [
        | inl t ↦ rw t (hit y (ground arith) (ground arith) (ground arith))
        | inr t ↦ rw t (
            further s ys dev block y _ (λ d e. absurd (cc (t, d, e, ==_refl dev, ==_refl block)))
              ih)
      ])

module _ (s : Cache) (l : List ℕ) (q : ℕ → List ℕ) (f : IsCache s l q) where
  length-queue : (k : ℕ) → length (q k) ≤ s.nr_buffers
  length-queue k =
      let n = length_within (q k) l (f.distinct k) (λ a i. (f.hashed k a i).0) in
      let m = f.enough in omega arith

  from_queue :
      (dev block r : ℕ)
      → dev ≢ 0
      → Cached s (q (hashfn dev block)) dev block r
      → Cached s l dev block r
  from_queue dev block r ne (hit b i d e) = hit b ((f.hashed (hashfn dev block) b i).0) d e
  from_queue dev block r ne (miss g) = miss (λ a i d e.
      let j = f.queued a i (λ z. ne (sym d ∙ z)) in
      g a (subst (λ k. a ∈ q k) (ap₂ hashfn d e) j) d e)

  -- find_buffer finds the buffer of a block that has one, and NULL for the others.
  pub find_buffer-Cached :
      (dev block : ℕ) → dev ≢ 0 → Cached s l dev block (find_buffer dev block s)
  unfolding find_buffer
  find_buffer-Cached dev block ne =
      let k = hashfn dev block in
      from_queue dev block _ ne (
        find_loop-Cached dev block (s.nr_buffers + 1) (s.hash_table k) 0 s (q k) (f.queue k)
          (null-queue s l q f k) (let n = length-queue k in omega arith))
