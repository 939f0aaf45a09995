-- ===== src/Buffer/Queues.antt =====
-- The links of the cache of fs/buffer.c: the free list, and a queue for each hash value.
-- the queue that a buffer belongs to
use linux_0_1_1_comment.Prelude.{
  ◌==◌, Bool-cases, ne→==, has, ◌∈◌, ◌∉◌, Distinct, apart, not_null, length, ℕ, ◌≤◌, ◌≡◌, ◌∙◌, ◌≢◌,
  ◌⊎◌, inl, inr, false, List, ◌∷◌, arith, ℕ_discrete,
}
use linux_0_1_1_comment.Buffer.{Cache, hashfn, unlink_prev, unlink_next}
use linux_0_1_1_comment.Buffer.Chain.{Chain, first-Chain, Skips, next-Chain, prev-Chain}
use linux_0_1_1_comment.Buffer.Free.{IsFreeList}

abbrev pub key : Cache → ℕ → ℕ
key s a = hashfn (s.b_dev a) (s.b_blocknr a)

-- `l` is the free list and `q k` the queue of the hash value `k`: the queues hold the buffers that
-- have a device, and no block has two buffers.
pub record IsCache (s : Cache) (l : List ℕ) (q : ℕ → List ℕ) : Type 0 where
  pub free : IsFreeList s.b_next_free s.b_prev_free s.free_list l
  pub queue : (k : ℕ) → Chain s.b_next s.b_prev (s.hash_table k) 0 (q k)
  pub distinct : (k : ℕ) → Distinct (q k)
  pub hashed : (k a : ℕ) → a ∈ q k → (a ∈ l) × (s.b_dev a ≢ 0) × (key s a ≡ k)
  pub queued : (a : ℕ) → a ∈ l → s.b_dev a ≢ 0 → a ∈ q (key s a)
  pub loose : (a : ℕ) → a ∈ l → s.b_dev a ≡ 0 → (s.b_next a ≡ 0) × (s.b_prev a ≡ 0)
  pub one :
      (a c : ℕ)
      → a ∈ l
      → c ∈ l
      → s.b_dev a ≢ 0
      → s.b_dev a ≡ s.b_dev c
      → s.b_blocknr a ≡ s.b_blocknr c
      → a ≡ c
  pub enough : length l ≤ s.nr_buffers

-- What the changes of the links leave alone.
pub record Relinked (s t : Cache) : Type 0 where
  pub dev : t.b_dev ≡ s.b_dev
  pub blocknr : t.b_blocknr ≡ s.b_blocknr
  pub uptodate : t.b_uptodate ≡ s.b_uptodate
  pub dirt : t.b_dirt ≡ s.b_dirt
  pub count : t.b_count ≡ s.b_count
  pub bits : t.b_bits ≡ s.b_bits
  pub nr : t.nr_buffers ≡ s.nr_buffers

-- The stores of remove_from_queues into the links of the queues.
pub unlink-Skips :
    (next prev : ℕ → ℕ) (b : ℕ)
    → Skips next prev (unlink_next next (unlink_prev next prev b) b) (unlink_prev next prev b) b
unlink-Skips next prev b =
    let own : unlink_prev next prev b b ≡ prev b = ground arith in
    record {
      next_at = λ ne. ground (arith, own, ne→== (prev b) 0 ne);
      next_else = λ a ne. ground (arith, own, ne→== a (prev b) ne);
      prev_at = λ ne. ground (arith, ne→== (next b) 0 ne);
      prev_else = λ a ne. ground (arith, ne→== a (next b) ne);
    }

null_or : (m : ℕ) (xs : List ℕ) → m ∈ (0 ∷ xs) → (m ≡ 0) ⊎ (m ∈ xs)
null_or m xs i = elim (ℕ_discrete m 0) [
  | yes z ↦ inl z
  | no ne ↦ inr (ground (arith, ne→== m 0 ne))
]

-- NULL, or on the queue of `b`
abbrev pub Beside : Cache → (ℕ → List ℕ) → ℕ → ℕ → Type 0
Beside s q b m = (m ≡ 0) ⊎ ((s.b_dev b ≢ 0) × (m ∈ q (key s b)))

module _ (s : Cache) (l : List ℕ) (q : ℕ → List ℕ) (f : IsCache s l q) where
  -- Queues have no NULL.
  pub null-queue : (k : ℕ) → 0 ∉ q k
  null-queue k = elim (Bool-cases (has 0 (q k))) [
    | inl i ↦ absurd (cc ((f.hashed k 0 i).0, f.free.no_null))
    | inr o ↦ o
  ]

  pub next-Beside : (b : ℕ) → b ∈ l → Beside s q b (s.b_next b)
  next-Beside b i = elim (ℕ_discrete (s.b_dev b) 0) [
    | yes z ↦ inl ((f.loose b i z).0)
    | no ne ↦
        let j = f.queued b i ne in
        elim (null_or (s.b_next b) (q (key s b))
          (next-Chain s.b_next s.b_prev b _ 0 (q (key s b)) (f.queue (key s b)) j)) [
            | inl z ↦ inl z
            | inr m ↦ inr (ne, m)
          ]
  ]

  pub prev-Beside : (b : ℕ) → b ∈ l → Beside s q b (s.b_prev b)
  prev-Beside b i = elim (ℕ_discrete (s.b_dev b) 0) [
    | yes z ↦ inl ((f.loose b i z).1)
    | no ne ↦
        let j = f.queued b i ne in
        elim (prev-Chain s.b_next s.b_prev b _ 0 (q (key s b)) (f.queue (key s b)) j) [
          | inl (e, z) ↦ inl z
          | inr (e, m) ↦ inr (ne, m)
        ]
  ]

  -- A neighbour of `b` is no buffer of another queue, and none outside of the queues.
  pub apart-Beside :
      (b a m : ℕ) → Beside s q b m → a ∈ l → (s.b_dev b ≢ 0 → a ∉ q (key s b)) → a ≢ m
  apart-Beside b a m (inl z) i away e = apart a 0 l i f.free.no_null (e ∙ z)
  apart-Beside b a m (inr (ne, j)) i away e = absurd (cc (away ne, e, j))

  -- The front of a queue.
  pub head_of-queue : (k b : ℕ) → b ∈ l → b ∉ q k → (s.hash_table k == b) ≡ false
  head_of-queue k b i o =
      let first = first-Chain s.b_next s.b_prev (s.hash_table k) 0 (q k) (f.queue k) in
      let b0 = not_null b l f.free.no_null i in
      ne→== (s.hash_table k) b (apart (s.hash_table k) b (0 ∷ q k) first (ground arith))
