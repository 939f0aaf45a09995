-- ===== src/Buffer/Unqueue.antt =====
-- remove_from_queues of fs/buffer.c keeps the free list and the hash queues in order.
use linux_0_1_1_comment.Prelude.{
  ◌==◌, if◌then◌else◌, Bool-cases, ne→==, has, ◌∈◌, ◌∉◌, without, without-Distinct, without-subset,
  without-stranger, in_rest, rest_apart, length-without, update, length, ℕ, ◌≤◌, ◌≡◌, refl, sym,
  ◌∙◌, ◌≢◌, inl, inr, false, some, List, arith, ℕ_discrete,
}
use linux_0_1_1_comment.Buffer.{
  Cache, unlink_prev, unlink_next, remove_from_hash, remove_from_queues,
}
use linux_0_1_1_comment.Buffer.Chain.{Chain, Chain-frame, Skips, Skips-Chain}
use linux_0_1_1_comment.Buffer.Free.{IsFreeList, remove_from_free-IsFreeList}
use linux_0_1_1_comment.Buffer.Queues.{
  key, IsCache, Relinked, unlink-Skips, Beside, null-queue, next-Beside, prev-Beside, apart-Beside,
  head_of-queue,
}

table_at :
    (t : ℕ → ℕ) (k b v w : ℕ)
    → v ≡ w
    → (if t k == b then update t k v else t) k ≡ (if t k == b then w else t k)
table_at t k b v w e = ground (arith, e)

table_else :
    (t : ℕ → ℕ) (i k b v w : ℕ)
    → k ≢ i
    → (t k == b) ≡ false
    → (if t i == b then update t i v else t) k ≡ (if t k == b then w else t k)
table_else t i k b v w ne e = ground (arith, e, ne→== k i ne)

module _ (b : ℕ) (s : Cache) (l : List ℕ) (q : ℕ → List ℕ) (f : IsCache s l q) (i : b ∈ l) where
  skips : Skips s.b_next s.b_prev (remove_from_hash b s).b_next (remove_from_hash b s).b_prev b
  unfolding remove_from_hash
  skips = unlink-Skips s.b_next s.b_prev b

  other_queue : (k : ℕ) → k ≢ key s b → b ∉ q k
  other_queue k ne = elim (Bool-cases (has b (q k))) [
    | inl j ↦ absurd (ne (sym ((f.hashed k b j).2)))
    | inr o ↦ o
  ]

  -- The table leads past `b`.
  entry :
      (k : ℕ)
      → (remove_from_hash b s).hash_table k
        ≡ (if s.hash_table k == b then s.b_next b else s.hash_table k)
  unfolding remove_from_hash
  entry k =
      let own : unlink_next s.b_next (unlink_prev s.b_next s.b_prev b) b b ≡ s.b_next b =
        ground arith in
      elim (ℕ_discrete k (key s b)) [
        | yes e ↦ rw e (table_at s.hash_table (key s b) b _ (s.b_next b) own)
        | no ne ↦
            table_else s.hash_table (key s b) k b _ (s.b_next b) ne
              (head_of-queue s l q f k b i (other_queue k ne))
      ]

  queue_apart : (k : ℕ) → b ∉ q k → (a : ℕ) → a ∈ q k → s.b_dev b ≢ 0 → a ∉ q (key s b)
  queue_apart k o a j ne = elim (Bool-cases (has a (q (key s b)))) [
    | inl j' ↦
        let e : key s b ≡ k = sym ((f.hashed (key s b) a j').2) ∙ (f.hashed k a j).2 in
        absurd (cc (f.queued b i ne, e, o))
    | inr o' ↦ o'
  ]

  others : (k : ℕ) → b ∉ q k → (a m : ℕ) → Beside s q b m → a ∈ q k → a ≢ m
  others k o a m near j = apart-Beside s l q f b a m near ((f.hashed k a j).0) (queue_apart k o a j)

  queue-Chain :
      (k : ℕ)
      → Chain
          (remove_from_hash b s).b_next
          (remove_from_hash b s).b_prev
          ((remove_from_hash b s).hash_table k)
          0
          (without b (q k))
  queue-Chain k = rw (entry k) (elim (Bool-cases (has b (q k))) [
    | inl j ↦
        Skips-Chain s.b_next s.b_prev b _ _ skips (s.hash_table k) 0 (q k) (f.queue k)
          (f.distinct k) (null-queue s l q f k) (null-queue s l q f k) j
    | inr o ↦
        rw (head_of-queue s l q f k b i o, without-stranger b (q k) o)
          (Chain-frame s.b_next s.b_prev _ _ (s.hash_table k) 0 (q k)
            (λ a j. skips.next_else a (others k o a (s.b_prev b) (prev-Beside s l q f b i) j))
            (λ a j. skips.prev_else a (others k o a (s.b_next b) (next-Beside s l q f b i) j))
            (f.queue k))
  ])

  loose_apart : (a m : ℕ) → Beside s q b m → a ∈ l → s.b_dev a ≡ 0 → a ≢ m
  loose_apart a m near j z = apart-Beside s l q f b a m near j (λ ne.
      elim (Bool-cases (has a (q (key s b)))) [
        | inl j' ↦ absurd ((f.hashed (key s b) a j').1 z)
        | inr o ↦ o
      ])

  -- with what the removal from the free list leaves of it
  unqueued-IsCache :
      (next prev : ℕ → ℕ) (first : ℕ)
      → IsFreeList next prev first (without b l)
      → IsCache
          (record (remove_from_hash b s) {
            b_next_free = next;
            b_prev_free = prev;
            free_list = first;
          })
          (without b l)
          (λ k. without b (q k))
  unfolding remove_from_hash
  unqueued-IsCache next prev first fr =
      let member = λ (a : ℕ) (j : a ∈ without b l). without-subset a b l j in
      let ne = λ (a : ℕ) (j : a ∈ without b l). rest_apart a b l f.free.distinct j in
      record {
        free = fr;
        queue = queue-Chain;
        distinct = λ k. without-Distinct b (q k) (f.distinct k);
        hashed = λ k a j.
            let (m, d, e) = f.hashed k a (without-subset a b (q k) j) in
            (in_rest a b l m (rest_apart a b (q k) (f.distinct k) j), d, e);
        queued = λ a j d. in_rest a b (q (key s a)) (f.queued a (member a j) d) (ne a j);
        loose = λ a j z.
            let (en, ep) = f.loose a (member a j) z in
            (
              skips.next_else a
                    (loose_apart a (s.b_prev b) (prev-Beside s l q f b i) (member a j) z)
                  ∙ en,
              skips.prev_else a
                    (loose_apart a (s.b_next b) (next-Beside s l q f b i) (member a j) z)
                  ∙ ep,
            );
        one = λ a c j k d e g. f.one a c (member a j) (member c k) d e g;
        enough = (let n = f.enough in let m = length-without b l i in omega arith);
      }

  -- remove_from_queues takes `b` out of the free list and out of its queue, and does not panic.
  pub remove_from_queues-IsCache :
      2 ≤ length l
      → (t : Cache) × (remove_from_queues b s ≡ some t)
        × IsCache t (without b l) (λ k. without b (q k))
        × Relinked s t
  unfolding remove_from_hash
  remove_from_queues-IsCache two =
      let (next, prev, first, e, fr) =
        remove_from_free-IsFreeList b (remove_from_hash b s) l f.free i two in
      (
        _,
        e,
        unqueued-IsCache next prev first fr,
        record {
          dev = refl;
          blocknr = refl;
          uptodate = refl;
          dirt = refl;
          count = refl;
          bits = refl;
          nr = refl;
        },
      )
