-- ===== src/Buffer/Enqueue.antt =====
-- insert_into_queues of fs/buffer.c, for a buffer with a device whose block has no buffer yet.
-- The stores of insert_into_queues, for a queue from `x`: there may be a store through NULL.
use linux_0_1_1_comment.Prelude.{
  ◌==◌, if◌then◌else◌, ==_refl, Bool-cases, ne→==, has, ◌∈◌, ◌∉◌, Distinct, has-append, apart,
  update, update_self, length, length-append, subst, ℕ, suc, ◌≤◌, ◌≡◌, refl, sym, ap, ◌∙◌, ◌≢◌, inl,
  inr, List, [], ◌∷◌, ◌++◌, arith, ℕ_discrete,
}
use linux_0_1_1_comment.Buffer.{Cache, insert_into_hash, insert_into_queues}
use linux_0_1_1_comment.Buffer.Append.{insert_into_free-IsFreeList}
use linux_0_1_1_comment.Buffer.Chain.{Chain, Chain-frame}
use linux_0_1_1_comment.Buffer.Free.{IsFreeList}
use linux_0_1_1_comment.Buffer.Queues.{key, IsCache, Relinked, head_of-queue}

Chain_push :
    (next prev : ℕ → ℕ) (x b : ℕ) (xs : List ℕ)
    → Chain next prev x 0 xs
    → b ≢ 0
    → b ∉ xs
    → Distinct xs
    → Chain (update (update next b 0) b x) (update (update prev b 0) x b) b 0 (b ∷ xs)
Chain_push next prev x b [] c ne o d =
    let b0 = ne→== b 0 ne in (refl, ground (arith, c, b0), update_self (update next b 0) b x ∙ c)
Chain_push next prev x b (y ∷ ys) (e, p, c) ne o (out, d) =
    let y_ne : y ≢ b = apart y b (y ∷ ys) (ground arith) o in
    let ye = ne→== y b y_ne in
    let be = ne→== b y (λ g. y_ne (sym g)) in
    let n' = update (update next b 0) b x in
    let p' = update (update prev b 0) x b in
    let same : n' y ≡ next y = ground (arith, ye) in
    (
      refl,
      ground (arith, e, be),
      (
        update_self (update next b 0) b x ∙ e,
        rw e (update_self (update prev b 0) y b),
        rw same (
            Chain-frame next prev n' p' (next y) y ys
              (λ a i. ground (arith, ne→== a b (apart a b (y ∷ ys) (ground arith) o)))
              (λ a i. ground (
                arith,
                e,
                ne→== a b (apart a b (y ∷ ys) (ground arith) o),
                ne→== a y (apart a y ys i out),
              ))
              c),
      ),
    )

module _ (b : ℕ) (s : Cache) (l : List ℕ) (q : ℕ → List ℕ) (f : IsCache s l q) (out : b ∉ l)
    (ne : b ≢ 0) (dev : s.b_dev b ≢ 0) where
  -- the queues with `b`
  abbrev pub queues_with : ℕ → List ℕ
  queues_with k = if k == key s b then b ∷ q k else q k

  not_queued : (k : ℕ) → b ∉ q k
  not_queued k = elim (Bool-cases (has b (q k))) [
    | inl j ↦ absurd (cc ((f.hashed k b j).0, out))
    | inr o ↦ o
  ]

  abbrev next' : ℕ → ℕ
  next' = update (update s.b_next b 0) b (s.hash_table (key s b))

  abbrev prev' : ℕ → ℕ
  prev' = update (update s.b_prev b 0) (s.hash_table (key s b)) b

  abbrev table' : ℕ → ℕ
  table' = update s.hash_table (key s b) b

  -- The store into the front of the queue of `b` is to no other queue.
  front_apart : (a : ℕ) → a ∈ l → a ∉ q (key s b) → a ≢ s.hash_table (key s b)
  front_apart a i o e = absurd (cc (head_of-queue s l q f (key s b) a i o, e, ==_refl a))

  elsewhere : (k a : ℕ) → k ≢ key s b → a ∈ q k → a ∉ q (key s b)
  elsewhere k a ne_k j = elim (Bool-cases (has a (q (key s b)))) [
    | inl j' ↦ absurd (ne_k (sym ((f.hashed k a j).2) ∙ (f.hashed (key s b) a j').2))
    | inr o ↦ o
  ]

  push-Chain : (k : ℕ) → Chain next' prev' (table' k) 0 (queues_with k)
  push-Chain k = elim (ℕ_discrete k (key s b)) [
    | yes e ↦
        rw (e, ==_refl (key s b))
          (Chain_push s.b_next s.b_prev (s.hash_table (key s b)) b (q (key s b)) (f.queue (key s b))
            ne (not_queued (key s b)) (f.distinct (key s b)))
    | no ne_k ↦ rw (ne→== k (key s b) ne_k) (
        Chain-frame s.b_next s.b_prev next' prev' (s.hash_table k) 0 (q k)
          (λ a j. let m = ne→== a b (apart a b (q k) j (not_queued k)) in ground arith)
          (λ a j.
            let m = ne→== a b (apart a b (q k) j (not_queued k)) in
            let w = ne→== a _ (front_apart a ((f.hashed k a j).0) (elsewhere k a ne_k j)) in
            ground arith)
          (f.queue k))
  ]

  with_b-Distinct : (k : ℕ) → Distinct (queues_with k)
  with_b-Distinct k = elim (ℕ_discrete k (key s b)) [
    | yes e ↦ rw (e, ==_refl (key s b)) (not_queued (key s b), f.distinct (key s b))
    | no ne_k ↦ rw (ne→== k (key s b) ne_k) (f.distinct k)
  ]

  -- On the queues, the buffers other than `b` are the same, and `b` is on one.
  has-others : (k a : ℕ) → a ≢ b → has a (queues_with k) ≡ has a (q k)
  has-others k a ne_a = let m = ne→== a b ne_a in ground arith

  only_queue : (k : ℕ) → b ∈ queues_with k → key s b ≡ k
  only_queue k j = elim (ℕ_discrete k (key s b)) [
    | yes e ↦ sym e
    | no ne_k ↦ let m = ne→== k (key s b) ne_k in let o = not_queued k in absurd (ground arith)
  ]

  on_queue : b ∈ queues_with (key s b)
  on_queue = rw (==_refl (key s b)) (ground arith)

  has_last : (a : ℕ) → a ∈ l → a ∈ (l ++ b ∷ [])
  has_last a i = ground (arith, has-append a l (b ∷ []))

  -- Buffers without a device are not linked to the queue.
  loose_links : (a : ℕ) → a ∈ l → s.b_dev a ≡ 0 → a ≢ b → (next' a ≡ 0) × (prev' a ≡ 0)
  loose_links a i z ne_a =
      let (en, ep) = f.loose a i z in
      let m = ne→== a b ne_a in
      let free_of : a ∉ q (key s b) = elim (Bool-cases (has a (q (key s b)))) [
        | inl j ↦ absurd ((f.hashed (key s b) a j).1 z)
        | inr o ↦ o
      ] in
      let w = ne→== a _ (front_apart a i free_of) in (ground arith, ground arith)

  -- No buffer of the list is for the block of `b`.
  module _
      (alone : (a : ℕ) → a ∈ l → s.b_dev a ≡ s.b_dev b → s.b_blocknr a ≡ s.b_blocknr b → ⊥) where
    with_b-IsCache :
        (next prev : ℕ → ℕ)
        → IsFreeList next prev s.free_list (l ++ b ∷ [])
        → suc (length l) ≤ s.nr_buffers
        → IsCache
            (record s {
              b_next_free = next;
              b_prev_free = prev;
              b_next = next';
              b_prev = prev';
              hash_table = table';
            })
            (l ++ b ∷ [])
            queues_with
    with_b-IsCache next prev fr room =
        let member : (a : ℕ) → a ∈ (l ++ b ∷ []) → a ≢ b → a ∈ l =
          λ a i ne_a. ground (arith, has-append a l (b ∷ []), ne→== a b ne_a) in
        record {
          free = fr;
          queue = push-Chain;
          distinct = with_b-Distinct;
          hashed = λ k a j. elim (ℕ_discrete a b) [
            | yes e ↦
                subst (λ c. (c ∈ (l ++ b ∷ [])) × (s.b_dev c ≢ 0) × (key s c ≡ k)) (sym e)
                  (
                    has-append b l (b ∷ []) ∙ ground arith,
                    dev,
                    only_queue k (subst (λ c. c ∈ queues_with k) e j),
                  )
            | no ne_a ↦
                let (i, d, g) = f.hashed k a (sym (has-others k a ne_a) ∙ j) in (has_last a i, d, g)
          ];
          queued = λ a j d. elim (ℕ_discrete a b) [
            | yes e ↦ subst (λ c. c ∈ queues_with (key s c)) (sym e) on_queue
            | no ne_a ↦ has-others (key s a) a ne_a ∙ f.queued a (member a j ne_a) d
          ];
          loose = λ a j z.
              let ne_a : a ≢ b = λ e. dev (subst (λ c. s.b_dev c ≡ 0) e z) in
              loose_links a (member a j ne_a) z ne_a;
          one = λ a c j k d e g. elim (ℕ_discrete a b) [
            | yes p ↦ elim (ℕ_discrete c b) [
              | yes r ↦ p ∙ sym r
              | no ne_c ↦
                  absurd
                    (alone c (member c k ne_c) (sym e ∙ ap s.b_dev p) (sym g ∙ ap s.b_blocknr p))
            ]
            | no ne_a ↦ elim (ℕ_discrete c b) [
              | yes r ↦ absurd (alone a (member a j ne_a) (e ∙ ap s.b_dev r) (g ∙ ap s.b_blocknr r))
              | no ne_c ↦ f.one a c (member a j ne_a) (member c k ne_c) d e g
            ]
          ];
          enough = (let n = length-append l (b ∷ []) in omega arith);
        }

    -- insert_into_queues puts `b` at the end of the free list and into its queue.
    pub insert_into_queues-IsCache :
        suc (length l) ≤ s.nr_buffers
        → (t : Cache) × (insert_into_queues b s ≡ t)
          × IsCache t (l ++ b ∷ []) queues_with
          × Relinked s t
    unfolding insert_into_hash
    insert_into_queues-IsCache room =
        let (next, prev, e, fr) = insert_into_free-IsFreeList b s l f.free out ne in
        let d0 = ne→== (s.b_dev b) 0 dev in
        (
          _,
          rw (e, d0) refl,
          with_b-IsCache next prev fr room,
          record {
            dev = refl;
            blocknr = refl;
            uptodate = refl;
            dirt = refl;
            count = refl;
            bits = refl;
            nr = refl;
          },
        )
