-- ===== src/Buffer/Append.antt =====
-- insert_into_queues of fs/buffer.c on the free list.
use linux_0_1_1_comment.Prelude.{
  ◌==◌, ne→==, ◌∈◌, ◌∉◌, Distinct, has-append, apart, append-Distinct, update, update_self,
  update_ne, subst, ℕ, ◌≡◌, refl, sym, ◌∙◌, ◌≢◌, false, List, [], ◌∷◌, ◌++◌, arith,
}
use linux_0_1_1_comment.Buffer.{Cache, insert_into_free}
use linux_0_1_1_comment.Buffer.Free.{IsFreeList}
use linux_0_1_1_comment.Buffer.Ring.{Seg, Seg-join, Seg-last, Seg-frame, Seg-relink, IsRing}

-- The stores of insert_into_queues, for a ring from `h` and a buffer `b` outside of it.
append-IsRing :
    (next prev : ℕ → ℕ) (h b : ℕ) (t : List ℕ)
    → Distinct (h ∷ t)
    → b ∉ (h ∷ t)
    → IsRing next prev (h ∷ t)
    → IsRing
        (update (update next b h) (prev h) b)
        (update (update prev b (prev h)) h b)
        (h ∷ (t ++ b ∷ []))
append-IsRing next prev h b t (out, d) o r =
    let n1 = update next b h in
    let p1 = update prev b (prev h) in
    let (_, i) = Seg-last next prev h h t r in
    let outside : (a : ℕ) → a ∈ (t ++ h ∷ []) → a ≢ b =
      λ a j. apart a b (h ∷ t) (ground (arith, has-append a t (h ∷ []), j)) o in
    let framed =
      Seg-frame next prev n1 p1 h h t (λ a j. update_ne next b a h (apart a b (h ∷ t) j o))
        (λ a j. update_ne prev b a (prev h) (outside a j)) r in
    let h_ne : h ≢ b = apart h b (h ∷ t) (ground arith) o in
    let linked : Seg (update n1 (prev h) b) (update p1 b (prev h)) h t b =
      subst (λ l. Seg (update n1 l b) (update p1 b l) h t b) (update_ne prev b h (prev h) h_ne)
        (Seg-relink n1 p1 h h b t (out, d) (ground arith) framed) in
    let front : Seg (update n1 (prev h) b) (update p1 h b) h t b =
      Seg-frame _ _ _ _ h b t (λ a j. refl)
        (λ a j.
          let split = has-append a t (b ∷ []) in
          let off : (a == h) ≡ false =
            ne→== a h (λ e. absurd (cc (e, out, split, j, ne→== h b h_ne))) in
          ground arith)
        linked in
    Seg-join _ _ h b h t [] front (
      update_ne n1 (prev h) b b (λ e. apart (prev h) b (h ∷ t) i o (sym e)) ∙ update_self next b h,
      update_self p1 h b,
    )

-- insert_into_queues puts `b` at the end of the free list.
pub insert_into_free-IsFreeList :
    (b : ℕ) (s : Cache) (xs : List ℕ)
    → IsFreeList s.b_next_free s.b_prev_free s.free_list xs
    → b ∉ xs
    → b ≢ 0
    → (next prev : ℕ → ℕ) × (insert_into_free b s
        ≡ record s { b_next_free = next; b_prev_free = prev })
      × IsFreeList next prev s.free_list (xs ++ b ∷ [])
unfolding insert_into_free
insert_into_free-IsFreeList b s [] f o ne = absurd (cc (f.starts.1))
insert_into_free-IsFreeList b s (h ∷ t) f o ne =
    let (rest, e) = f.starts in
    let same : h ≡ s.free_list = cc (e) in
    let h_ne : h ≢ b = apart h b (h ∷ t) (ground arith) o in
    let links = update_ne s.b_prev_free b h (s.b_prev_free h) h_ne in
    (
      update (update s.b_next_free b h) (s.b_prev_free h) b,
      update (update s.b_prev_free b (s.b_prev_free h)) h b,
      rw (sym same, links) refl,
      record {
        ring = append-IsRing s.b_next_free s.b_prev_free h b t f.distinct o f.ring;
        distinct =
            append-Distinct (h ∷ t) (b ∷ []) f.distinct (refl, tt)
              (λ a i. let ab = ne→== a b (apart a b (h ∷ t) i o) in ground arith);
        no_null =
            has-append 0 (h ∷ t) (b ∷ [])
            ∙ (let nn = f.no_null in let b0 = ne→== b 0 ne in ground arith);
        starts = (t ++ b ∷ [], rw same refl);
      },
    )
