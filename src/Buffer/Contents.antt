-- ===== src/Buffer/Contents.antt =====
-- What getblk (fs/buffer.c) does to the contents of the buffers.
use linux_0_1_1_comment.Prelude.{
  ◌==◌, ◌=/=◌, if◌then◌else◌, Bool-cases, if_both, ◌∈◌, update, update_self, update_ne, ℕ, zero,
  suc, ◌+◌, ◌<◌, ◌≡◌, refl, sym, ◌∙◌, ◌≢◌, inl, inr, true, false, ◌||◌, Option, none, some, List,
  arith, ℕ_discrete,
}
use linux_0_1_1_comment.Buffer.{
  Cache, remove_from_hash, remove_from_free, remove_from_queues, insert_into_free, insert_into_hash,
  insert_into_queues, find_buffer,
}
use linux_0_1_1_comment.Buffer.Calls.{
  panicked, got, count_buffer, get_hash_table, scan_free_list, GetResult, sleeps, again, claim,
  place_buffer, sync_from, sync_dev, write_out, reuse, getblk,
}

-- Every buffer of the list that is up to date holds its block: `contents` is what a block holds, on
-- the disk or, where it is newer, in a buffer that is not written yet.
abbrev pub Valid : (ℕ → ℕ → ℕ → ℕ) → List ℕ → Cache → Type 0
Valid contents l s =
    (a : ℕ)
    → a ∈ l
    → s.b_uptodate a ≡ true
    → (k : ℕ) → k < 1024
    → s.b_bits a k ≡ contents (s.b_dev a) (s.b_blocknr a) k

-- The same contents, and no buffer is up to date that was not: what writing does, where an error
-- marks a buffer as not up to date.
pub record SameContents (s t : Cache) : Type 0 where
  pub bits : t.b_bits ≡ s.b_bits
  pub no_more : (a : ℕ) → t.b_uptodate a ≡ true → s.b_uptodate a ≡ true

-- Reading fills the one buffer with its block, when it succeeds, and leaves the others.
pub record ReadsBlock (contents : ℕ → ℕ → ℕ → ℕ) (b : ℕ) (s t : Cache) : Type 0 where
  pub filled :
      s.b_uptodate b ≡ false
      → t.b_uptodate b ≡ true
      → (k : ℕ) → k < 1024
      → t.b_bits b k ≡ contents (s.b_dev b) (s.b_blocknr b) k
  pub others : (a : ℕ) → a ≢ b → (t.b_bits a ≡ s.b_bits a) × (t.b_uptodate a ≡ s.b_uptodate a)

SameContents-refl : (s : Cache) → SameContents s s
SameContents-refl s = record { bits = refl; no_more = λ a e. e }

SameContents-trans : (s t u : Cache) → SameContents s t → SameContents t u → SameContents s u
SameContents-trans s t u f g = record {
  bits = g.bits ∙ f.bits;
  no_more = λ a e. f.no_more a (g.no_more a e);
}

-- whatever getblk comes to
pub data Contents (s : Cache) : GetResult → Type 0 where
  got_same : (b : ℕ) (t : Cache) → SameContents s t → Contents s (got b t)
  sleeps_same : (t : Cache) → SameContents s t → Contents s (sleeps t)
  again_same : (t : Cache) → SameContents s t → Contents s (again t)
  stopped : Contents s panicked

claim-SameContents : (dev block b : ℕ) (s : Cache) → SameContents s (claim dev block b s)
claim-SameContents dev block b s = record {
  bits = refl;
  no_more = λ a e. elim (ℕ_discrete a b) [
    | yes same ↦ absurd (
        let no : update s.b_uptodate b false a ≡ false =
          rw same (update_self s.b_uptodate b false) in
        ground arith)
    | no ne ↦ sym (update_ne s.b_uptodate b a false ne) ∙ e
  ];
}

insert-SameContents : (b : ℕ) (s : Cache) → SameContents s (insert_into_queues b s)
unfolding insert_into_hash insert_into_free
insert-SameContents b s =
    if_both (SameContents s) (s.b_dev b == 0) (λ e. record { bits = refl; no_more = λ a h. h })
      (λ e. record { bits = refl; no_more = λ a h. h })

place_buffer-Contents : (dev block b : ℕ) (s : Cache) → Contents s (place_buffer dev block b s)
unfolding place_buffer
place_buffer-Contents dev block b s =
    let put_back : Cache = record s {
      b_dev = update s.b_dev b 0;
      b_blocknr = update s.b_blocknr b 0;
      b_count = update s.b_count b 0;
    } in
    let f = insert-SameContents b put_back in
    if_both (Contents s) (find_buffer dev block s =/= 0)
      (λ e. again_same _ (record { bits = f.bits; no_more = f.no_more }))
      (λ e. got_same b _ (insert-SameContents b s))

Contents-after : (s t : Cache) (r : GetResult) → SameContents s t → Contents t r → Contents s r
Contents-after s t r f (got_same b u g) = got_same b u (SameContents-trans s t u f g)
Contents-after s t r f (sleeps_same u g) = sleeps_same u (SameContents-trans s t u f g)
Contents-after s t r f (again_same u g) = again_same u (SameContents-trans s t u f g)
Contents-after s t r f stopped = stopped

-- remove_from_queues has taken the buffer out, or has panicked
abbrev Removed : Cache → Option Cache → Type 0
Removed s none = Unit {0}
Removed s (some t) = SameContents s t

remove-Removed : (b : ℕ) (s : Cache) → Removed s (remove_from_queues b s)
unfolding remove_from_hash remove_from_free
remove-Removed b s =
    let t = remove_from_hash b s in
    elim (Bool-cases ((t.b_prev_free b == 0) || (t.b_next_free b == 0))) [
      | inl e ↦ rw e tt
      | inr e ↦ rw e (record { bits = refl; no_more = λ a h. h })
    ]

module _ (write_block : ℕ → Cache → Cache)
    (keeps : (b : ℕ) (s : Cache) → SameContents s (write_block b s)) where
  sync_from-SameContents :
      (n b dev : ℕ) (s : Cache) → SameContents s (sync_from write_block n b dev s)
  unfolding sync_from
  sync_from-SameContents zero b dev s = SameContents-refl s
  sync_from-SameContents (suc n) b dev s =
      let t = (if s.b_dev b =/= dev then s else if s.b_dirt b then write_block b s else s) in
      let one : SameContents s t =
        if_both (SameContents s) (s.b_dev b =/= dev) (λ e. SameContents-refl s)
          (λ e.
            if_both (SameContents s) (s.b_dirt b) (λ d. keeps b s) (λ d. SameContents-refl s)) in
      SameContents-trans s t _ one (sync_from-SameContents n (b + 1) dev t)

  write_out-SameContents : (b : ℕ) (s : Cache) → SameContents s (write_out write_block b s)
  unfolding sync_dev
  write_out-SameContents b s =
      if_both (SameContents s) (s.b_dirt b)
        (λ d. sync_from-SameContents s.nr_buffers 1 (s.b_dev b) s) (λ d. SameContents-refl s)

  reuse-Contents :
      (dev block b : ℕ) (s : Cache) (o : Option Cache)
      → Removed s o
      → Contents s (reuse write_block dev block b o)
  reuse-Contents dev block b s none h = stopped
  reuse-Contents dev block b s (some t) h =
      let w = write_out write_block b t in
      let k = claim dev block b w in
      let out = SameContents-trans s t w h (write_out-SameContents b t) in
      Contents-after s k _ (SameContents-trans s w k out (claim-SameContents dev block b w))
        (place_buffer-Contents dev block b k)

  pub getblk-Contents : (dev block : ℕ) (s : Cache) → Contents s (getblk write_block dev block s)
  unfolding getblk get_hash_table
  getblk-Contents dev block s =
      let r = get_hash_table dev block s in
      let b = scan_free_list s.nr_buffers s.free_list s in
      let found : SameContents s (r.1) =
        if_both {A = ℕ × Cache} (λ p. SameContents s (p.1)) (find_buffer dev block s == 0)
          (λ e. SameContents-refl s) (λ e. record { bits = refl; no_more = λ a h. h }) in
      if_both (Contents s) (r.0 =/= 0) (λ e. got_same (r.0) (r.1) found)
        (λ e.
          if_both (Contents s) (b == 0) (λ e. sleeps_same s (SameContents-refl s))
            (λ e.
              Contents-after s (count_buffer b s) _ (record { bits = refl; no_more = λ a h. h })
                (reuse-Contents dev block b (count_buffer b s) _
                  (remove-Removed b (count_buffer b s)))))
