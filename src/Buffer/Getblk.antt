-- ===== src/Buffer/Getblk.antt =====
-- getblk of fs/buffer.c, one pass, with a disk that changes no links.
-- Buffer `b` is for the block now, which had none, and its contents are not valid yet; the other
-- buffers are for what they were.
use linux_0_1_1_comment.Prelude.{
  ◌=/=◌, ◌∈◌, without, has-append, apart, not_in-without, without-subset, not_null, rest_apart,
  length-without, without-middle, update_self, update_ne, length, subst, ℕ, ◌+◌, ◌%◌, ◌≤◌, ◌<◌, ◌≡◌,
  refl, sym, ap, ◌∙◌, ◌≢◌, true, false, some, List, [], ◌∷◌, ◌++◌, arith,
}
use linux_0_1_1_comment.Buffer.{Cache, remove_from_queues, find_buffer}
use linux_0_1_1_comment.Buffer.Calls.{
  got, count_buffer, get_hash_table, scan_free_list, GetResult, sleeps, claim, write_out, reuse,
  getblk,
}
use linux_0_1_1_comment.Buffer.Find.{Cached, hit, miss, find_buffer-Cached}
use linux_0_1_1_comment.Buffer.Free.{IsFreeList}
use linux_0_1_1_comment.Buffer.Queues.{IsCache, Relinked}
use linux_0_1_1_comment.Buffer.Reuse.{place_buffer_fresh, claim-IsCache, count_buffer-IsCache}
use linux_0_1_1_comment.Buffer.Scan.{
  AllUsed, Unused, unused, all_used, scan_free_list-Unused, SameBlocks, write_out-SameBlocks,
}
use linux_0_1_1_comment.Buffer.Unqueue.{remove_from_queues-IsCache}

pub record Fresh (s : Cache) (l : List ℕ) (dev block b : ℕ) (t : Cache) : Type 0 where
  pub absent : (a : ℕ) → a ∈ l → s.b_dev a ≡ dev → s.b_blocknr a ≡ block → ⊥
  pub for_dev : t.b_dev b ≡ dev
  pub for_block : t.b_blocknr b ≡ block
  pub counted : t.b_count b ≡ 1
  pub invalid : t.b_uptodate b ≡ false
  pub clean : t.b_dirt b ≡ false
  pub others :
      (a : ℕ)
      → a ≢ b
      → (t.b_dev a ≡ s.b_dev a) × (t.b_blocknr a ≡ s.b_blocknr a) × (t.b_count a ≡ s.b_count a)

-- The free list behind an eviction is `us ++ vs ++ b ∷ []`: the new buffer is the last one to go.
pub data Block (s : Cache) (l : List ℕ) (dev block : ℕ) : GetResult → Type 0 where
  cached :
      (b : ℕ)
      → b ∈ l
      → s.b_dev b ≡ dev
      → s.b_blocknr b ≡ block
      → Block s l dev block (got b (count_buffer b s))
  evicted :
      (us vs : List ℕ) (b : ℕ) (t : Cache) (q : ℕ → List ℕ)
      → l ≡ us ++ b ∷ vs
      → AllUsed s us
      → s.b_count b ≡ 0
      → Fresh s l dev block b t
      → IsCache t ((us ++ vs) ++ b ∷ []) q
      → Block s l dev block (got b t)
  asleep : AllUsed s l → Block s l dev block (sleeps s)

module _ (write_block : ℕ → Cache → Cache)
    (writes : (b : ℕ) (s : Cache) → SameBlocks s (write_block b s)) (s : Cache) (q : ℕ → List ℕ)
    (dev block : ℕ) (dev_ne : dev ≢ 0) (dev_lt : dev < 65536) (block_lt : block < 65536) where
  -- with the free list `l` of `s`, and `t` behind remove_from_queues
  reuse_taken :
      (b : ℕ) (l : List ℕ) (t : Cache) (q' : ℕ → List ℕ)
      → IsFreeList s.b_next_free s.b_prev_free s.free_list l
      → b ∈ l
      → length l ≤ s.nr_buffers
      → IsCache t (without b l) q'
      → Relinked (count_buffer b s) t
      → s.b_count b ≡ 0
      → ((a : ℕ) → a ∈ l → s.b_dev a ≡ dev → s.b_blocknr a ≡ block → ⊥)
      → (u : Cache) × (q'' : ℕ → List ℕ) × (reuse write_block dev block b (some t) ≡ got b u)
        × IsCache u (without b l ++ b ∷ []) q''
        × Fresh s l dev block b u
  reuse_taken b l t q' fl i len f r z no_block =
      let w = write_out write_block b t in
      let sb = write_out-SameBlocks write_block writes b t in
      let k = claim dev block b w in
      let o = not_in-without b l fl.distinct in
      let dw : w.b_dev ≡ s.b_dev = sb.dev ∙ r.dev in
      let bw : w.b_blocknr ≡ s.b_blocknr = sb.blocknr ∙ r.blocknr in
      let cw : w.b_count ≡ (count_buffer b s).b_count = sb.count ∙ r.count in
      let dk : (a : ℕ) → a ≢ b → k.b_dev a ≡ s.b_dev a =
        λ a ne. update_ne w.b_dev b a (dev % 65536) ne ∙ ap (λ g. g a) dw in
      let bk : (a : ℕ) → a ≢ b → k.b_blocknr a ≡ s.b_blocknr a =
        λ a ne. update_ne w.b_blocknr b a (block % 65536) ne ∙ ap (λ g. g a) bw in
      let own_dev : k.b_dev b ≡ dev = update_self w.b_dev b (dev % 65536) ∙ omega arith in
      let own_block : k.b_blocknr b ≡ block =
        update_self w.b_blocknr b (block % 65536) ∙ omega arith in
      let (u, q'', e, c, rel) =
        place_buffer_fresh dev block b k (without b l) q'
          (claim-IsCache dev block b t w (without b l) q' sb o f) o (apart b 0 l i fl.no_null)
          dev_ne own_dev own_block
          (let n = sb.links.nr ∙ r.nr in let m = length-without b l i in omega arith)
          (λ a j d g.
            let ne = rest_apart a b l fl.distinct j in
            no_block a (without-subset a b l j) (sym (dk a ne) ∙ d) (sym (bk a ne) ∙ g)) in
      (
        u,
        q'',
        e,
        c,
        record {
          absent = no_block;
          for_dev = ap (λ g. g b) rel.dev ∙ own_dev;
          for_block = ap (λ g. g b) rel.blocknr ∙ own_block;
          counted =
              ap (λ g. g b) rel.count
              ∙ ap (λ g. g b) cw
              ∙ (update_self s.b_count b _ ∙ ap (λ n. (n + 1) % 256) z);
          invalid = ap (λ g. g b) rel.uptodate ∙ update_self w.b_uptodate b false;
          clean = ap (λ g. g b) rel.dirt ∙ update_self w.b_dirt b false;
          others = λ a ne. (
            ap (λ g. g a) rel.dev ∙ dk a ne,
            ap (λ g. g a) rel.blocknr ∙ bk a ne,
            ap (λ g. g a) rel.count ∙ ap (λ g. g a) cw ∙ update_ne s.b_count b a _ ne,
          );
        },
      )

  -- from the buffer that is taken on
  take_over :
      (us vs : List ℕ) (b : ℕ)
      → IsCache s (us ++ b ∷ vs) q
      → 2 ≤ length (us ++ b ∷ vs)
      → AllUsed s us
      → s.b_count b ≡ 0
      → ((a : ℕ) → a ∈ (us ++ b ∷ vs) → s.b_dev a ≡ dev → s.b_blocknr a ≡ block → ⊥)
      → Block s
          (us ++ b ∷ vs)
          dev
          block
          (reuse write_block dev block b (remove_from_queues b (count_buffer b s)))
  take_over us vs b f room all z no_block =
      let l = us ++ b ∷ vs in
      let i : b ∈ l = has-append b us (b ∷ vs) ∙ ground arith in
      let (t, e1, f1, r1) =
        remove_from_queues-IsCache b (count_buffer b s) l q (count_buffer-IsCache b s l q f) i
          room in
      let (u, q'', e2, c, fresh) = reuse_taken b l t _ f.free i f.enough f1 r1 z no_block in
      rw (e1, e2)
        (evicted us vs b u q'' refl all z fresh
          (subst (λ xs. IsCache u (xs ++ b ∷ []) q'') (without-middle b us vs f.free.distinct) c))

  got_free :
      (l : List ℕ) (r : ℕ)
      → IsCache s l q
      → 2 ≤ length l
      → ((a : ℕ) → a ∈ l → s.b_dev a ≡ dev → s.b_blocknr a ≡ block → ⊥)
      → find_buffer dev block s ≡ 0
      → scan_free_list s.nr_buffers s.free_list s ≡ r
      → Unused s l r
      → Block s l dev block (getblk write_block dev block s)
  unfolding getblk get_hash_table
  got_free l r f room no_block e g (unused us vs b all z) =
      let b0 = not_null b l f.free.no_null (has-append b us (b ∷ vs) ∙ ground arith) in
      rw (e, g, b0) (take_over us vs b f room all z no_block)
  got_free l r f room no_block e g (all_used xs all) = rw (e, g) (asleep all)

  got_any :
      (l : List ℕ) (r : ℕ)
      → IsCache s l q
      → 2 ≤ length l
      → find_buffer dev block s ≡ r
      → Cached s l dev block r
      → Block s l dev block (getblk write_block dev block s)
  unfolding getblk get_hash_table
  got_any l r f room e (hit b i d g) =
      let b0 = not_null b l f.free.no_null i in
      let nz : (b =/= 0) ≡ true = ground arith in rw (e, b0, nz) (cached b i d g)
  got_any l r f room e (miss no_block) =
      got_free l _ f room no_block e refl (scan_free_list-Unused s l q f)

  -- Where ll_rw_block leaves links, blocks and counts alone, for a device other than 0 and a device
  -- and a block that fit a short, on a sound cache with a free list `l` of two buffers at least,
  -- one pass of getblk has one of three outcomes: it gives the buffer of the block, with one user
  -- more; or no buffer is for the block, and it gives the first buffer of `l` that nobody uses,
  -- which then is for the block, with one user, clean and not up to date, in a cache that is sound
  -- and has that buffer at the end of the free list, where every other buffer is for the block that
  -- it was for and has the users that it had; or every buffer is in use, and it sleeps.
  pub getblk-Block :
      (l : List ℕ)
      → IsCache s l q
      → 2 ≤ length l
      → Block s l dev block (getblk write_block dev block s)
  getblk-Block l f room = got_any l _ f room refl (find_buffer-Cached s l q f dev block dev_ne)
