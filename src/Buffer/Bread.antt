-- ===== src/Buffer/Bread.antt =====
-- bread and brelse of fs/buffer.c, and getblk again for a block that it has given.
use linux_0_1_1_comment.Prelude.{
  ◌=/=◌, ◌∈◌, not_null, length, subst, ℕ, ◌+◌, ◌%◌, ◌≤◌, ◌<◌, ◌≡◌, refl, sym, ◌∙◌, ◌≢◌, true, false,
  List, arith,
}
use linux_0_1_1_comment.Buffer.{Cache}
use linux_0_1_1_comment.Buffer.Calls.{got, count_buffer, get_hash_table, GetResult, sleeps, getblk}
use linux_0_1_1_comment.Buffer.Contents.{Valid, Contents}
use linux_0_1_1_comment.Buffer.Find.{Cached, hit, miss, find_buffer-Cached}
use linux_0_1_1_comment.Buffer.Getblk.{Block, getblk-Block}
use linux_0_1_1_comment.Buffer.Held.{Sound, Held, Block-Held}
use linux_0_1_1_comment.Buffer.Queues.{IsCache}
use linux_0_1_1_comment.Buffer.Scan.{AllUsed, SameBlocks}

-- A buffer with the contents of the block; or NULL, with every count as before, where reading failed
-- for the buffer that getblk gave, `first`; or the caller sleeps. `contents` is what a block holds.
pub data BreadResult (read_block : ℕ → Cache → Cache) (contents : ℕ → ℕ → ℕ → ℕ) (dev block : ℕ)
    (s : Cache) (l : List ℕ) (first : GetResult) : GetResult → Type 0 where
  valid :
      (b : ℕ) (t : Cache)
      → b ∈ l
      → t.b_dev b ≡ dev
      → t.b_blocknr b ≡ block
      → t.b_uptodate b ≡ true
      → ((k : ℕ) → k < 1024 → t.b_bits b k ≡ contents dev block k)
      → t.b_count b ≡ (s.b_count b + 1) % 256
      → Valid contents l t
      → Sound l t
      → BreadResult read_block contents dev block s l first (got b t)
  unreadable :
      (b : ℕ) (u t : Cache)
      → first ≡ got b u
      → u.b_dev b ≡ dev
      → u.b_blocknr b ≡ block
      → u.b_uptodate b ≡ false
      → (read_block b u).b_uptodate b ≡ false
      → ((a : ℕ) → t.b_count a ≡ s.b_count a)
      → Valid contents l t
      → Sound l t
      → BreadResult read_block contents dev block s l first (got 0 t)
  waiting : AllUsed s l → BreadResult read_block contents dev block s l first (sleeps s)

module _ (write_block : ℕ → Cache → Cache)
    (writes : (b : ℕ) (s : Cache) → SameBlocks s (write_block b s)) (dev block : ℕ)
    (dev_ne : dev ≢ 0) (dev_lt : dev < 65536) (block_lt : block < 65536) where
  -- what the cache gives for a block that it holds
  find_there :
      (s : Cache) (l : List ℕ) (q : ℕ → List ℕ) (b r : ℕ)
      → IsCache s l q
      → b ∈ l
      → s.b_dev b ≡ dev
      → s.b_blocknr b ≡ block
      → Cached s l dev block r
      → r ≡ b
  find_there s l q b r f i d e (hit b' j d' e') =
      f.one r b j i (λ z. dev_ne (sym d' ∙ z)) (d' ∙ sym d) (e' ∙ sym e)
  find_there s l q b r f i d e (miss no_block) = absurd (no_block b i d e)

  -- Where ll_rw_block leaves links, blocks and counts alone, for a device other than 0 and a device
  -- and a block that fit a short, on a sound cache with two buffers at least: when getblk gives
  -- buffer `b`, a second getblk for the block gives `b` again, with one user more.
  pub getblk-getblk :
      (s t : Cache) (l : List ℕ) (q : ℕ → List ℕ) (b : ℕ)
      → IsCache s l q
      → 2 ≤ length l
      → getblk write_block dev block s ≡ got b t
      → getblk write_block dev block t ≡ got b (count_buffer b t)
  unfolding getblk get_hash_table
  getblk-getblk s t l q b f room e =
      let h = Block-Held s b t l q dev block f (
        subst (Block s l dev block) e
          (getblk-Block write_block writes s q dev block dev_ne dev_lt block_lt l f room)) in
      let found =
        find_there t h.list h.queues b _ h.ready h.there h.for_dev h.for_block
          (find_buffer-Cached t h.list h.queues h.ready dev block dev_ne) in
      let b0 = not_null b h.list h.ready.free.no_null h.there in
      let nz : (b =/= 0) ≡ true = ground arith in rw (found, b0, nz) refl
