-- ===== src/Tests/Cache.antt =====
-- The cache of blocks, with three buffers.
use linux_0_1_1_comment.Prelude.{update, ℕ, ◌+◌, ◌%◌, ◌≤◌, ◌≡◌, refl, true, false, [], ◌∷◌, arith}
use linux_0_1_1_comment.Buffer.{
  Cache, xor_bits, hashfn, remove_from_hash, remove_from_free, insert_into_free, insert_into_hash,
  find_loop, find_buffer,
}
use linux_0_1_1_comment.Buffer.Bread.{getblk-getblk}
use linux_0_1_1_comment.Buffer.Calls.{
  panicked, got, count_buffer, get_hash_table, scan_free_list, GetResult, sleeps, again,
  place_buffer, getblk,
}
use linux_0_1_1_comment.Buffer.Getblk.{Block, getblk-Block}
use linux_0_1_1_comment.Buffer.Init.{init_buffer, close_list, buffer_init}
use linux_0_1_1_comment.Buffer.Queues.{IsCache}
use linux_0_1_1_comment.Buffer.Scan.{SameBlocks}
use linux_0_1_1_comment.Buffer.Start.{
  heads, init_buffer-AllReady, AllReady-IsCache, buffer_init-IsCache,
}

abbrev no_buffers : Cache
no_buffers = record {
  b_dev = λ a. 0;
  b_blocknr = λ a. 0;
  b_uptodate = λ a. false;
  b_dirt = λ a. false;
  b_count = λ a. 0;
  b_bits = λ a k. 0;
  b_prev = λ a. 0;
  b_next = λ a. 0;
  b_prev_free = λ a. 0;
  b_next_free = λ a. 0;
  hash_table = λ k. 0;
  free_list = 0;
  nr_buffers = 0;
}

-- three buffers
abbrev heads_only : Cache
heads_only = init_buffer 3 (init_buffer 2 (init_buffer 1 no_buffers))

abbrev tiny : Cache
tiny = close_list heads_only

tiny-IsCache : IsCache tiny (1 ∷ 2 ∷ 3 ∷ []) (λ k. [])
tiny-IsCache =
    AllReady-IsCache heads_only
      (init_buffer-AllReady 3 _ refl (
        init_buffer-AllReady 2 _ refl
          (init_buffer-AllReady 1 no_buffers refl (λ a lo hi. absurd (omega arith)))))
      (omega arith)

-- a disk that always works
abbrev write_disk : ℕ → Cache → Cache
write_disk b s = record s { b_dirt = update s.b_dirt b false }

abbrev on_disk : ℕ → ℕ → ℕ → ℕ
on_disk dev block k = (block + k) % 256

abbrev read_disk : ℕ → Cache → Cache
read_disk b s = record s {
  b_uptodate = update s.b_uptodate b true;
  b_bits = update s.b_bits b (on_disk (s.b_dev b) (s.b_blocknr b));
}

writes_disk : (b : ℕ) (s : Cache) → SameBlocks s (write_disk b s)
writes_disk b s = record {
  links = record {
    next = refl;
    prev = refl;
    next_free = refl;
    prev_free = refl;
    table = refl;
    first = refl;
    nr = refl;
  };
  dev = refl;
  blocknr = refl;
  count = refl;
}

getblk-Block_example : Block tiny (1 ∷ 2 ∷ 3 ∷ []) 0x301 5 (getblk write_disk 0x301 5 tiny)
getblk-Block_example =
    getblk-Block write_disk writes_disk tiny (λ k. []) 0x301 5 (λ e. absurd (omega arith))
      (omega arith) (omega arith) (1 ∷ 2 ∷ 3 ∷ []) tiny-IsCache (omega arith)

abbrev cache_of : GetResult → Cache
cache_of (got b s) = s
cache_of (sleeps s) = s
cache_of (again s) = s
cache_of panicked = no_buffers

abbrev after : Cache
after = cache_of (getblk write_disk 0x301 5 tiny)

getblk_run : getblk write_disk 0x301 5 tiny ≡ got 1 after
unfolding getblk get_hash_table find_buffer find_loop scan_free_list remove_from_hash
    remove_from_free place_buffer insert_into_free insert_into_hash hashfn xor_bits
getblk_run = refl

getblk-getblk_example : getblk write_disk 0x301 5 after ≡ got 1 (count_buffer 1 after)
getblk-getblk_example =
    getblk-getblk write_disk writes_disk 0x301 5 (λ e. absurd (omega arith)) (omega arith)
      (omega arith) tiny after (1 ∷ 2 ∷ 3 ∷ []) (λ k. []) 1 tiny-IsCache (omega arith) getblk_run

buffer_init-IsCache_example :
    IsCache
      (buffer_init 100000 no_buffers)
      (heads 1 (buffer_init 100000 no_buffers).nr_buffers)
      (λ k. [])
    × (2 ≤ (buffer_init 100000 no_buffers).nr_buffers)
buffer_init-IsCache_example = buffer_init-IsCache 100000 no_buffers (omega arith) refl
