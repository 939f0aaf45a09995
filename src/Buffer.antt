-- ===== src/Buffer.antt =====
-- fs/buffer.c: the cache of disk blocks. A buffer head is named by its place in the array, from 1
-- on, and 0 is NULL; each field is a function of the buffer. What a store through NULL does to
-- memory is a change at 0. No buffer is locked, so that wait_on_buffer does not wait.
-- `ll_rw_block` of fs/block_dev.c, which starts the disk, is an argument where it is called.
pub mod Ring
pub mod Free
pub mod Append
pub mod Chain
pub mod Queues
pub mod Unqueue
pub mod Find
pub mod Enqueue
pub mod Scan
pub mod Reuse
pub mod Getblk
pub mod Init
pub mod Start
pub mod Contents
pub mod Held
pub mod Bread
pub mod Calls
use linux_0_1_1_comment.Prelude.{
  ◌==◌, ◌=/=◌, if◌then◌else◌, update, ℕ, zero, suc, ◌+◌, ◌*◌, ◌/◌, ◌%◌, Bool, ◌&&◌, ◌||◌, Option,
  none, some,
}

-- `b_bits` is the contents of the block at b_data.
pub record Cache : Type 0 where
  pub b_dev : ℕ → ℕ
  pub b_blocknr : ℕ → ℕ
  pub b_uptodate : ℕ → Bool
  pub b_dirt : ℕ → Bool
  pub b_count : ℕ → ℕ
  pub b_bits : ℕ → ℕ → ℕ
  pub b_prev : ℕ → ℕ
  pub b_next : ℕ → ℕ
  pub b_prev_free : ℕ → ℕ
  pub b_next_free : ℕ → ℕ
  pub hash_table : ℕ → ℕ
  pub free_list : ℕ
  pub nr_buffers : ℕ

-- `dev ^ block` of two 32-bit words, bit by bit
unfoldable pub xor_bits : ℕ → ℕ → ℕ → ℕ
xor_bits zero a b = 0
xor_bits (suc n) a b = (a + b) % 2 + 2 * xor_bits n (a / 2) (b / 2)

-- _hashfn
unfoldable pub hashfn : ℕ → ℕ → ℕ
hashfn dev block = xor_bits 32 dev block % 307

-- The links of a hash queue without `b`, in the order of the stores.
abbrev pub unlink_prev : (ℕ → ℕ) → (ℕ → ℕ) → ℕ → ℕ → ℕ
unlink_prev next prev b = if next b =/= 0 then update prev (next b) (prev b) else prev

abbrev pub unlink_next : (ℕ → ℕ) → (ℕ → ℕ) → ℕ → ℕ → ℕ
unlink_next next prev b = if prev b =/= 0 then update next (prev b) (next b) else next

unfoldable pub remove_from_hash : ℕ → Cache → Cache
remove_from_hash b s =
    let prev = unlink_prev s.b_next s.b_prev b in
    let next = unlink_next s.b_next prev b in
    let k = hashfn (s.b_dev b) (s.b_blocknr b) in
    record s {
      b_prev = prev;
      b_next = next;
      hash_table = if s.hash_table k == b then update s.hash_table k (next b) else s.hash_table;
    }

-- none is the panic "Free block list corrupted".
unfoldable pub remove_from_free : ℕ → Cache → Option Cache
remove_from_free b s =
    if (s.b_prev_free b == 0) || (s.b_next_free b == 0)
    then none
    else (let next = update s.b_next_free (s.b_prev_free b) (s.b_next_free b) in
        some (record s {
          b_next_free = next;
          b_prev_free = update s.b_prev_free (next b) (s.b_prev_free b);
          free_list = if s.free_list == b then next b else s.free_list;
        }))

abbrev pub remove_from_queues : ℕ → Cache → Option Cache
remove_from_queues b s = remove_from_free b (remove_from_hash b s)

-- at the end of the free list
unfoldable pub insert_into_free : ℕ → Cache → Cache
insert_into_free b s =
    let next = update s.b_next_free b s.free_list in
    let prev = update s.b_prev_free b (s.b_prev_free s.free_list) in
    record s {
      b_next_free = update next (prev s.free_list) b;
      b_prev_free = update prev s.free_list b;
    }

-- at the front of its hash queue; the last store goes through b_next, which may be NULL
unfoldable pub insert_into_hash : ℕ → Cache → Cache
insert_into_hash b s =
    let prev = update s.b_prev b 0 in
    let k = hashfn (s.b_dev b) (s.b_blocknr b) in
    if s.b_dev b == 0 then record s { b_prev = prev; b_next = update s.b_next b 0 } else record s {
      b_prev = update prev (s.hash_table k) b;
      b_next = update (update s.b_next b 0) b (s.hash_table k);
      hash_table = update s.hash_table k b;
    }

abbrev pub insert_into_queues : ℕ → Cache → Cache
insert_into_queues b s = insert_into_hash b (insert_into_free b s)

-- the loop of find_buffer, with `fuel` rounds
unfoldable pub find_loop : ℕ → ℕ → ℕ → ℕ → Cache → ℕ
find_loop zero tmp dev block s = 0
find_loop (suc fuel) tmp dev block s =
    let rest = find_loop fuel (s.b_next tmp) dev block s in
    if tmp == 0 then 0 else if (s.b_dev tmp == dev) && (s.b_blocknr tmp == block) then tmp else rest

-- A queue has no more buffers than there are.
unfoldable pub find_buffer : ℕ → ℕ → Cache → ℕ
find_buffer dev block s = find_loop (s.nr_buffers + 1) (s.hash_table (hashfn dev block)) dev block s
