-- ===== src/Buffer/Calls.antt =====
-- get_hash_table, getblk, brelse, bread and sync_dev of fs/buffer.c.
use linux_0_1_1_comment.Prelude.{
  ◌==◌, ◌=/=◌, if◌then◌else◌, update, ℕ, zero, suc, ◌+◌, ◌-◌, ◌%◌, false, Option, none, some,
}
use linux_0_1_1_comment.Buffer.{Cache, remove_from_queues, insert_into_queues, find_buffer}

-- `b_count` is a byte.
abbrev pub count_buffer : ℕ → Cache → Cache
count_buffer b s = record s { b_count = update s.b_count b ((s.b_count b + 1) % 256) }

unfoldable pub get_hash_table : ℕ → ℕ → Cache → ℕ × Cache
get_hash_table dev block s =
    let b = find_buffer dev block s in if b == 0 then (0, s) else (b, count_buffer b s)

-- do ... while (tmp != free_list || (tmp=NULL)), with `fuel` rounds
unfoldable pub scan_free_list : ℕ → ℕ → Cache → ℕ
scan_free_list zero tmp s = 0
scan_free_list (suc fuel) tmp s =
    let rest = scan_free_list fuel (s.b_next_free tmp) s in
    if s.b_count tmp == 0 then tmp else if s.b_next_free tmp == s.free_list then 0 else rest

-- A buffer; or the caller sleeps on buffer_wait, or goes back to `repeat`; or the kernel panics.
pub data GetResult : Type 0 where
  got : ℕ → Cache → GetResult
  sleeps : Cache → GetResult
  again : Cache → GetResult
  panicked : GetResult

-- the block that buffer `b` is for now; the fields are unsigned shorts
abbrev pub claim : ℕ → ℕ → ℕ → Cache → Cache
claim dev block b s = record s {
  b_dev = update s.b_dev b (dev % 65536);
  b_blocknr = update s.b_blocknr b (block % 65536);
  b_dirt = update s.b_dirt b false;
  b_uptodate = update s.b_uptodate b false;
}

-- somebody else has added the block
abbrev pub give_up : ℕ → Cache → Cache
give_up b s = insert_into_queues b (record s {
  b_dev = update s.b_dev b 0;
  b_blocknr = update s.b_blocknr b 0;
  b_count = update s.b_count b 0;
})

unfoldable pub place_buffer : ℕ → ℕ → ℕ → Cache → GetResult
place_buffer dev block b s =
    if find_buffer dev block s =/= 0 then again (give_up b s) else got b (insert_into_queues b s)

-- `write_block b` is ll_rw_block(WRITE,b), and `read_block b` is ll_rw_block(READ,b).
module _ (write_block : ℕ → Cache → Cache) where
  -- buffers `n` to 1 of the loop of sync_dev, which starts with 1
  unfoldable pub sync_from : ℕ → ℕ → ℕ → Cache → Cache
  sync_from zero b dev s = s
  sync_from (suc n) b dev s =
      sync_from n (b + 1) dev
        (if s.b_dev b =/= dev then s else if s.b_dirt b then write_block b s else s)

  unfoldable pub sync_dev : ℕ → Cache → Cache
  sync_dev dev s = sync_from s.nr_buffers 1 dev s

  abbrev pub write_out : ℕ → Cache → Cache
  write_out b s = if s.b_dirt b then sync_dev (s.b_dev b) s else s

  abbrev pub reuse : ℕ → ℕ → ℕ → Option Cache → GetResult
  reuse dev block b none = panicked
  reuse dev block b (some s) = place_buffer dev block b (claim dev block b (write_out b s))

  -- one pass from `repeat`
  unfoldable pub getblk : ℕ → ℕ → Cache → GetResult
  getblk dev block s =
      let r = get_hash_table dev block s in
      let b = scan_free_list s.nr_buffers s.free_list s in
      if r.0 =/= 0
      then got (r.0) (r.1)
      else if b == 0
      then sleeps s
      else reuse dev block b (remove_from_queues b (count_buffer b s))

-- The wake_up of buffer_wait is left out; none is the panic "Trying to free free buffer".
unfoldable pub brelse : ℕ → Cache → Option Cache
brelse b s =
    if b == 0
    then some s
    else if s.b_count b == 0
    then none
    else some (record s { b_count = update s.b_count b (s.b_count b - 1) })

abbrev pub null_after : Option Cache → GetResult
null_after none = panicked
null_after (some s) = got 0 s

module _ (read_block : ℕ → Cache → Cache) where
  -- the end of bread, with the buffer that getblk gave
  unfoldable pub fill : ℕ → Cache → GetResult
  fill b s =
      let t = read_block b s in
      if s.b_uptodate b
      then got b s
      else if t.b_uptodate b
      then got b t
      else null_after (brelse b t)

  abbrev pub and_fill : GetResult → GetResult
  and_fill (got b s) = fill b s
  and_fill (sleeps s) = sleeps s
  and_fill (again s) = again s
  and_fill panicked = panicked

  unfoldable pub bread : (ℕ → Cache → Cache) → ℕ → ℕ → Cache → GetResult
  bread write_block dev block s = and_fill (getblk write_block dev block s)
