-- ===== src/Buffer/Init.antt =====
-- buffer_init of fs/buffer.c: the buffer heads from `end` up, and their blocks from BUFFER_END down.
-- buffer head `i`; b_data, b_wait and b_lock are left out
use linux_0_1_1_comment.Prelude.{
  leb, ◌==◌, if◌then◌else◌, update, ℕ, zero, suc, ◌+◌, ◌-◌, ◌*◌, ◌≤◌, ◌≡◌, refl, false, arith,
}
use linux_0_1_1_comment.Buffer.{Cache}

abbrev pub init_buffer : ℕ → Cache → Cache
init_buffer i s = record s {
  b_dev = update s.b_dev i 0;
  b_dirt = update s.b_dirt i false;
  b_count = update s.b_count i 0;
  b_uptodate = update s.b_uptodate i false;
  b_next = update s.b_next i 0;
  b_prev = update s.b_prev i 0;
  b_prev_free = update s.b_prev_free i (i - 1);
  b_next_free = update s.b_next_free i (i + 1);
  nr_buffers = s.nr_buffers + 1;
}

-- the loop, with `fuel` rounds; a head has 32 bytes
unfoldable pub init_loop : ℕ → ℕ → ℕ → ℕ → Cache → Cache
init_loop zero end b i s = s
init_loop (suc fuel) end b i s =
    let block = b - 1024 in
    let rest =
      init_loop fuel end (if block == 1048576 then 655360 else block) (i + 1) (init_buffer i s) in
    if leb (end + 32 * i) block then rest else s

-- the end of buffer_init
abbrev pub close_list : Cache → Cache
close_list t = record t {
  free_list = 1;
  b_prev_free = update t.b_prev_free 1 t.nr_buffers;
  b_next_free = update t.b_next_free t.nr_buffers 1;
  hash_table = λ k. 0;
}

-- There are fewer rounds than blocks below BUFFER_END.
unfoldable pub buffer_init : ℕ → Cache → Cache
buffer_init end s = close_list (init_loop 2048 end 2097152 1 s)

-- More rounds change nothing, when there are as many as blocks below `b`.
pub init_loop-enough :
    (fuel n end b i : ℕ) (s : Cache)
    → b ≤ 1024 * fuel
    → fuel ≤ n
    → 1 ≤ i
    → init_loop n end b i s ≡ init_loop fuel end b i s
unfolding init_loop
init_loop-enough zero zero end b i s le more pos = refl
init_loop-enough zero (suc n) end b i s le more pos = ground arith
init_loop-enough (suc fuel) zero end b i s le more pos = absurd (omega arith)
init_loop-enough (suc fuel) (suc n) end b i s le more pos =
    let b' = (if b - 1024 == 1048576 then 655360 else b - 1024) in
    let lower : b' ≤ 1024 * fuel = ground arith in
    let ih =
      init_loop-enough fuel n end b' (i + 1) (init_buffer i s) lower (omega arith) (ground arith) in
    rw ih refl
