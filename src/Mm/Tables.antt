-- ===== src/Mm/Tables.antt =====
-- free_page_tables, copy_page_tables and put_page of mm/memory.c. Pointers into a page table or
-- into the directory are addresses, and `p++` on them adds 4.
use linux_0_1_1_comment.Prelude.{
  ltb, ◌==◌, ◌=/=◌, if◌then◌else◌, ℕ, zero, suc, ◌+◌, ◌/◌, ◌%◌, Bool, true, false, ◌||◌,
}
use linux_0_1_1_comment.Mm.{
  low_mem, Mem, Run, ok, panicked, ◌>>=◌, present, frame, read_only, user_rw, dir_entry,
  table_offset, poke, map_nr, count_up, get_free_page, free_page,
}
use linux_0_1_1_comment.Word.{modulus}

-- One round of the inner loop of free_page_tables.
unfoldable pub clear_entry : ℕ → Mem → Run (Unit {0})
clear_entry p m = (if present (m.ram p) then free_page (frame (m.ram p)) m else ok tt m) >>= λ _ m'.
    ok tt (poke m' p 0)

-- for (nr=0 ; nr<1024 ; nr++), with the rounds left as first argument
unfoldable pub clear_table : ℕ → ℕ → Mem → Run (Unit {0})
clear_table zero p m = ok tt m
clear_table (suc nr) p m = clear_entry p m >>= λ _ m'. clear_table nr (p + 4) m'

unfoldable pub free_dir : ℕ → Mem → Run (Unit {0})
free_dir dir m =
    if present (m.ram dir)
    then clear_table 1024 (frame (m.ram dir)) m
      >>= (λ _ m1. free_page (frame (m1.ram dir)) m1)
      >>= (λ _ m2. ok tt (poke m2 dir 0))
    else ok tt m

-- for ( ; size-->0 ; dir++)
unfoldable pub free_dirs : ℕ → ℕ → Mem → Run (Unit {0})
free_dirs zero dir m = ok tt m
free_dirs (suc size) dir m = free_dir dir m >>= λ _ m'. free_dirs size (dir + 4) m'

-- `(size + 0x3fffff) >> 22` on unsigned long: the number of 4 Mb blocks
abbrev pub blocks : ℕ → ℕ
blocks size = (size + 0x3fffff) % modulus / 0x400000

unfoldable pub free_page_tables : ℕ → ℕ → Mem → Run ℕ
unfolding free_dirs
free_page_tables from size m =
    if from % 0x400000 =/= 0
    then panicked
    else (if from == 0
        then panicked
        else (free_dirs (blocks size) (dir_entry from) m >>= λ _ m'. ok 0 m'))

-- A present entry is written to the new table without its write bit; above LOW_MEM the old entry
-- loses the bit too, and the page has one more user.
unfoldable pub share_entry : ℕ → ℕ → ℕ → Mem → Mem
share_entry from to page m =
    let m1 = poke m to page in
    if ltb low_mem page then count_up (poke m1 from page) (map_nr page) else m1

unfoldable pub copy_entry : ℕ → ℕ → Mem → Mem
unfolding share_entry
copy_entry from to m =
    if present (m.ram from) then share_entry from to (read_only (m.ram from)) m else m

-- for ( ; nr-- > 0 ; from_page_table++,to_page_table++)
unfoldable pub copy_table : ℕ → ℕ → ℕ → Mem → Mem
copy_table zero from to m = m
copy_table (suc nr) from to m = copy_table nr (from + 4) (to + 4) (copy_entry from to m)

-- What `copy_page_tables` returns for -1.
abbrev pub minus_one : ℕ
minus_one = 0xffffffff

-- The body of the loop over the directory; `true` asks for the next round, `false` returns -1.
unfoldable pub copy_dir : ℕ → ℕ → ℕ → Mem → Run Bool
copy_dir from from_dir to_dir m =
    if present (m.ram to_dir)
    then panicked
    else (if present (m.ram from_dir)
        then get_free_page m >>= (λ table m1.
          if table == 0
          then ok false m1
          else ok true (
              copy_table (if from == 0 then 0xA0 else 1024) (frame (m.ram from_dir)) table
                (poke m1 to_dir (user_rw table))))
        else ok true m)

unfoldable pub copy_dirs : ℕ → ℕ → ℕ → ℕ → Mem → Run ℕ
copy_dirs zero from from_dir to_dir m = ok 0 m
copy_dirs (suc size) from from_dir to_dir m = copy_dir from from_dir to_dir m >>= λ more m'.
    if more then copy_dirs size from (from_dir + 4) (to_dir + 4) m' else ok minus_one m'

unfoldable pub copy_page_tables : ℕ → ℕ → ℕ → Mem → Run ℕ
copy_page_tables from to size m =
    if (from % 0x400000 =/= 0) || (to % 0x400000 =/= 0)
    then panicked
    else copy_dirs (blocks size) from (dir_entry from) (dir_entry to) m

-- The two calls of printk of put_page leave the memory as it is.
unfoldable pub put_page : ℕ → ℕ → Mem → Run ℕ
put_page page address m =
    if present (m.ram (dir_entry address))
    then ok page (poke m (frame (m.ram (dir_entry address)) + table_offset address) (user_rw page))
    else get_free_page m >>= λ tmp m1.
        if tmp == 0
        then ok 0 m1
        else ok page (
            poke (poke m1 (dir_entry address) (user_rw tmp)) (tmp + table_offset address)
              (user_rw page))
