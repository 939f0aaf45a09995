-- ===== src/Mm/Faults.antt =====
-- The page faults of mm/memory.c: un_wp_page, do_wp_page, write_verify and do_no_page, and
-- calc_mem.
use linux_0_1_1_comment.Prelude.{leb, ◌==◌, if◌then◌else◌, ℕ, zero, suc, ◌+◌, ◌%◌, ◌&&◌}
use linux_0_1_1_comment.Mm.{
  low_mem, Mem, Run, ok, segv, ◌>>=◌, present, frame, writable, user_rw, dir_entry, table_offset,
  poke, map_nr, count_down, copy_page, get_free_page,
}
use linux_0_1_1_comment.Mm.Tables.{put_page}

-- The end of un_wp_page, after get_free_page.
unfoldable pub give_copy : ℕ → ℕ → ℕ → Mem → Mem
give_copy table_entry old_page new_page m =
    let m1 = if leb low_mem old_page then count_down m (map_nr old_page) else m in
    let m2 = poke m1 table_entry (user_rw new_page) in
    record m2 { ram = copy_page m2.ram old_page new_page }

unfoldable pub un_wp_page : ℕ → Mem → Run (Unit {0})
un_wp_page table_entry m =
    let old_page = frame (m.ram table_entry) in
    if leb low_mem old_page && (m.mem_map (map_nr old_page) == 1)
    then ok tt (poke m table_entry (writable (m.ram table_entry)))
    else get_free_page m >>= λ new_page m1.
        if new_page == 0 then segv m1 else ok tt (give_copy table_entry old_page new_page m1)

-- the address of the page-table entry of a linear address
unfoldable pub entry_of : ℕ → Mem → ℕ
entry_of address m = frame (m.ram (dir_entry address)) + table_offset address

unfoldable pub do_wp_page : ℕ → Mem → Run (Unit {0})
unfolding entry_of
do_wp_page address m = un_wp_page (entry_of address m) m

unfoldable pub write_verify : ℕ → Mem → Run (Unit {0})
unfolding entry_of
write_verify address m =
    if present (m.ram (dir_entry address))
    then (if m.ram (entry_of address m) % 4 == 1
        then un_wp_page (entry_of address m) m
        else ok tt m)
    else ok tt m

unfoldable pub do_no_page : ℕ → Mem → Run (Unit {0})
do_no_page address m = get_free_page m >>= λ tmp m1.
    if tmp == 0
    then segv m1
    else (put_page tmp address m1 >>= λ page m2. if page == 0 then segv m2 else ok tt m2)

-- calc_mem: how many pages are free, and how many entries of a page table are present. The
-- routine prints these two.
unfoldable pub count_free : ℕ → Mem → ℕ
count_free zero m = 0
count_free (suc n) m = (if m.mem_map n == 0 then 1 else 0) + count_free n m

unfoldable pub count_present : ℕ → ℕ → Mem → ℕ
count_present zero table m = 0
count_present (suc n) table m =
    (if present (m.ram table) then 1 else 0) + count_present n (table + 4) m
