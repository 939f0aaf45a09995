-- ===== src/Tests/Memory.antt =====
-- Memory: a machine with one shared page, and one with a table.
use linux_0_1_1_comment.Prelude.{update, ℕ, zero, suc, ◌+◌, ◌≤◌, refl, inl, inr, arith}
use linux_0_1_1_comment.Mm.{Mem, get_free_page}
use linux_0_1_1_comment.Mm.Alloc.{Returns, Handed, free_page-get_free_page}
use linux_0_1_1_comment.Mm.Clone.{sharers, Copied, copy_table-Copied}
use linux_0_1_1_comment.Mm.Cow.{Unshared, EntryValid, un_wp_page-Unshared}
use linux_0_1_1_comment.Mm.Demand.{DirValid, Demanded, do_no_page-Demanded}
use linux_0_1_1_comment.Mm.Faults.{un_wp_page, do_no_page}
use linux_0_1_1_comment.Mm.Fork.{ParentDir, BlockCopied, copy_dir-BlockCopied}
use linux_0_1_1_comment.Mm.Release.{releasers, TableValid, TableCleared, clear_table-TableCleared}
use linux_0_1_1_comment.Mm.Tables.{clear_table, copy_table, copy_dir}

abbrev fresh : Mem
fresh = record { mem_map = λ i. 0; ram = λ a. 0 }

abbrev full : Mem
full = record { mem_map = λ i. 1; ram = λ a. 0 }

-- the page at 2 Mb has two users, one of them the read-only entry at 0x1000
abbrev shared_page : Mem
shared_page = record { mem_map = update (λ i. 0) 0 2; ram = update (λ a. 0) 0x1000 0x200005 }

-- directory entries 1 and 16 name the empty table at 0x1000
abbrev one_table : Mem
one_table = record { mem_map = λ i. 0; ram = update (update (λ a. 0) 4 0x1007) 0x40 0x1007 }

free_page-get_free_page_example : Returns (Handed shared_page) (get_free_page shared_page)
free_page-get_free_page_example = free_page-get_free_page shared_page

shared_page-EntryValid : EntryValid 0x1000 shared_page
shared_page-EntryValid = record {
  here = refl;
  entry_in_use = λ i lt z lo hi. omega arith;
  apart = λ h. omega arith;
  below = omega arith;
  page_in_use = λ lo e. omega arith;
  short = λ j. ground arith;
}

un_wp_page-Unshared_example : Unshared 0x1000 shared_page (un_wp_page 0x1000 shared_page)
un_wp_page-Unshared_example = un_wp_page-Unshared 0x1000 shared_page shared_page-EntryValid

one_table-DirValid : DirValid 0x400000 one_table
one_table-DirValid = record {
  table_apart = λ e. omega arith;
  table_in_use = λ e off lt i lt' z lo hi. omega arith;
}

do_no_page-Demanded_example : Demanded 0x400000 one_table (do_no_page 0x400000 one_table)
do_no_page-Demanded_example = do_no_page-Demanded 0x400000 one_table one_table-DirValid

copy_table-Copied_example :
    Copied 0 0x1000 0x2000 shared_page (copy_table 1 0x1000 0x2000 shared_page)
copy_table-Copied_example =
    copy_table-Copied 1 0x1000 0x2000 shared_page (inl (omega arith)) 0 (omega arith)

sharers_le : (n from : ℕ) (ram : ℕ → ℕ) (j : ℕ) → sharers n from ram j ≤ n
unfolding sharers
sharers_le zero from ram j = omega arith
sharers_le (suc n) from ram j = let ih = sharers_le n (from + 4) ram j in ground arith

one_table-ParentDir : ParentDir 0x40 0x80 one_table
one_table-ParentDir = record {
  dirs_low = (omega arith, omega arith);
  parent_present = refl;
  child_absent = refl;
  table_high = omega arith;
  table_in_use = λ i lt z. inr (omega arith);
  few_users = λ j. let le = sharers_le 1024 0x1000 one_table.ram j in omega arith;
}

copy_dir-BlockCopied_example :
    BlockCopied 0x40 0x80 one_table (copy_dir 0x4000000 0x40 0x80 one_table)
copy_dir-BlockCopied_example =
    copy_dir-BlockCopied 0x4000000 0x40 0x80 one_table one_table-ParentDir
      (λ e. absurd (omega arith))

shared_page-TableValid : TableValid 1 0x1000 shared_page
unfolding releasers
shared_page-TableValid = record {
  in_memory = λ a lo hi. ground arith;
  counted = λ j. ground arith;
  short = λ j. ground arith;
}

clear_table-TableCleared_example :
    Returns (λ _. TableCleared 1 0x1000 shared_page) (clear_table 1 0x1000 shared_page)
clear_table-TableCleared_example =
    clear_table-TableCleared 1 0x1000 shared_page shared_page-TableValid
