-- ===== src/Tests/Storage.antt =====
-- Pipes, descriptors and the zone map.
-- a pipe that wraps around, with two bytes in it
use linux_0_1_1_comment.Prelude.{
  ltb, update, ◌%◌, ◌≡◌, refl, true, false, none, some, [], ◌∷◌, arith,
}
use linux_0_1_1_comment.Bitmap.{Super, new_block, MInode, cleared_inode}
use linux_0_1_1_comment.Bitmap.Zones.{Takes, new_block-Takes}
use linux_0_1_1_comment.Files.{ebadf, Files, sys_close, sys_dup2}
use linux_0_1_1_comment.Files.Close.{Closes, sys_close-Closes, sys_dup2_onto_itself}
use linux_0_1_1_comment.Files.Refs.{refs, Counted}
use linux_0_1_1_comment.Pipe.{Pipe}
use linux_0_1_1_comment.Pipe.History.{reads, writes, run, Fifo, run-Fifo}
use linux_0_1_1_comment.Pipe.Ring.{IsValid}
use linux_0_1_1_comment.Seek.{OpenFile, seek_target, set_pos, seek_file, seek_at, sys_lseek}
use linux_0_1_1_comment.Word.{add}

abbrev wrapped : Pipe
wrapped = record { head = 1; tail = 4095; page = λ i. i % 256; ends = 2 }

wrapped-IsValid : IsValid wrapped
wrapped-IsValid = record { head_small = omega arith; tail_small = omega arith }

run-Fifo_example : Fifo wrapped (run (writes (7 ∷ []) ∷ reads 2 ∷ []) wrapped)
run-Fifo_example = run-Fifo (writes (7 ∷ []) ∷ reads 2 ∷ []) wrapped wrapped-IsValid

-- descriptor 0 is open on file 2, which another process has open too
abbrev one_open : Files
one_open = record {
  filp = update (λ i. none) 0 (some 2);
  close_on_exec = 0;
  count = update (λ f. 0) 2 2;
}

one_open-Counted : Counted one_open (update (λ f. 0) 2 1)
unfolding refs
one_open-Counted = record { exact = λ f. ground arith; few = λ f. ground arith }

sys_close-Closes_example : Closes 0 (update (λ f. 0) 2 1) one_open (sys_close 0 one_open)
sys_close-Closes_example = sys_close-Closes 0 (update (λ f. 0) 2 1) one_open one_open-Counted

sys_dup2_onto_itself_example :
    (t : Files) × (sys_dup2 0 0 one_open ≡ some (ebadf, t)) × (t.filp 0 ≡ none)
sys_dup2_onto_itself_example =
    sys_dup2_onto_itself 0 2 (update (λ f. 0) 2 1) one_open one_open-Counted refl (omega arith)

-- a disk of a hundred blocks with data from block 10 on, the first three zones in use
abbrev small_disk : Super
small_disk = record {
  firstdatazone = 10;
  nzones = 100;
  ninodes = 32;
  zmap = update (λ i. none) 0 (some (λ k. ltb k 3));
  zmap_dirt = λ i. false;
  imap = update (λ i. none) 0 (some (λ k. ltb k 5));
  imap_dirt = λ i. false;
  users = λ n. 0;
}

new_block-Takes_example : Takes small_disk (new_block small_disk)
new_block-Takes_example = new_block-Takes small_disk (omega arith) refl

abbrev fresh_inode : MInode
fresh_inode = record cleared_inode { i_count = 1 }

-- descriptor 0 names file 2, at position 100 of 300 on the hard disk
abbrev hd_file : OpenFile
hd_file = record { f_pos = 100; has_inode = true; i_dev = 0x301; i_pipe = false; i_size = 300 }

sys_lseek_run : (sys_lseek 0 0xffffffff 2 one_open.filp (λ f. hd_file)).0 ≡ 299
unfolding sys_lseek seek_at seek_file set_pos seek_target add
sys_lseek_run = refl
