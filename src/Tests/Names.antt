-- ===== src/Tests/Names.antt =====
-- Names in a directory, rights, and the number of a new process.
-- Block 10 is a directory with a free entry and the name "ab" for inode 7.
use linux_0_1_1_comment.Prelude.{
  ◌==◌, ◌=/=◌, update, ℕ, ◌≡◌, refl, true, false, not, ◌&&◌, ◌||◌, some, arith,
}
use linux_0_1_1_comment.Fork.{pid_taken, free_pid, empty_slot, find_empty_process}
use linux_0_1_1_comment.Fork.Free.{IsNewPid, Slot, find_empty_process-IsNewPid}
use linux_0_1_1_comment.Inode.{ok, Fs, FileInode}
use linux_0_1_1_comment.Names.{
  Node, and_bits, permission, same_bytes, match, EntryFound, at, find_rounds, find_entry,
}
use linux_0_1_1_comment.Names.Rights.{granted, asked, permission-granted}
use linux_0_1_1_comment.Names.Search.{Listed, find_entry-Listed}
use linux_0_1_1_comment.Tests.Blocks.{file_system, small_file}
use linux_0_1_1_comment.Tests.Scheduler.{runner, two_tasks}
use linux_0_1_1_comment.Word.{add}

abbrev names_of : ℕ → ℕ
names_of = update (update (update (λ j. 0) 16 7) 18 97) 19 98

abbrev dir_disk : Fs
dir_disk = record file_system { b_data = update (λ b j. 0) 10 names_of }

abbrev directory : FileInode
directory = record small_file { i_size = 32 }

find_entry-Listed_example :
    (r : EntryFound) × (find_entry false 100 2 (update (λ j. 98) 0 97) directory dir_disk
      ≡ ok r dir_disk)
    × Listed 2 (update (λ j. 98) 0 97) directory dir_disk 2 r
find_entry-Listed_example =
    find_entry-Listed false 100 2 (update (λ j. 98) 0 97) directory dir_disk (omega arith)
      (omega arith)
      (λ j lt. let z : j ≡ 0 = omega arith in rw z ((λ e. absurd (omega arith)), refl))

find_entry_run :
    find_entry false 100 2 (update (λ j. 98) 0 97) directory dir_disk ≡ ok (at 10 16) dir_disk
unfolding find_entry find_rounds match same_bytes
find_entry_run = refl

-- a file that its owner may only read
abbrev note : Node
note = record { i_mode = 292; i_uid = 1; i_gid = 1; i_dev = 1; i_nlinks = 1 }

permission-granted_example : (permission runner note 6 =/= 0) ≡ (
    not ((note.i_dev =/= 0) && (note.i_nlinks == 0))
    && ((asked 6 1 && granted runner note 1)
        || (asked 6 2 && granted runner note 2)
        || (asked 6 4 && granted runner note 4)))
permission-granted_example = permission-granted runner note 6

-- Reading and writing is granted for a file that may only be read.
permission_run : (permission runner note 6 =/= 0) ≡ true
unfolding permission and_bits
permission_run = refl

find_empty_process-IsNewPid_example :
    (pid r : ℕ) × (find_empty_process 0x7fffffff two_tasks ≡ some (pid, r))
    × IsNewPid two_tasks pid
    × Slot two_tasks 63 1 r
find_empty_process-IsNewPid_example = find_empty_process-IsNewPid 0x7fffffff two_tasks (omega arith)

find_empty_process_run : find_empty_process 0x7fffffff two_tasks ≡ some (1, 3)
unfolding find_empty_process free_pid pid_taken empty_slot add
find_empty_process_run = refl
