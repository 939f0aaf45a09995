-- ===== src/Seek.antt =====
-- sys_lseek of fs/read_write.c, over the file table: descriptors name files, and those that name
-- one file share its position.
pub mod Moves
use linux_0_1_1_comment.Prelude.{
  leb, ◌==◌, if◌then◌else◌, update, ℕ, ◌/◌, Bool, not, ◌||◌, Option, none, some,
}
use linux_0_1_1_comment.Word.{add, is_neg}

-- The fields of a file, and of its inode, that sys_lseek looks at. f_pos and i_size are words.
pub record OpenFile : Type 0 where
  pub f_pos : ℕ
  pub has_inode : Bool
  pub i_dev : ℕ
  pub i_pipe : Bool
  pub i_size : ℕ

-- -EBADF, -ESPIPE and -EINVAL
abbrev pub seek_ebadf : ℕ
seek_ebadf = 0xfffffff7

abbrev pub espipe : ℕ
espipe = 0xffffffe3

abbrev pub seek_einval : ℕ
seek_einval = 0xffffffea

-- IS_BLOCKDEV(MAJOR(dev))
abbrev pub on_block_device : ℕ → Bool
on_block_device dev = (dev / 256 == 2) || (dev / 256 == 3)

-- the position that is asked for, or -EINVAL for an origin that is none
unfoldable pub seek_target : ℕ → ℕ → OpenFile → Option ℕ
seek_target offset origin file =
    if origin == 0
    then some offset
    else if origin == 1
    then some (add file.f_pos offset)
    else if origin == 2
    then some (add file.i_size offset)
    else none

unfoldable pub set_pos : Option ℕ → OpenFile → ℕ × OpenFile
set_pos none file = (seek_einval, file)
set_pos (some pos) file =
    if is_neg pos then (seek_einval, file) else (pos, record file { f_pos = pos })

unfoldable pub seek_file : ℕ → ℕ → OpenFile → ℕ × OpenFile
seek_file offset origin file =
    if not file.has_inode || not (on_block_device file.i_dev)
    then (seek_ebadf, file)
    else if file.i_pipe
    then (espipe, file)
    else set_pos (seek_target offset origin file) file

-- the call for the file that `filp[fd]` names
unfoldable pub seek_at : Option ℕ → ℕ → ℕ → (ℕ → OpenFile) → ℕ × (ℕ → OpenFile)
seek_at none offset origin table = (seek_ebadf, table)
seek_at (some f) offset origin table =
    let r = seek_file offset origin (table f) in (r.0, update table f r.1)

unfoldable pub sys_lseek : ℕ → ℕ → ℕ → (ℕ → Option ℕ) → (ℕ → OpenFile) → ℕ × (ℕ → OpenFile)
sys_lseek fd offset origin filp table =
    if leb 20 fd then (seek_ebadf, table) else seek_at (filp fd) offset origin table
