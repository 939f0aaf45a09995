-- ===== src/Seek/Moves.antt =====
-- Where sys_lseek (fs/read_write.c) leaves the position.
use linux_0_1_1_comment.Prelude.{
  ◌==◌, if◌then◌else◌, ℕ, ◌+◌, ◌^◌, ◌≤◌, ◌<◌, ◌≡◌, ◌≢◌, ◌⊎◌, true, false, Option, none, some,
}
use linux_0_1_1_comment.Seek.{OpenFile, seek_ebadf, espipe, seek_einval, on_block_device}

-- Where a seek starts from.
abbrev pub base : ℕ → OpenFile → ℕ
base origin file = if origin == 0 then 0 else if origin == 1 then file.f_pos else file.i_size

-- `to` is `from` moved by a signed word.
abbrev pub Moved : ℕ → ℕ → ℕ → Type 0
Moved from offset to =
    ((offset < 2 ^ 31) × (to ≡ from + offset)) ⊎ ((2 ^ 31 ≤ offset) × (to + 2 ^ 32 ≡ from + offset))

-- What a seek does to the file: a refusal that changes nothing, or a new position.
pub data Seeks (offset origin : ℕ) (file : OpenFile) : ℕ × OpenFile → Type 0 where
  not_seekable :
      (file.has_inode ≡ false) ⊎ (on_block_device file.i_dev ≡ false)
      → Seeks offset origin file (seek_ebadf, file)
  a_pipe : file.i_pipe ≡ true → Seeks offset origin file (espipe, file)
  bad_origin : 3 ≤ origin → Seeks offset origin file (seek_einval, file)
  out_of_range :
      ((to : ℕ) → to < 2 ^ 31 → ¬ Moved (base origin file) offset to)
      → Seeks offset origin file (seek_einval, file)
  moved :
      {to : ℕ}
      → to < 2 ^ 31
      → Moved (base origin file) offset to
      → Seeks offset origin file (to, record file { f_pos = to })

-- What sys_lseek does: a descriptor that is not open is refused; else its file is sought, and no
-- other file changes.
pub data Lseeks (fd offset origin : ℕ) (filp : ℕ → Option ℕ) (table : ℕ → OpenFile)
    : ℕ × (ℕ → OpenFile) → Type 0 where
  not_open : (20 ≤ fd) ⊎ (filp fd ≡ none) → Lseeks fd offset origin filp table (seek_ebadf, table)
  sought :
      {f result : ℕ} {table' : ℕ → OpenFile}
      → filp fd ≡ some f
      → Seeks offset origin (table f) (result, table' f)
      → ((g : ℕ) → g ≢ f → table' g ≡ table g)
      → Lseeks fd offset origin filp table (result, table')
