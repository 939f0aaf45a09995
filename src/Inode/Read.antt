-- ===== src/Inode/Read.antt =====
-- file_read of fs/file_dev.c. Positions and counts are those of a file that is not negative; what is
-- put at `buf` is a list.
use linux_0_1_1_comment.Prelude.{
  ◌==◌, ◌=/=◌, if◌then◌else◌, replicate, min, ℕ, zero, suc, ◌+◌, ◌-◌, ◌/◌, ◌%◌, not, ◌&&◌, List, [],
  ◌∷◌, ◌++◌,
}
use linux_0_1_1_comment.Inode.{Run, ok, panicked, ◌>>=◌, Fs, FileInode}
use linux_0_1_1_comment.Inode.Bmap.{bmap}
use linux_0_1_1_comment.Word.{neg, sle}

-- `n` bytes of a block from `offset` on, or zeros where there is no block
unfoldable pub block_bytes : ℕ → ℕ → (ℕ → ℕ) → List ℕ
block_bytes zero offset d = []
block_bytes (suc n) offset d = d offset ∷ block_bytes n (offset + 1) d

abbrev pub copied : ℕ → ℕ → ℕ → Fs → List ℕ
copied nr chars offset fs =
    if nr =/= 0 then block_bytes chars offset (fs.b_data nr) else replicate chars 0

-- the bytes put at `buf`, `left`, f_pos, and the inode
pub record FileRead : Type 0 where
  pub bytes : List ℕ
  pub left : ℕ
  pub pos : ℕ
  pub inode : FileInode

abbrev pub prepend : List ℕ → Run FileRead → Run FileRead
prepend bs (ok r fs) = ok (record r { bytes = bs ++ r.bytes }) fs
prepend bs panicked = panicked

-- one round, behind the call of bmap: it stops at a block that bread does not give
abbrev pub read_round :
    (ℕ → ℕ → FileInode → Fs → Run FileRead) → ℕ → ℕ → ℕ → FileInode → Fs → Run FileRead
read_round rest left pos nr ino fs =
    if nr =/= 0 && not (fs.readable nr)
    then ok (record { bytes = []; left = left; pos = pos; inode = ino }) fs
    else (let chars = min (1024 - pos % 1024) left in
        prepend (copied nr chars (pos % 1024) fs) (rest (left - chars) (pos + chars) ino fs))

-- while (left), with `fuel` rounds
unfoldable pub read_blocks : ℕ → ℕ → ℕ → ℕ → FileInode → Fs → Run FileRead
read_blocks zero now left pos inode fs =
    ok (record { bytes = []; left = left; pos = pos; inode = inode }) fs
read_blocks (suc fuel) now left pos inode fs =
    let round = bmap now (pos / 1024) inode fs >>= λ r fs1.
    read_round (λ left pos ino fs. read_blocks fuel now left pos ino fs) left pos (r.0) (r.1) fs1 in
    if left == 0
    then ok (record { bytes = []; left = left; pos = pos; inode = inode }) fs
    else round

-- ERROR of include/errno.h
abbrev pub error : ℕ
error = 99

-- the time of access, and the value that is returned
abbrev pub read_result : ℕ → ℕ → FileRead → ℕ × FileRead
read_result now count r = (
  if count - r.left =/= 0 then count - r.left else neg error,
  record r { inode = record r.inode { i_atime = now } },
)

-- Each round takes a byte at least.
unfoldable pub file_read : ℕ → ℕ → ℕ → FileInode → Fs → Run (ℕ × FileRead)
file_read now count pos inode fs =
    if sle count 0
    then ok (0, record { bytes = []; left = count; pos = pos; inode = inode }) fs
    else read_blocks count now count pos inode fs >>= λ r fs1. ok (read_result now count r) fs1
