-- ===== src/Names.antt =====
-- fs/namei.c: the rights to a file, and the names in a directory. A directory entry is the place of
-- its first byte in a block; the name that is looked for is the bytes `name 0`, `name 1`, ... of user
-- memory. The counts of the buffers are left out.
pub mod Rights
pub mod Match
pub mod Find
pub mod Search
use linux_0_1_1_comment.Prelude.{
  ltb, leb, ◌==◌, ◌=/=◌, if◌then◌else◌, ℕ, zero, suc, ◌+◌, ◌*◌, ◌/◌, ◌%◌, Bool, true, false, not,
  ◌&&◌, ◌||◌,
}
use linux_0_1_1_comment.Inode.{Run, ok, ◌>>=◌, Fs, FileInode, word_at}
use linux_0_1_1_comment.Inode.Bmap.{bmap}
use linux_0_1_1_comment.Sched.{Task}

-- what permission reads of an inode
pub record Node : Type 0 where
  pub i_mode : ℕ
  pub i_uid : ℕ
  pub i_gid : ℕ
  pub i_dev : ℕ
  pub i_nlinks : ℕ

-- the lowest `n` bits of `a & b`
unfoldable pub and_bits : ℕ → ℕ → ℕ → ℕ
and_bits zero a b = 0
and_bits (suc n) a b =
    (if (a % 2 == 1) && (b % 2 == 1) then 1 else 0) + 2 * and_bits n (a / 2) (b / 2)

-- permission, for the task `t`
unfoldable pub permission : Task → Node → ℕ → ℕ
permission t inode mask =
    let mode =
      if not ((t.uid =/= 0) && (t.euid =/= 0))
      then 511
      else if (t.uid == inode.i_uid) || (t.euid == inode.i_uid)
      then inode.i_mode / 64
      else if (t.gid == inode.i_gid) || (t.egid == inode.i_gid)
      then inode.i_mode / 8
      else inode.i_mode in
    if (inode.i_dev =/= 0) && (inode.i_nlinks == 0) then 0 else and_bits 3 mode mask

-- repe; cmpsb and setz on `n` bytes from `p` and `q`: `zf` is the flag when there are none
unfoldable pub same_bytes : ℕ → Bool → (ℕ → ℕ) → (ℕ → ℕ) → ℕ → ℕ → Bool
same_bytes zero zf name d p q = zf
same_bytes (suc n) zf name d p q =
    let rest = same_bytes n true name d (p + 1) (q + 1) in if name p == d q then rest else false

-- match, for the entry at byte `o` of the block `d`; `zf` is the zero flag before it
unfoldable pub match : Bool → ℕ → (ℕ → ℕ) → (ℕ → ℕ) → ℕ → Bool
match zf len name d o =
    if (word_at (λ j. d (o + j)) 0 == 0) || ltb 14 len
    then false
    else if ltb len 14 && (d (o + 2 + len) =/= 0)
    then false
    else same_bytes len zf name d 0 (o + 2)

-- The block and the place in it of an entry, or NULL; or the loop goes on with bh == NULL, and reads
-- its b_data.
pub data EntryFound : Type 0 where
  at : ℕ → ℕ → EntryFound
  absent : EntryFound
  null_buffer : EntryFound

module _ (zf : Bool) (now namelen : ℕ) (name : ℕ → ℕ) (entries : ℕ) (inode : FileInode) where
  -- if (match(namelen,name,de)) return bh; otherwise the next round
  abbrev pub test_entry : Run EntryFound → ℕ → ℕ → Fs → Run EntryFound
  test_entry rest b o fs = if match zf namelen name (fs.b_data b) o then ok (at b o) fs else rest

  -- the round behind a block that is missing or unreadable
  abbrev pub skipped : ℕ → Fs → Run EntryFound
  skipped i fs = if ltb (i + 64) entries then ok null_buffer fs else ok absent fs

  -- while (i < entries), with `fuel` rounds: the entry at byte `o` of block `b`
  unfoldable pub find_rounds : ℕ → ℕ → ℕ → ℕ → Fs → Run EntryFound
  find_rounds zero i b o fs = ok absent fs
  find_rounds (suc fuel) i b o fs =
      let here = test_entry (find_rounds fuel (i + 1) b (o + 16) fs) b o fs in
      let next = bmap now (i / 64) inode fs >>= λ r fs1.
      if (r.0 == 0) || not (fs1.readable (r.0))
      then skipped i fs1
      else test_entry (find_rounds fuel (i + 1) (r.0) 16 fs1) (r.0) 0 fs1 in
      if leb entries i then ok absent fs else if leb 1024 o then next else here

-- Each round goes past an entry at least.
unfoldable pub find_entry : Bool → ℕ → ℕ → (ℕ → ℕ) → FileInode → Fs → Run EntryFound
find_entry zf now namelen name dir fs =
    let len = if ltb 14 namelen then 14 else namelen in
    let entries = dir.i_size / 16 in
    let b = dir.i_zone 0 in
    if len == 0
    then ok absent fs
    else if b == 0
    then ok absent fs
    else if not (fs.readable b)
    then ok absent fs
    else find_rounds zf now len name entries dir entries 0 b 0 fs
