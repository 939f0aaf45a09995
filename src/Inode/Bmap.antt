-- ===== src/Inode/Bmap.antt =====
-- _bmap, bmap and create_block of fs/inode.c. `now` is CURRENT_TIME.
use linux_0_1_1_comment.Prelude.{
  ltb, leb, ◌==◌, ◌=/=◌, if◌then◌else◌, update, ℕ, ◌+◌, ◌-◌, ◌*◌, ◌/◌, ◌%◌, Bool, true, false, not,
  ◌&&◌,
}
use linux_0_1_1_comment.Inode.{
  Run, ok, panicked, ◌>>=◌, Fs, FileInode, word_at, put_word, hold, release, alloc,
}

-- if (inode->i_zone[k]=new_block(inode->i_dev)) { i_ctime, i_dirt }
abbrev pub set_zone : ℕ → ℕ → ℕ → FileInode → FileInode
set_zone now k b inode =
    if b =/= 0
    then record inode { i_zone = update inode.i_zone k b; i_ctime = now; i_dirt = true }
    else record inode { i_zone = update inode.i_zone k b }

-- if (create && !inode->i_zone[k]) ...
unfoldable pub zone_or_new : ℕ → Bool → ℕ → FileInode → Fs → Run FileInode
zone_or_new now create k inode fs =
    if create && (inode.i_zone k == 0)
    then alloc fs >>= (λ b fs1. ok (set_zone now k b inode) fs1)
    else ok inode fs

-- the new entry of an index block
abbrev pub set_entry : ℕ → ℕ → ℕ → Fs → Fs
set_entry b k i fs =
    if i =/= 0 then record fs { b_data = update fs.b_data b (put_word (fs.b_data b) k i) } else fs

-- bread of index block `b`, entry `k` of it, which may be new, and brelse
unfoldable pub entry_or_new : Bool → ℕ → ℕ → Fs → Run ℕ
entry_or_new create b k fs =
    if not (fs.readable b)
    then ok 0 fs
    else (let i = word_at (fs.b_data b) k in
        if create && (i == 0)
        then alloc (hold b fs) >>= (λ n fs1. ok n (release b (set_entry b k n fs1)))
        else ok i fs)

-- the entry of a block, where there is a block
abbrev pub entry_below : Bool → ℕ → ℕ → Fs → Run ℕ
entry_below create b k fs = if b == 0 then ok 0 fs else entry_or_new create b k fs

abbrev pub with_inode : FileInode → Run ℕ → Run (ℕ × FileInode)
with_inode inode (ok n fs) = ok (n, inode) fs
with_inode inode panicked = panicked

unfoldable pub bmap_direct : ℕ → Bool → ℕ → FileInode → Fs → Run (ℕ × FileInode)
bmap_direct now create block inode fs =
    zone_or_new now create block inode fs >>= λ ino fs1. ok (ino.i_zone block, ino) fs1

unfoldable pub bmap_single : ℕ → Bool → ℕ → FileInode → Fs → Run (ℕ × FileInode)
bmap_single now create block inode fs = zone_or_new now create 7 inode fs >>= λ ino fs1.
    with_inode ino (entry_below create (ino.i_zone 7) block fs1)

unfoldable pub bmap_double : ℕ → Bool → ℕ → FileInode → Fs → Run (ℕ × FileInode)
bmap_double now create block inode fs = zone_or_new now create 8 inode fs >>= λ ino fs1.
    with_inode ino (
      entry_below create (ino.i_zone 8) (block / 512) fs1 >>= λ i fs2.
      entry_below create i (block % 512) fs2)

-- block < 0 does not arise for a natural number.
unfoldable pub bmap_create : ℕ → Bool → ℕ → FileInode → Fs → Run (ℕ × FileInode)
bmap_create now create block inode fs =
    if leb (7 + 512 + 512 * 512) block
    then panicked
    else if ltb block 7
    then bmap_direct now create block inode fs
    else if ltb (block - 7) 512
    then bmap_single now create (block - 7) inode fs
    else bmap_double now create (block - 7 - 512) inode fs

unfoldable pub bmap : ℕ → ℕ → FileInode → Fs → Run (ℕ × FileInode)
bmap now block inode fs = bmap_create now false block inode fs

unfoldable pub create_block : ℕ → ℕ → FileInode → Fs → Run (ℕ × FileInode)
create_block now block inode fs = bmap_create now true block inode fs
