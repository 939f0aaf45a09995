-- ===== src/Bitmap/Inodes.antt =====
-- new_inode and free_inode of fs/bitmap.c.
use linux_0_1_1_comment.Prelude.{ℕ, ◌≤◌, ◌<◌, ◌≡◌, ◌≢◌, true, false, some}
use linux_0_1_1_comment.Bitmap.{Super, MInode, cleared_inode, free_inode, NewInode, no_inode, new}
use linux_0_1_1_comment.Bitmap.Marks.{in_use}

-- The new inode has the first free number, which is marked and nothing else changed; and once it
-- has no links, free_inode gives the map back.
pub record Allotted (dev : ℕ) (s : Super) (inode : MInode) (t : Super) : Type 0 where
  pub positive : 1 ≤ inode.i_num
  pub in_range : inode.i_num ≤ s.ninodes
  pub on_device : inode.i_dev ≡ dev
  pub linked : (inode.i_nlinks ≡ 1) × (inode.i_count ≡ 1)
  pub was_free : in_use s.imap inode.i_num ≡ false
  pub now_used : in_use t.imap inode.i_num ≡ true
  pub others : (n : ℕ) → n ≢ inode.i_num → in_use t.imap n ≡ in_use s.imap n
  pub restored :
      (u : Super) × (free_inode (record inode { i_nlinks = 0 }) t ≡ some (cleared_inode, u))
      × ((n : ℕ) → in_use u.imap n ≡ in_use s.imap n)

-- What new_inode does. It refuses where the first free bit, or every bit, is past the inodes.
pub data Allots (dev : ℕ) (s : Super) : NewInode → Type 0 where
  all_used :
      {inode : MInode}
      → ((n : ℕ) → n < 65536 → in_use s.imap n ≡ true)
      → inode.i_count ≡ 0
      → Allots dev s (no_inode inode s)
  past_inodes :
      {inode : MInode} (z : ℕ)
      → in_use s.imap z ≡ false
      → s.ninodes < z
      → inode.i_count ≡ 0
      → Allots dev s (no_inode inode s)
  allotted : {inode : MInode} {t : Super} → Allotted dev s inode t → Allots dev s (new inode t)
