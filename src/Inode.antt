-- ===== src/Inode.antt =====
-- fs/inode.c: the zones of a file; and file_read of fs/file_dev.c and block_read of fs/block_dev.c. A
-- block that bread gives is named by its number; `b_data` holds the contents of the blocks as the
-- buffer cache has them, and a block that is not `readable` is one for which bread returns NULL. The
-- flag b_dirt of a block is left out.
pub mod Bmap
pub mod Grow
pub mod Fresh
pub mod Lookup
pub mod Create
pub mod Zones
pub mod Maps
pub mod Read
pub mod Content
pub mod Device
use linux_0_1_1_comment.Prelude.{update, ℕ, ◌+◌, ◌-◌, ◌*◌, ◌/◌, ◌%◌, Bool, true}
use linux_0_1_1_comment.Bitmap.{Super, Outcome, panics, refused, done, new_block}

pub record Fs : Type 0 where
  pub super : Super
  pub b_data : ℕ → ℕ → ℕ
  pub readable : ℕ → Bool

-- The fields of an inode that name and date its contents.
pub record FileInode : Type 0 where
  pub i_zone : ℕ → ℕ
  pub i_size : ℕ
  pub i_dirt : Bool
  pub i_ctime : ℕ
  pub i_atime : ℕ

-- A routine returns, or panics.
pub data Run {ℓ} (A : Type ℓ) : Type ℓ where
  ok : A → Fs → Run A
  panicked : Run A

infixl 5 ◌>>=◌
abbrev pub ◌>>=◌ {ℓ κ} : {A : Type ℓ} {B : Type κ} → Run A → (A → Fs → Run B) → Run B
ok a m >>= f = f a m
panicked >>= f = panicked

-- ((unsigned short *) bh->b_data)[k]
abbrev pub word_at : (ℕ → ℕ) → ℕ → ℕ
word_at d k = d (2 * k) + 256 * d (2 * k + 1)

abbrev pub put_word : (ℕ → ℕ) → ℕ → ℕ → ℕ → ℕ
put_word d k v = update (update d (2 * k) (v % 256)) (2 * k + 1) (v / 256)

-- b_count++ by bread, and b_count-- by brelse
abbrev pub hold : ℕ → Fs → Fs
hold b fs = record fs {
  super = record fs.super { users = update fs.super.users b (fs.super.users b + 1) };
}

abbrev pub release : ℕ → Fs → Fs
release b fs = record fs {
  super = record fs.super { users = update fs.super.users b (fs.super.users b - 1) };
}

-- new_block, with the clear_block and the b_uptodate = 1 that Bitmap.antt leaves out
abbrev pub allocated : Fs → Outcome → Run ℕ
allocated fs panics = panicked
allocated fs (refused t) = ok 0 (record fs { super = t })
allocated fs (done b t) = ok b (record fs {
  super = t;
  b_data = update fs.b_data b (λ j. 0);
  readable = update fs.readable b true;
})

unfoldable pub alloc : Fs → Run ℕ
alloc fs = allocated fs (new_block fs.super)
