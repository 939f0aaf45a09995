-- ===== src/Bitmap.antt =====
-- The maps of used blocks and inodes of a file system: fs/bitmap.c. A map is kept in up to eight
-- blocks of 8192 bits. The super block is the one get_super(dev) finds; without one each
-- operation panics. s_firstdatazone is at least 1. The numbers of users of the cached blocks
-- (b_count) are part of the state; their contents are not.
pub mod Search
pub mod Marks
pub mod Zones
pub mod Inodes
use linux_0_1_1_comment.Prelude.{
  ltb, leb, ◌==◌, ◌=/=◌, if◌then◌else◌, update, ℕ, zero, suc, ◌+◌, ◌-◌, ◌*◌, ◌/◌, ◌%◌, Bool, true,
  false, not, ◌||◌, Option, none, some,
}

-- the bits of a block of a map, true where in use
abbrev pub Bits : Type 0
Bits = ℕ → Bool

pub record Super : Type 0 where
  pub firstdatazone : ℕ
  pub nzones : ℕ
  pub ninodes : ℕ
  pub zmap : ℕ → Option Bits
  pub zmap_dirt : ℕ → Bool
  pub imap : ℕ → Option Bits
  pub imap_dirt : ℕ → Bool
  pub users : ℕ → ℕ

-- bsfl of the complement of a word: the number of the first zero bit of the 32 from `base`, or 32
unfoldable pub first_zero_bit : ℕ → Bits → ℕ → ℕ → ℕ
first_zero_bit zero bits base k = k
first_zero_bit (suc rounds) bits base k =
    let rest = first_zero_bit rounds bits base (k + 1) in if bits (base + k) then rest else k

-- the loop over the words, which stops at bit 8192
unfoldable pub first_zero_word : ℕ → Bits → ℕ → ℕ
first_zero_word zero bits base = base
first_zero_word (suc words) bits base =
    let rest = first_zero_word words bits (base + 32) in
    let k = first_zero_bit 32 bits base 0 in if k == 32 then rest else base + k

unfoldable pub find_first_zero : Bits → ℕ
find_first_zero bits = first_zero_word 256 bits 0

-- if (bh=map[i]) if ((j=find_first_zero(bh->b_data))<8192) break;
abbrev pub search_map : ℕ → Option Bits → Option (ℕ × ℕ) → Option (ℕ × ℕ)
search_map i none rest = rest
search_map i (some bits) rest =
    if ltb (find_first_zero bits) 8192 then some (i, find_first_zero bits) else rest

-- for (i=0 ; i<8 ; i++)
unfoldable pub search_maps : ℕ → ℕ → (ℕ → Option Bits) → Option (ℕ × ℕ)
search_maps zero i maps = none
search_maps (suc rounds) i maps = search_map i (maps i) (search_maps rounds (i + 1) maps)

-- `map[i]->b_data` with bit `j` written
unfoldable pub write_bit : ℕ → ℕ → Bool → (ℕ → Option Bits) → ℕ → Option Bits
write_bit i j b maps = elim (maps i) [
  | none ↦ maps
  | some bits ↦ update maps i (some (update bits j b))
]

-- What an operation on a map does: it stops the machine, refuses and leaves this state, or works.
pub data Outcome : Type 0 where
  panics : Outcome
  refused : Super → Outcome
  done : ℕ → Super → Outcome

-- clear_bit of bit `n` of the zone map, counted from 1, and the mark that it has changed. For a map
-- block that is missing free_block loads through NULL without a test, and the model stops.
unfoldable pub clear_zone_bit : Option Bits → ℕ → Super → Outcome
clear_zone_bit none n s = panics
clear_zone_bit (some bits) n s =
    if not (bits (n % 8192))
    then panics
    else done 0 (record s {
      zmap = write_bit (n / 8192) (n % 8192) false s.zmap;
      zmap_dirt = update s.zmap_dirt (n / 8192) true;
    })

-- the end of free_block
unfoldable pub clear_zone : ℕ → Super → Outcome
clear_zone n s = clear_zone_bit (s.zmap (n / 8192)) n s

-- A block that others use stays, and get_hash_table has counted one user more.
unfoldable pub free_block : ℕ → Super → Outcome
free_block block s =
    if ltb block s.firstdatazone || leb s.nzones block
    then panics
    else if s.users block =/= 0
    then refused (record s { users = update s.users block (s.users block + 1) })
    else clear_zone (block - (s.firstdatazone - 1)) s

-- the end of new_block, for bit `j` of map `i`, which set_bit cannot find set after the search; the
-- block is cleared by way of getblk, which never returns NULL
unfoldable pub take_zone : ℕ → ℕ → Super → Outcome
take_zone i j s =
    let block = j + i * 8192 + s.firstdatazone - 1 in
    let t = record s { zmap = write_bit i j true s.zmap; zmap_dirt = update s.zmap_dirt i true } in
    if leb s.nzones block then refused t else if s.users block =/= 0 then panics else done block t

unfoldable pub take_found : Option (ℕ × ℕ) → Super → Outcome
take_found none s = refused s
take_found (some (i, j)) s = take_zone i j s

-- The refusals are the returns of 0.
unfoldable pub new_block : Super → Outcome
new_block s = take_found (search_maps 8 0 s.zmap) s

-- The fields of an inode in memory that new_inode and free_inode look at or set.
pub record MInode : Type 0 where
  pub i_dev : ℕ
  pub i_num : ℕ
  pub i_count : ℕ
  pub i_nlinks : ℕ
  pub i_dirt : Bool
  pub i_mtime : ℕ
  pub i_atime : ℕ
  pub i_ctime : ℕ

-- memset(inode,0,sizeof(*inode))
abbrev pub cleared_inode : MInode
cleared_inode = record {
  i_dev = 0;
  i_num = 0;
  i_count = 0;
  i_nlinks = 0;
  i_dirt = false;
  i_mtime = 0;
  i_atime = 0;
  i_ctime = 0;
}

-- clear_bit of bit `n` of the inode map, and the mark that it has changed; none is a panic
unfoldable pub clear_inode_bit : Option Bits → ℕ → Super → Option Super
clear_inode_bit none n s = none
clear_inode_bit (some bits) n s =
    if not (bits (n % 8192))
    then none
    else some (record s {
      imap = write_bit (n / 8192) (n % 8192) false s.imap;
      imap_dirt = update s.imap_dirt (n / 8192) true;
    })

unfoldable pub with_cleared_inode : Option Super → Option (MInode × Super)
with_cleared_inode none = none
with_cleared_inode (some s) = some (cleared_inode, s)

-- free_inode of an inode that is not NULL; none is a panic
unfoldable pub free_inode : MInode → Super → Option (MInode × Super)
free_inode inode s =
    if inode.i_dev == 0
    then some (cleared_inode, s)
    else if ltb 1 inode.i_count || (inode.i_nlinks =/= 0)
    then none
    else if ltb inode.i_num 1 || ltb s.ninodes inode.i_num
    then none
    else with_cleared_inode (clear_inode_bit (s.imap (inode.i_num / 8192)) inode.i_num s)

-- The inode that get_empty_inode gave, after `iput` or as the new inode, and the super block.
pub data NewInode : Type 0 where
  no_inode : MInode → Super → NewInode
  new : MInode → Super → NewInode

-- the end of new_inode, for bit `j` of map `i`; iput of an inode without device takes a user
unfoldable pub take_inode : ℕ → ℕ → MInode → Option (ℕ × ℕ) → Super → NewInode
take_inode dev now inode none s = no_inode (record inode { i_count = inode.i_count - 1 }) s
take_inode dev now inode (some (i, j)) s =
    if ltb s.ninodes (j + i * 8192)
    then no_inode (record inode { i_count = inode.i_count - 1 }) s
    else new
        (record inode {
          i_count = 1;
          i_nlinks = 1;
          i_dev = dev;
          i_dirt = true;
          i_num = j + i * 8192;
          i_mtime = now;
          i_atime = now;
          i_ctime = now;
        })
        (record s { imap = write_bit i j true s.imap; imap_dirt = update s.imap_dirt i true })

-- new_inode, for the inode that get_empty_inode gave
unfoldable pub new_inode : ℕ → ℕ → MInode → Super → NewInode
new_inode dev now inode s = take_inode dev now inode (search_maps 8 0 s.imap) s
