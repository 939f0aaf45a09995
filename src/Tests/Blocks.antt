-- ===== src/Tests/Blocks.antt =====
-- The zones of a file, on a disk of a hundred blocks with data from block 10 on.
use linux_0_1_1_comment.Prelude.{
  ltb, update, get_elem?, ℕ, ◌-◌, ◌/◌, ◌%◌, ◌≡◌, refl, inl, inr, true, false, none, some, arith,
}
use linux_0_1_1_comment.Bitmap.{Super}
use linux_0_1_1_comment.Inode.{ok, Fs, FileInode}
use linux_0_1_1_comment.Inode.Bmap.{bmap, create_block}
use linux_0_1_1_comment.Inode.Content.{Value, ReadsFile, file_read-ReadsFile}
use linux_0_1_1_comment.Inode.Create.{Indexed}
use linux_0_1_1_comment.Inode.Device.{block_read, block_read_overruns}
use linux_0_1_1_comment.Inode.Grow.{Sound, Leaves}
use linux_0_1_1_comment.Inode.Lookup.{lookup, bmap-lookup}
use linux_0_1_1_comment.Inode.Maps.{Mapped, create_block-Mapped}
use linux_0_1_1_comment.Inode.Read.{FileRead, file_read}

abbrev disk : Super
disk = record {
  firstdatazone = 10;
  nzones = 100;
  ninodes = 32;
  zmap = update (λ i. none) 0 (some (λ k. ltb k 4));
  zmap_dirt = λ i. false;
  imap = update (λ i. none) 0 (some (λ k. ltb k 5));
  imap_dirt = λ i. false;
  users = λ n. 0;
}

-- block 11 is an index block whose entry 1 is block 12
abbrev pub file_system : Fs
file_system = record {
  super = disk;
  b_data = update (λ b j. 0) 11 (update (λ j. 0) 2 12);
  readable = λ b. true;
}

-- zone 0 is block 10, and zone 7 the index block
abbrev pub small_file : FileInode
small_file = record {
  i_zone = update (update (λ k. 0) 0 10) 7 11;
  i_size = 9000;
  i_dirt = false;
  i_ctime = 5;
  i_atime = 5;
}

disk-Sound : Sound file_system
disk-Sound = record {
  positive = omega arith;
  reserved = refl;
  small = omega arith;
  idle = λ c f. refl;
}

index-Indexed : Indexed small_file file_system
index-Indexed = record { single = inr refl; double = inl refl; second = λ k. inl refl }

bmap-lookup_example :
    bmap 100 8 small_file file_system ≡ ok (lookup small_file file_system 8, small_file) file_system
bmap-lookup_example = bmap-lookup 100 8 small_file file_system (omega arith)

lookup_run : lookup small_file file_system 8 ≡ 12
lookup_run = refl

create_block-Mapped_example :
    Leaves (Mapped small_file file_system 1000) (create_block 100 1000 small_file file_system)
create_block-Mapped_example =
    create_block-Mapped 100 1000 small_file file_system (omega arith) disk-Sound index-Indexed

-- The last bytes of block 7, whose contents are block 12, and a hole.
file_read-ReadsFile_example :
    (v : ℕ) × (r : FileRead) × (file_read 100 2000 8000 small_file file_system
      ≡ ok (v, record r { inode = record small_file { i_atime = 100 } }) file_system)
    × ReadsFile 2000 8000 small_file file_system r
    × Value v r.bytes
file_read-ReadsFile_example =
    file_read-ReadsFile 100 small_file file_system 2000 8000 (omega arith) (omega arith)

block_read_overruns_example :
    get_elem? (block_read 11500 1000 file_system).2.bytes (1024 - 11500 % 1024)
    ≡ some (file_system.b_data (11500 / 1024) 1024)
block_read_overruns_example =
    block_read_overruns 11500 1000 file_system (omega arith) (omega arith) refl
