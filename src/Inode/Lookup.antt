-- ===== src/Inode/Lookup.antt =====
-- bmap and create_block of fs/inode.c against a reading of the zones and index blocks.
use linux_0_1_1_comment.Prelude.{
  ltb, ◌==◌, if◌then◌else◌, Bool-cases, lt→leb, ℕ, ◌+◌, ◌-◌, ◌*◌, ◌/◌, ◌%◌, ◌<◌, ◌≡◌, refl, ap, ◌∙◌,
  ◌≢◌, inl, inr, false, arith,
}
use linux_0_1_1_comment.Inode.{ok, ◌>>=◌, Fs, FileInode, word_at, put_word}
use linux_0_1_1_comment.Inode.Bmap.{
  zone_or_new, entry_or_new, entry_below, with_inode, bmap_direct, bmap_single, bmap_double,
  bmap_create, bmap,
}

-- Entry `k` of index block `b`, or 0 where there is no block or bread fails.
abbrev pub entry : Fs → ℕ → ℕ → ℕ
entry fs b k = if b == 0 then 0 else if fs.readable b then word_at (fs.b_data b) k else 0

-- The block of the disk that holds block `block` of a file, or 0.
abbrev pub lookup : FileInode → Fs → ℕ → ℕ
lookup inode fs block =
    if ltb block 7
    then inode.i_zone block
    else if ltb (block - 7) 512
    then entry fs (inode.i_zone 7) (block - 7)
    else entry fs (entry fs (inode.i_zone 8) ((block - 7 - 512) / 512)) ((block - 7 - 512) % 512)

entry_below-entry : (b k : ℕ) (fs : Fs) → entry_below false b k fs ≡ ok (entry fs b k) fs
unfolding entry_or_new
entry_below-entry b k fs = elim (Bool-cases (b == 0)) [
  | inl z ↦ rw z refl
  | inr nz ↦ rw nz (elim (Bool-cases (fs.readable b)) [ inl r ↦ rw r refl | inr r ↦ rw r refl ])
]

-- For a block below 7 + 512 + 512 * 512, bmap returns what `lookup` reads from the zones and the
-- index blocks, 0 where one of them is missing or unreadable, and changes neither the inode nor the
-- disk.
pub bmap-lookup :
    (now block : ℕ) (inode : FileInode) (fs : Fs)
    → block < 7 + 512 + 512 * 512
    → bmap now block inode fs ≡ ok (lookup inode fs block, inode) fs
unfolding bmap bmap_create bmap_direct bmap_single bmap_double zone_or_new
bmap-lookup now block inode fs lt =
    rw (lt→leb block (7 + 512 + 512 * 512) lt) (elim (Bool-cases (ltb block 7)) [
      | inl direct ↦ rw direct refl
      | inr indirect ↦ rw indirect (elim (Bool-cases (ltb (block - 7) 512)) [
        | inl single ↦
            rw single (ap (with_inode inode) (entry_below-entry (inode.i_zone 7) (block - 7) fs))
        | inr double ↦ rw double (
            ap
              (λ r.
                with_inode inode (r >>= λ i fs2. entry_below false i ((block - 7 - 512) % 512) fs2))
              (entry_below-entry (inode.i_zone 8) ((block - 7 - 512) / 512) fs)
            ∙ ap (with_inode inode) (
                entry_below-entry (entry fs (inode.i_zone 8) ((block - 7 - 512) / 512))
                  ((block - 7 - 512) % 512) fs))
      ])
    ])

pub word_at-put_word : (d : ℕ → ℕ) (k v : ℕ) → v < 65536 → word_at (put_word d k v) k ≡ v
word_at-put_word d k v lt = ground arith

pub word_at-put_word_other :
    (d : ℕ → ℕ) (k k' v : ℕ) → k' ≢ k → word_at (put_word d k v) k' ≡ word_at d k'
word_at-put_word_other d k k' v ne = ground arith
