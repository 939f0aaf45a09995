-- ===== src/Inode/Maps.antt =====
-- create_block of fs/inode.c as a whole.
-- What create_block does to a file: block `block` of it is the block returned, and the blocks that
-- were mapped before are where they were.
use linux_0_1_1_comment.Prelude.{
  ltb, Bool-cases, lt→leb, subst, ℕ, ◌+◌, ◌-◌, ◌*◌, ◌/◌, ◌%◌, ◌<◌, ◌≡◌, refl, sym, ◌∙◌, ◌≢◌, inl,
  inr, true, false, ℕ_discrete,
}
use linux_0_1_1_comment.Inode.{Run, ok, panicked, ◌>>=◌, Fs, FileInode}
use linux_0_1_1_comment.Inode.Bmap.{
  zone_or_new, entry_below, with_inode, bmap_direct, bmap_single, bmap_double, bmap_create,
  create_block,
}
use linux_0_1_1_comment.Inode.Create.{Indexed, entry-Grows, EntryMade, entry_below-EntryMade}
use linux_0_1_1_comment.Inode.Grow.{
  NoneOrUsed, Sound, Grows, Grows-trans, Leaves, Leaves-map, Leaves-bind,
}
use linux_0_1_1_comment.Inode.Lookup.{entry, lookup}
use linux_0_1_1_comment.Inode.Zones.{
  ZoneMade, zone_or_new-ZoneMade, lookup-Grows, Indexed-Grows, ZoneMade-Indexed,
}

pub record Mapped (inode : FileInode) (fs : Fs) (block : ℕ) (r : ℕ × FileInode) (fs' : Fs)
    : Type 0 where
  pub sound : Sound fs'
  pub indexed : Indexed (r.1) fs'
  pub mapped : lookup (r.1) fs' block ≡ r.0
  pub keeps :
      (other : ℕ) → lookup inode fs other ≢ 0 → lookup (r.1) fs' other ≡ lookup inode fs other

Leaves-with_inode :
    (Q : ℕ × FileInode → Fs → Type 0) (ino : FileInode) (r : Run ℕ)
    → Leaves (λ n fs. Q (n, ino) fs) r
    → Leaves Q (with_inode ino r)
Leaves-with_inode Q ino (ok n fs) h = h
Leaves-with_inode Q ino panicked h = h

-- The inode and its index blocks, while entries are made.
record Stage (inode : FileInode) (fs : Fs) (ino : FileInode) (fs' : Fs) : Type 0 where
  sound : Sound fs'
  grows : Grows fs fs'
  indexed : Indexed ino fs'
  kept : (j : ℕ) → inode.i_zone j ≢ 0 → ino.i_zone j ≡ inode.i_zone j

zone-Stage :
    (now k : ℕ) (inode : FileInode) (fs : Fs)
    → Sound fs
    → Indexed inode fs
    → Leaves (Stage inode fs) (zone_or_new now true k inode fs)
zone-Stage now k inode fs sound ix =
    Leaves-map (ZoneMade k inode fs) (Stage inode fs) (zone_or_new now true k inode fs)
      (zone_or_new-ZoneMade now k inode fs sound)
      (λ ino fs1 m. record {
        sound = m.sound;
        grows = m.grows;
        indexed = ZoneMade-Indexed k inode ino fs fs1 m ix;
        kept = m.kept;
      })

-- An entry more, and what it holds.
next-Stage :
    (inode ino : FileInode) (b k n : ℕ) (fs fs1 fs2 : Fs)
    → Stage inode fs ino fs1
    → EntryMade b k fs1 n fs2
    → Stage inode fs ino fs2
next-Stage inode ino b k n fs fs1 fs2 st e = record {
  sound = e.sound;
  grows = Grows-trans fs fs1 fs2 st.grows e.grows;
  indexed = Indexed-Grows ino fs1 fs2 st.indexed e.grows;
  kept = st.kept;
}

Stage-Mapped :
    (inode ino : FileInode) (block n : ℕ) (fs fs' : Fs)
    → Indexed inode fs
    → Stage inode fs ino fs'
    → lookup ino fs' block ≡ n
    → Mapped inode fs block (n, ino) fs'
Stage-Mapped inode ino block n fs fs' ix st e = record {
  sound = st.sound;
  indexed = st.indexed;
  mapped = e;
  keeps = λ other ne. lookup-Grows inode ino fs fs' other ix st.grows st.kept ne;
}

-- The entry of the double index block stays when the one below it is made.
double_mapped :
    (ino : FileInode) (k k' i n : ℕ) (fs1 fs2 fs3 : Fs)
    → Indexed ino fs2
    → EntryMade (ino.i_zone 8) k fs1 i fs2
    → EntryMade i k' fs2 n fs3
    → entry fs3 (entry fs3 (ino.i_zone 8) k) k' ≡ n
double_mapped ino k k' i n fs1 fs2 fs3 ix e e' = elim (ℕ_discrete i 0) [
  | yes z ↦ rw (e'.untouched z, e.made) (subst (λ w. entry w i k' ≡ n) (e'.untouched z) e'.made)
  | no there ↦
      let same =
        entry-Grows fs2 fs3 (ino.i_zone 8) k e'.grows ix.double (λ z. there (sym e.made ∙ z)) in
      rw (same, e.made) e'.made
]

-- Where the double index block leads, once its entry is made.
second-Used :
    (ino : FileInode) (k i : ℕ) (fs1 fs2 : Fs)
    → Indexed ino fs2
    → EntryMade (ino.i_zone 8) k fs1 i fs2
    → NoneOrUsed fs2 i
second-Used ino k i fs1 fs2 ix e = subst (NoneOrUsed fs2) e.made (ix.second k)

module _ (now block : ℕ) (inode : FileInode) (fs : Fs) (sound : Sound fs)
    (ix : Indexed inode fs) where
  direct-Mapped :
      ltb block 7 ≡ true → Leaves (Mapped inode fs block) (bmap_direct now true block inode fs)
  unfolding bmap_direct
  direct-Mapped direct =
      Leaves-bind (Stage inode fs) (Mapped inode fs block) (zone_or_new now true block inode fs)
        (λ ino fs1. ok (ino.i_zone block, ino) fs1) (zone-Stage now block inode fs sound ix)
        (λ ino fs1 st.
          Stage-Mapped inode ino block (ino.i_zone block) fs fs1 ix st (rw direct refl))

  single-Mapped :
      ltb block 7 ≡ false
      → ltb (block - 7) 512 ≡ true
      → Leaves (Mapped inode fs block) (bmap_single now true (block - 7) inode fs)
  unfolding bmap_single
  single-Mapped indirect single =
      let k = block - 7 in
      Leaves-bind (Stage inode fs) (Mapped inode fs block) (zone_or_new now true 7 inode fs)
        (λ ino fs1. with_inode ino (entry_below true (ino.i_zone 7) k fs1))
        (zone-Stage now 7 inode fs sound ix)
        (λ ino fs1 st.
          Leaves-with_inode (Mapped inode fs block) ino (entry_below true (ino.i_zone 7) k fs1) (
            Leaves-map (EntryMade (ino.i_zone 7) k fs1)
              (λ n fs2. Mapped inode fs block (n, ino) fs2) (entry_below true (ino.i_zone 7) k fs1)
              (entry_below-EntryMade (ino.i_zone 7) k fs1 st.sound st.indexed.single)
              (λ n fs2 e.
                Stage-Mapped inode ino block n fs fs2 ix
                  (next-Stage inode ino (ino.i_zone 7) k n fs fs1 fs2 st e)
                  (rw (indirect, single) e.made))))

  module _ (ino : FileInode) (fs1 : Fs) (st : Stage inode fs ino fs1)
      (indirect : ltb block 7 ≡ false) (double : ltb (block - 7) 512 ≡ false) where
    -- The entry of the second index block.
    below_second :
        (i : ℕ) (fs2 : Fs)
        → EntryMade (ino.i_zone 8) ((block - 7 - 512) / 512) fs1 i fs2
        → Leaves
            (λ n fs3. Mapped inode fs block (n, ino) fs3)
            (entry_below true i ((block - 7 - 512) % 512) fs2)
    below_second i fs2 e =
        let k = (block - 7 - 512) / 512 in
        let k' = (block - 7 - 512) % 512 in
        let st2 = next-Stage inode ino (ino.i_zone 8) k i fs fs1 fs2 st e in
        Leaves-map (EntryMade i k' fs2) (λ n fs3. Mapped inode fs block (n, ino) fs3)
          (entry_below true i k' fs2)
          (entry_below-EntryMade i k' fs2 e.sound (second-Used ino k i fs1 fs2 st2.indexed e))
          (λ n fs3 e'.
            Stage-Mapped inode ino block n fs fs3 ix (next-Stage inode ino i k' n fs fs2 fs3 st2 e')
              (rw (indirect, double) (double_mapped ino k k' i n fs1 fs2 fs3 st2.indexed e e')))

  double-Mapped :
      ltb block 7 ≡ false
      → ltb (block - 7) 512 ≡ false
      → Leaves (Mapped inode fs block) (bmap_double now true (block - 7 - 512) inode fs)
  unfolding bmap_double
  double-Mapped indirect double =
      let k = (block - 7 - 512) / 512 in
      let k' = (block - 7 - 512) % 512 in
      Leaves-bind (Stage inode fs) (Mapped inode fs block) (zone_or_new now true 8 inode fs)
        (λ ino fs1.
          with_inode ino
            (entry_below true (ino.i_zone 8) k fs1 >>= λ i fs2. entry_below true i k' fs2))
        (zone-Stage now 8 inode fs sound ix)
        (λ ino fs1 st.
          Leaves-with_inode (Mapped inode fs block) ino
            (entry_below true (ino.i_zone 8) k fs1 >>= λ i fs2. entry_below true i k' fs2)
            (Leaves-bind (EntryMade (ino.i_zone 8) k fs1)
              (λ n fs3. Mapped inode fs block (n, ino) fs3) (entry_below true (ino.i_zone 8) k fs1)
              (λ i fs2. entry_below true i k' fs2)
              (entry_below-EntryMade (ino.i_zone 8) k fs1 st.sound st.indexed.double)
              (below_second ino fs1 st indirect double)))

-- For a block below 7 + 512 + 512 * 512, on a disk where data blocks start at 1 or later, bit 0 of
-- the zone map is set, block numbers fit a short and free blocks have no users, and for a file
-- whose index blocks are in use: create_block does not panic, the block that it returns is what the
-- file then holds at that place, every block that the file held stays where it was, and the disk
-- and the index blocks are again as they were required to be.
pub create_block-Mapped :
    (now block : ℕ) (inode : FileInode) (fs : Fs)
    → block < 7 + 512 + 512 * 512
    → Sound fs
    → Indexed inode fs
    → Leaves (Mapped inode fs block) (create_block now block inode fs)
unfolding create_block bmap_create
create_block-Mapped now block inode fs lt sound ix =
    rw (lt→leb block (7 + 512 + 512 * 512) lt) (elim (Bool-cases (ltb block 7)) [
      | inl direct ↦ rw direct (direct-Mapped now block inode fs sound ix direct)
      | inr indirect ↦ rw indirect (elim (Bool-cases (ltb (block - 7) 512)) [
        | inl single ↦ rw single (single-Mapped now block inode fs sound ix indirect single)
        | inr double ↦ rw double (double-Mapped now block inode fs sound ix indirect double)
      ])
    ])
