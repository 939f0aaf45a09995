-- ===== src/Names/Search.antt =====
-- What find_entry of fs/namei.c tells of the names in a directory.
use linux_0_1_1_comment.Prelude.{
  if_both, subst, min, ℕ, zero, suc, ◌+◌, ◌*◌, ◌/◌, ◌≤◌, ◌<◌, ◌≡◌, Bool, arith, ℕ_discrete,
}
use linux_0_1_1_comment.Inode.{ok, Fs, FileInode}
use linux_0_1_1_comment.Names.{match, EntryFound, at, absent, find_entry}
use linux_0_1_1_comment.Names.Find.{
  entry_block, entry_place, first_entry, AllThere, find_entry-first_entry,
}
use linux_0_1_1_comment.Names.Match.{HasName, match-HasName}

module _ (len : ℕ) (name : ℕ → ℕ) (dir : FileInode) (fs : Fs) where
  abbrev pub HasEntry : ℕ → Type 0
  HasEntry k = HasName len name (fs.b_data (entry_block dir fs k)) (entry_place k)

  -- The first of the `entries` entries that has the name, or NULL when none has.
  pub data Listed (entries : ℕ) : EntryFound → Type 0 where
    listed :
        (k : ℕ)
        → k < entries
        → HasEntry k
        → ((j : ℕ) → j < k → HasEntry j → ⊥)
        → Listed entries (at (entry_block dir fs k) (entry_place k))
    unlisted : ((j : ℕ) → j < entries → HasEntry j → ⊥) → Listed entries absent

  first_entry-Listed :
      (zf : Bool) (entries n k : ℕ)
      → 1 ≤ len
      → n + k ≡ entries
      → ((j : ℕ) → j < k → HasEntry j → ⊥)
      → Listed entries (first_entry zf len name dir fs n k)
  unfolding first_entry
  first_entry-Listed zf entries zero k some_name e before =
      unlisted (λ j lt. before j (omega arith))
  first_entry-Listed zf entries (suc n) k some_name e before =
      let (sound, complete) =
        match-HasName zf len name (fs.b_data (entry_block dir fs k)) (entry_place k) some_name in
      if_both (Listed entries)
        (match zf len name (fs.b_data (entry_block dir fs k)) (entry_place k))
        (λ m. listed k (omega arith) (sound m) before)
        (λ m. first_entry-Listed zf entries n (k + 1) some_name (omega arith) (λ j lt h.
          elim (ℕ_discrete j k) [
            | yes p ↦ absurd (cc (complete (subst HasEntry p h), m))
            | no ne ↦ before j (omega arith) h
          ]))

-- For a name that is not empty, and a directory within the greatest size of a file whose blocks are
-- there and can be read, find_entry does not panic and changes nothing; it gives the place of the
-- first entry in use that has the name, of which 14 bytes count, or NULL when no entry has it.
pub find_entry-Listed :
    (zf : Bool) (now namelen : ℕ) (name : ℕ → ℕ) (dir : FileInode) (fs : Fs)
    → 1 ≤ namelen
    → dir.i_size / 16 ≤ 64 * (7 + 512 + 512 * 512)
    → AllThere (dir.i_size / 16) dir fs
    → (r : EntryFound) × (find_entry zf now namelen name dir fs ≡ ok r fs)
      × Listed (min namelen 14) name dir fs (dir.i_size / 16) r
find_entry-Listed zf now namelen name dir fs some_name bound there = (
  _,
  find_entry-first_entry zf now namelen name dir fs some_name bound there,
  first_entry-Listed (min namelen 14) name dir fs zf (dir.i_size / 16) (dir.i_size / 16) 0
      (omega arith) (omega arith) (λ j lt. absurd (omega arith)),
)
