-- ===== src/Names/Find.antt =====
-- find_entry of fs/namei.c against a search of the entries of a directory in their order.
use linux_0_1_1_comment.Prelude.{
  ltb, leb, ◌==◌, if◌then◌else◌, Bool-cases, ne→==, if_both, subst, min, ℕ, zero, suc, ◌+◌, ◌*◌,
  ◌/◌, ◌%◌, ◌≤◌, ◌<◌, ◌≡◌, refl, sym, ap, ◌≢◌, ◌⊎◌, inl, inr, Bool, true, false, not, arith,
  ℕ_discrete,
}
use linux_0_1_1_comment.Inode.{ok, Fs, FileInode}
use linux_0_1_1_comment.Inode.Lookup.{lookup, bmap-lookup}
use linux_0_1_1_comment.Names.{match, EntryFound, at, absent, find_rounds, find_entry}

-- entry `k` of a directory: its block, and its first byte in it
abbrev pub entry_block : FileInode → Fs → ℕ → ℕ
entry_block inode fs k = lookup inode fs (k / 64)

abbrev pub entry_place : ℕ → ℕ
entry_place k = 16 * (k % 64)

module _ (zf : Bool) (len : ℕ) (name : ℕ → ℕ) (inode : FileInode) (fs : Fs) where
  -- the first of the `n` entries from `k` on with the name
  unfoldable pub first_entry : ℕ → ℕ → EntryFound
  first_entry zero k = absent
  first_entry (suc n) k =
      let rest = first_entry n (k + 1) in
      if match zf len name (fs.b_data (entry_block inode fs k)) (entry_place k)
      then at (entry_block inode fs k) (entry_place k)
      else rest

-- Every block of a directory of so many entries is there and can be read.
abbrev pub AllThere : ℕ → FileInode → Fs → Type 0
AllThere entries inode fs =
    (j : ℕ) → 64 * j < entries → (lookup inode fs j ≢ 0) × (fs.readable (lookup inode fs j) ≡ true)

module _ (zf : Bool) (now len : ℕ) (name : ℕ → ℕ) (entries : ℕ) (inode : FileInode) (fs : Fs) where
  AtEntry : ℕ → ℕ → ℕ → Type 0
  AtEntry i b o =
      ((b ≡ lookup inode fs (i / 64)) × (o ≡ 16 * (i % 64))) ⊎ ((o ≡ 1024) × (i % 64 ≡ 0))

  next_entry : (i : ℕ) → AtEntry (i + 1) (lookup inode fs (i / 64)) (16 * (i % 64) + 16)
  unfolding AtEntry
  next_entry i = elim (ℕ_discrete (i % 64) 63) [
    | yes e ↦ inr (omega arith, omega arith)
    | no ne ↦
        let same : (i + 1) / 64 ≡ i / 64 = omega arith in
        inl (ap (lookup inode fs) (sym same), omega arith)
  ]

  start : AtEntry 0 (inode.i_zone 0) 0
  unfolding AtEntry
  start = inl (refl, refl)

  find_rounds-first_entry :
      (fuel n i b o : ℕ)
      → entries ≤ 64 * (7 + 512 + 512 * 512)
      → AllThere entries inode fs
      → n + i ≡ entries
      → n ≤ fuel
      → AtEntry i b o
      → find_rounds zf now len name entries inode fuel i b o fs
        ≡ ok (first_entry zf len name inode fs n i) fs
  unfolding find_rounds first_entry AtEntry
  find_rounds-first_entry zero zero i b o bound there e le st = refl
  find_rounds-first_entry zero (suc n) i b o bound there e le st = absurd (omega arith)
  find_rounds-first_entry (suc fuel) zero i b o bound there e le st =
      let done : leb entries i ≡ true = ground arith in rw done refl
  find_rounds-first_entry (suc fuel) (suc n) i b o bound there e le (inl (eb, eo)) =
      let more : leb entries i ≡ false = ground arith in
      let inside : leb 1024 o ≡ false = ground arith in
      let ih =
        find_rounds-first_entry fuel n (i + 1) (lookup inode fs (i / 64)) (16 * (i % 64) + 16) bound
          there (omega arith) (omega arith) (next_entry i) in
      rw (more, inside, eb, eo, ih)
        (elim (Bool-cases
          (match zf len name (fs.b_data (lookup inode fs (i / 64))) (16 * (i % 64)))) [
            | inl m ↦ rw m refl
            | inr m ↦ rw m refl
          ])
  find_rounds-first_entry (suc fuel) (suc n) i b o bound there e le (inr (eo, ez)) =
      let more : leb entries i ≡ false = ground arith in
      let (nz, readable) = there (i / 64) (omega arith) in
      let place : 16 * (i % 64) ≡ 0 = omega arith in
      let ih =
        find_rounds-first_entry fuel n (i + 1) (lookup inode fs (i / 64)) 16 bound there
          (omega arith) (omega arith)
          (subst (λ z. AtEntry (i + 1) (lookup inode fs (i / 64)) (z + 16)) place (next_entry i)) in
      let nz0 = ne→== (lookup inode fs (i / 64)) 0 nz in
      rw (more, eo, bmap-lookup now (i / 64) inode fs (omega arith), nz0, readable, ih, place)
        (elim (Bool-cases (match zf len name (fs.b_data (lookup inode fs (i / 64))) 0)) [
          | inl m ↦ rw m refl
          | inr m ↦ rw m refl
        ])

-- a directory without entries
no_entry :
    (zf : Bool) (now : ℕ) (name : ℕ → ℕ) (dir : FileInode) (fs : Fs) (n len : ℕ)
    → n ≡ 0
    → (if dir.i_zone 0 == 0
        then ok absent fs
        else if not (fs.readable (dir.i_zone 0))
        then ok absent fs
        else find_rounds zf now len name n dir n 0 (dir.i_zone 0) 0 fs)
      ≡ ok (first_entry zf len name dir fs n 0) fs
unfolding find_rounds first_entry
no_entry zf now name dir fs n len z = rw z (
    if_both (λ r. r ≡ ok absent fs) (dir.i_zone 0 == 0) (λ e. refl)
      (λ e.
        if_both (λ r. r ≡ ok absent fs) (not (fs.readable (dir.i_zone 0))) (λ r. refl) (λ r. refl)))

-- find_entry finds the first entry of the directory with the name, whose bytes behind the 14th do
-- not count.
pub find_entry-first_entry :
    (zf : Bool) (now namelen : ℕ) (name : ℕ → ℕ) (dir : FileInode) (fs : Fs)
    → 1 ≤ namelen
    → dir.i_size / 16 ≤ 64 * (7 + 512 + 512 * 512)
    → AllThere (dir.i_size / 16) dir fs
    → find_entry zf now namelen name dir fs
      ≡ ok (first_entry zf (min namelen 14) name dir fs (dir.i_size / 16) 0) fs
unfolding find_entry
find_entry-first_entry zf now namelen name dir fs some_name bound there =
    let e : (if ltb 14 namelen then 14 else namelen) ≡ min namelen 14 = ground arith in
    let nz : (min namelen 14 == 0) ≡ false = ground arith in
    rw (e, nz)
      (elim (ℕ_discrete (dir.i_size / 16) 0) [
        | yes z ↦ no_entry zf now name dir fs (dir.i_size / 16) _ z
        | no ne ↦
            let (b_ne, readable) = there 0 (omega arith) in
            let b0 : (dir.i_zone 0 == 0) ≡ false = ne→== (dir.i_zone 0) 0 b_ne in
            rw (b0, readable)
              (find_rounds-first_entry zf now (min namelen 14) name (dir.i_size / 16) dir fs
                (dir.i_size / 16) (dir.i_size / 16) 0 (dir.i_zone 0) 0 bound there (omega arith)
                (omega arith) (start zf now (min namelen 14) name (dir.i_size / 16) dir fs))
      ])
