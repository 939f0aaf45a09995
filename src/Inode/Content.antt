-- ===== src/Inode/Content.antt =====
-- What file_read of fs/file_dev.c gives: the bytes of the file.
use mathlib.Core.Path.{ap₂}
use linux_0_1_1_comment.Prelude.{
  ◌==◌, ◌=/=◌, if◌then◌else◌, ==_iff, Bool-cases, length, replicate, min, ℕ, zero, suc, ◌+◌, ◌-◌,
  ◌*◌, ◌/◌, ◌%◌, ◌≤◌, ◌<◌, ◌≡◌, refl, sym, ap, ◌∙◌, ◌⊎◌, inl, inr, Bool, true, false, not, ◌&&◌,
  List, [], ◌∷◌, ◌++◌, arith,
}
use linux_0_1_1_comment.Inode.{Run, ok, Fs, FileInode}
use linux_0_1_1_comment.Inode.Lookup.{lookup, bmap-lookup}
use linux_0_1_1_comment.Inode.Read.{
  block_bytes, copied, FileRead, prepend, read_round, read_blocks, read_result, file_read,
}
use linux_0_1_1_comment.Word.{neg, sle}

-- Byte `p` of a file, which is 0 in a hole.
abbrev pub byte_of : FileInode → Fs → ℕ → ℕ
byte_of inode fs p =
    let b = lookup inode fs (p / 1024) in if b =/= 0 then fs.b_data b (p % 1024) else 0

unfoldable pub file_bytes : FileInode → Fs → ℕ → ℕ → List ℕ
file_bytes inode fs zero p = []
file_bytes inode fs (suc n) p = byte_of inode fs p ∷ file_bytes inode fs n (p + 1)

module _ (inode : FileInode) (fs : Fs) where
  file_bytes-append :
      (a b p : ℕ)
      → file_bytes inode fs a p ++ file_bytes inode fs b (p + a) ≡ file_bytes inode fs (a + b) p
  unfolding file_bytes
  file_bytes-append zero b p = ap₂ (file_bytes inode fs) (omega arith) (omega arith)
  file_bytes-append (suc a) b p =
      let shift : p + suc a ≡ p + 1 + a = omega arith in
      let size : suc a + b ≡ suc (a + b) = omega arith in
      rw (shift, size) (ap (◌∷◌ (byte_of inode fs p)) (file_bytes-append a b (p + 1)))

  -- Byte `off` of block `q` of the file, which is block `b` of the disk.
  byte_of-block :
      (p q off b : ℕ)
      → p ≡ q * 1024 + off
      → off < 1024
      → lookup inode fs q ≡ b
      → byte_of inode fs p ≡ (if b =/= 0 then fs.b_data b off else 0)
  byte_of-block p q off b e lt at =
      let quot : p / 1024 ≡ q = omega arith in
      let rem : p % 1024 ≡ off = omega arith in rw (quot, rem, at) refl

  block_bytes-file_bytes :
      (n p q off b : ℕ)
      → p ≡ q * 1024 + off
      → n + off ≤ 1024
      → lookup inode fs q ≡ b
      → (b =/= 0) ≡ true
      → block_bytes n off (fs.b_data b) ≡ file_bytes inode fs n p
  unfolding block_bytes file_bytes
  block_bytes-file_bytes zero p q off b e le at nz = refl
  block_bytes-file_bytes (suc n) p q off b e le at nz =
      ap₂ ◌∷◌ (sym (byte_of-block p q off b e (omega arith) at ∙ rw nz refl))
        (block_bytes-file_bytes n (p + 1) q (off + 1) b (omega arith) (omega arith) at nz)

  zeros-file_bytes :
      (n p q off : ℕ)
      → p ≡ q * 1024 + off
      → n + off ≤ 1024
      → lookup inode fs q ≡ 0
      → replicate n 0 ≡ file_bytes inode fs n p
  unfolding file_bytes
  zeros-file_bytes zero p q off e le at = refl
  zeros-file_bytes (suc n) p q off e le at =
      ap₂ ◌∷◌ (sym (byte_of-block p q off 0 e (omega arith) at))
        (zeros-file_bytes n (p + 1) q (off + 1) (omega arith) (omega arith) at)

  copied-file_bytes :
      (n p : ℕ)
      → n + p % 1024 ≤ 1024
      → copied (lookup inode fs (p / 1024)) n (p % 1024) fs ≡ file_bytes inode fs n p
  copied-file_bytes n p le =
      let b = lookup inode fs (p / 1024) in
      let e : p ≡ p / 1024 * 1024 + p % 1024 = omega arith in
      elim (Bool-cases (b =/= 0)) [
        | inl nz ↦ rw nz (block_bytes-file_bytes n p (p / 1024) (p % 1024) b e le refl nz)
        | inr z ↦ rw z (zeros-file_bytes n p (p / 1024) (p % 1024) e le (ground arith))
      ]

-- The number of bytes, or an error where there are none.
abbrev pub Value : ℕ → List ℕ → Type 0
Value v bs = ((0 < length bs) × (v ≡ length bs)) ⊎ ((length bs ≡ 0) × (v ≡ 0xffffffff - 98))

-- Bytes were read from `pos` on, all `count` of them or up to a block that bread does not give.
pub record ReadsFile (count pos : ℕ) (inode : FileInode) (fs : Fs) (r : FileRead) : Type 0 where
  pub size : ℕ
  pub within : size + r.left ≡ count
  pub content : r.bytes ≡ file_bytes inode fs size pos
  pub place : r.pos ≡ pos + size
  pub same_inode : r.inode ≡ inode
  pub stop : (r.left ≡ 0) ⊎ (fs.readable (lookup inode fs (r.pos / 1024)) ≡ false)

module _ (now : ℕ) (inode : FileInode) (fs : Fs) where
  stopped-ReadsFile :
      (left pos : ℕ)
      → (left ≡ 0) ⊎ (fs.readable (lookup inode fs (pos / 1024)) ≡ false)
      → ReadsFile left pos inode fs (record { bytes = []; left = left; pos = pos; inode = inode })
  unfolding file_bytes
  stopped-ReadsFile left pos stop = record {
    size = 0;
    within = omega arith;
    content = refl;
    place = omega arith;
    same_inode = refl;
    stop = stop;
  }

  -- The blocks behind the first.
  next-ReadsFile :
      (chars left pos : ℕ) (bs : List ℕ) (r : FileRead)
      → chars ≤ left
      → bs ≡ file_bytes inode fs chars pos
      → ReadsFile (left - chars) (pos + chars) inode fs r
      → ReadsFile left pos inode fs (record r { bytes = bs ++ r.bytes })
  next-ReadsFile chars left pos bs r le e h = record {
    size = chars + h.size;
    within = omega (arith, h.within);
    content = rw (e, h.content) (file_bytes-append inode fs chars h.size pos);
    place = h.place ∙ omega arith;
    same_inode = h.same_inode;
    stop = h.stop;
  }

  -- The file system is as it was.
  abbrev Returns : ℕ → ℕ → Run FileRead → Type 0
  Returns left pos o = (r : FileRead) × (o ≡ ok r fs) × ReadsFile left pos inode fs r

  unreadable : (a b : Bool) → (a && not b) ≡ true → b ≡ false
  unreadable true true e = absurd (cc (e))
  unreadable true false e = refl
  unreadable false b e = absurd (cc (e))

  -- One round, where the rest does what is claimed.
  round-Returns :
      (rest : ℕ → ℕ → FileInode → Fs → Run FileRead) (left pos : ℕ)
      → ((chars : ℕ)
          → chars ≡ min (1024 - pos % 1024) left
          → Returns (left - chars) (pos + chars) (rest (left - chars) (pos + chars) inode fs))
      → Returns left pos (read_round rest left pos (lookup inode fs (pos / 1024)) inode fs)
  round-Returns rest left pos next =
      let b = lookup inode fs (pos / 1024) in
      elim (Bool-cases (b =/= 0 && not (fs.readable b))) [
        | inl e ↦ rw e (_, refl, stopped-ReadsFile left pos (inr (unreadable _ _ e)))
        | inr e ↦
            let chars = min (1024 - pos % 1024) left in
            let (r, run, h) = next chars refl in
            let bs = copied b chars (pos % 1024) fs in
            rw e (
              record r { bytes = bs ++ r.bytes },
              ap (prepend bs) run,
              next-ReadsFile chars left pos bs r (omega arith)
                  (copied-file_bytes inode fs chars pos (omega arith)) h,
            )
      ]

  read_blocks-ReadsFile :
      (fuel left pos : ℕ)
      → left ≤ fuel
      → pos + left ≤ (7 + 512 + 512 * 512) * 1024
      → Returns left pos (read_blocks fuel now left pos inode fs)
  unfolding read_blocks
  read_blocks-ReadsFile zero left pos le fit =
      (_, refl, stopped-ReadsFile left pos (inl (omega arith)))
  read_blocks-ReadsFile (suc fuel) left pos le fit = elim (Bool-cases (left == 0)) [
    | inl z ↦ rw z (_, refl, stopped-ReadsFile left pos (inl ((==_iff left 0).0 z)))
    | inr nz ↦
        rw (nz, bmap-lookup now (pos / 1024) inode fs (ground arith))
          (round-Returns (λ left pos ino fs. read_blocks fuel now left pos ino fs) left pos
            (λ chars e.
              read_blocks-ReadsFile fuel (left - chars) (pos + chars) (ground arith) (omega arith)))
  ]

  length-file_bytes : (n p : ℕ) → length (file_bytes inode fs n p) ≡ n
  unfolding file_bytes
  length-file_bytes zero p = refl
  length-file_bytes (suc n) p = omega (arith, length-file_bytes n (p + 1))

  -- For a count that is positive and a position from which that many bytes are below the greatest
  -- size of a file: file_read does not panic and changes nothing of the disk, and of the inode the
  -- time of access only; it gives the bytes of the file from the position on, which are 0 in a
  -- hole, all `count` of them or up to a block that bread does not give; the position moves by
  -- their number, which is returned, or -99 when there are none.
  pub file_read-ReadsFile :
      (count pos : ℕ)
      → 0 < count
      → pos + count ≤ (7 + 512 + 512 * 512) * 1024
      → (v : ℕ) × (r : FileRead) × (file_read now count pos inode fs
          ≡ ok (v, record r { inode = record inode { i_atime = now } }) fs)
        × ReadsFile count pos inode fs r
        × Value v r.bytes
  unfolding file_read neg
  file_read-ReadsFile count pos asks fit =
      let (r, run, h) = read_blocks-ReadsFile count count pos (omega arith) fit in
      let asked : sle count 0 ≡ false = ground arith in
      let size : length r.bytes ≡ count - r.left =
        ap length h.content ∙ length-file_bytes h.size pos ∙ omega (arith, h.within) in
      (
        (read_result now count r).0,
        r,
        rw (asked, run)
            (ap
              (λ ino.
                ok ((read_result now count r).0, record r { inode = record ino { i_atime = now } })
                  fs)
              h.same_inode),
        h,
        rw size (ground arith),
      )
