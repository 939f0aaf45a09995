-- ===== src/Strings.antt =====
-- include/string.h: the string routines, which are i386 string instructions in loops. Memory is a
-- byte for each address, and addresses do not wrap around. A loop that only its data ends has a
-- number of rounds, `fuel`, and gives none when they run out.
pub mod Copying
pub mod Comparing
pub mod Searching
pub mod Lengths
pub mod Moves
pub mod Orders
pub mod Finds
use linux_0_1_1_comment.Prelude.{
  ltb, ◌==◌, if◌then◌else◌, update, ℕ, zero, suc, ◌+◌, ◌%◌, Bool, true, false,
}

abbrev pub Bytes : Type 0
Bytes = ℕ → ℕ

-- ecx, edi and the zero flag after `repne; scasb`
pub record Scanned : Type 0 where
  pub ecx : ℕ
  pub edi : ℕ
  pub zf : Bool

-- repne; scasb
unfoldable pub repne_scasb : ℕ → ℕ → ℕ → Bool → Bytes → Scanned
repne_scasb zero al edi zf m = record { ecx = 0; edi = edi; zf = zf }
repne_scasb (suc ecx) al edi zf m =
    let rest = repne_scasb ecx al (edi + 1) false m in
    if m edi == al then record { ecx = ecx; edi = edi + 1; zf = true } else rest

-- esi, the zero flag, and whether a jl is taken, after `repe; cmpsb`
pub record Compared : Type 0 where
  pub esi : ℕ
  pub equal : Bool
  pub less : Bool

-- a < b on signed bytes
abbrev pub slt8 : ℕ → ℕ → Bool
slt8 a b = ltb ((a + 128) % 256) ((b + 128) % 256)

-- repe; cmpsb, which compares the byte at esi with the one at edi
unfoldable pub repe_cmpsb : ℕ → ℕ → ℕ → Bool → Bool → Bytes → Compared
repe_cmpsb zero esi edi equal less m = record { esi = esi; equal = equal; less = less }
repe_cmpsb (suc ecx) esi edi equal less m =
    let rest = repe_cmpsb ecx (esi + 1) (edi + 1) true false m in
    if m esi == m edi
    then rest
    else record { esi = esi + 1; equal = false; less = slt8 (m esi) (m edi) }

-- rep; movsb with the direction flag clear
unfoldable pub rep_movsb : ℕ → ℕ → ℕ → Bytes → Bytes
rep_movsb zero edi esi m = m
rep_movsb (suc ecx) edi esi m = rep_movsb ecx (edi + 1) (esi + 1) (update m edi (m esi))

-- rep; movsb with the direction flag set, for `ecx` bytes down to edi and esi
unfoldable pub rep_movsb_down : ℕ → ℕ → ℕ → Bytes → Bytes
rep_movsb_down zero edi esi m = m
rep_movsb_down (suc ecx) edi esi m =
    rep_movsb_down ecx edi esi (update m (edi + ecx) (m (esi + ecx)))

-- rep; stosb
unfoldable pub rep_stosb : ℕ → ℕ → ℕ → Bytes → Bytes
rep_stosb zero al edi m = m
rep_stosb (suc ecx) al edi m = rep_stosb ecx al (edi + 1) (update m edi al)
