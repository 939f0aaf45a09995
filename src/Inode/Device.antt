-- ===== src/Inode/Device.antt =====
-- block_read of fs/block_dev.c, on the contents of the blocks that bread gives. The dirty flag that
-- it sets is left out, and the position does not wrap around.
use linux_0_1_1_comment.Prelude.{
  ltb, ◌=/=◌, if◌then◌else◌, get_elem?, ℕ, zero, suc, ◌+◌, ◌-◌, ◌/◌, ◌%◌, ◌≤◌, ◌<◌, ◌≡◌, ap, ◌∙◌,
  Bool, true, false, not, some, List, [], ◌++◌, arith,
}
use linux_0_1_1_comment.Inode.{Fs}
use linux_0_1_1_comment.Inode.Read.{block_bytes}
use linux_0_1_1_comment.Word.{neg, sle}

-- the bytes put at `buf`, whether bread failed, and the count that is left
pub record DeviceRead : Type 0 where
  pub bytes : List ℕ
  pub failed : Bool
  pub left : ℕ

-- while (count>0), with `fuel` rounds
unfoldable pub device_loop : ℕ → ℕ → ℕ → ℕ → Fs → DeviceRead
device_loop zero block offset count fs = record { bytes = []; failed = false; left = count }
device_loop (suc fuel) block offset count fs =
    let chars = if ltb count 1024 then count else 1024 in
    let rest = device_loop fuel (block + 1) 0 (count - chars) fs in
    if sle count 0
    then record { bytes = []; failed = false; left = count }
    else if not (fs.readable block)
    then record { bytes = []; failed = true; left = count }
    else record rest { bytes = block_bytes chars offset (fs.b_data block) ++ rest.bytes }

-- EIO of include/errno.h
abbrev pub eio : ℕ
eio = 5

-- what is returned, and *pos
abbrev pub device_result : ℕ → ℕ → DeviceRead → ℕ × ℕ × DeviceRead
device_result pos count r =
    let read = count - r.left in
    (if r.failed then (if read =/= 0 then read else neg eio) else read, pos + read, r)

-- Each round takes a byte at least.
unfoldable pub block_read : ℕ → ℕ → Fs → ℕ × ℕ × DeviceRead
block_read pos count fs =
    device_result pos count (device_loop count (pos / 1024) (pos % 1024) count fs)

-- Byte `k` of those that are copied from a block.
get_elem?-block_bytes :
    (n k offset : ℕ) (d : ℕ → ℕ) (rest : List ℕ)
    → k < n
    → get_elem? (block_bytes n offset d ++ rest) k ≡ some (d (offset + k))
unfolding block_bytes
get_elem?-block_bytes zero k offset d rest lt = absurd (omega arith)
get_elem?-block_bytes (suc n) zero offset d rest lt = ap (λ i. some (d i)) (omega arith)
get_elem?-block_bytes (suc n) (suc k) offset d rest lt =
    get_elem?-block_bytes n k (offset + 1) d rest (omega arith) ∙ ap (λ i. some (d i)) (omega arith)

-- For at most 1024 bytes that begin in a block which bread gives and go on behind it, block_read
-- takes in place of the first byte of the next block the byte behind the end of the buffer, at
-- index 1024.
pub block_read_overruns :
    (pos count : ℕ) (fs : Fs)
    → 1024 < pos % 1024 + count
    → count ≤ 1024
    → fs.readable (pos / 1024) ≡ true
    → get_elem? (block_read pos count fs).2.bytes (1024 - pos % 1024)
      ≡ some (fs.b_data (pos / 1024) 1024)
unfolding block_read device_loop
block_read_overruns pos zero fs over le r = absurd (omega arith)
block_read_overruns pos (suc count) fs over le r =
    let asked : sle (suc count) 0 ≡ false = ground arith in
    let chars = if ltb (suc count) 1024 then suc count else 1024 in
    let inside : 1024 - pos % 1024 < chars = ground arith in
    rw (asked, r)
      (get_elem?-block_bytes chars (1024 - pos % 1024) (pos % 1024) (fs.b_data (pos / 1024)) _
          inside
        ∙ ap (λ i. some (fs.b_data (pos / 1024) i)) (omega arith))
