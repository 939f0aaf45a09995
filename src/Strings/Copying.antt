-- ===== src/Strings/Copying.antt =====
-- strcpy, strncpy, strcat, strncat, memcpy, memmove and memset of include/string.h. Each gives the
-- memory that it leaves; what they return is `dest`.
use linux_0_1_1_comment.Prelude.{
  ltb, ◌==◌, if◌then◌else◌, update, ℕ, zero, suc, ◌+◌, ◌-◌, false, Option, none, some,
}
use linux_0_1_1_comment.Strings.{Bytes, repne_scasb, rep_movsb, rep_movsb_down, rep_stosb}

-- 1: lodsb; stosb; testb al,al; jne 1b
unfoldable pub copy_string : ℕ → ℕ → ℕ → Bytes → Option Bytes
copy_string zero dest src m = none
copy_string (suc fuel) dest src m =
    let m' = update m dest (m src) in
    let rest = copy_string fuel (dest + 1) (src + 1) m' in if m src == 0 then some m' else rest

unfoldable pub strcpy : ℕ → ℕ → ℕ → Bytes → Option Bytes
strcpy fuel dest src m = copy_string fuel dest src m

unfoldable pub strncpy : ℕ → ℕ → ℕ → Bytes → Bytes
strncpy dest src zero m = m
strncpy dest src (suc count) m =
    let m' = update m dest (m src) in
    let rest = strncpy (dest + 1) (src + 1) count m' in
    if m src == 0 then rep_stosb count 0 (dest + 1) m' else rest

-- where the scan for the end of `dest` leaves edi, less one
abbrev pub end_of : ℕ → Bytes → ℕ
end_of dest m = (repne_scasb 0xffffffff 0 dest false m).edi - 1

unfoldable pub strcat : ℕ → ℕ → ℕ → Bytes → Option Bytes
strcat fuel dest src m = copy_string fuel (end_of dest m) src m

-- the loop of strncat, and the byte that it stores after it
unfoldable pub append_upto : ℕ → ℕ → ℕ → Bytes → Bytes
append_upto dest src zero m = update m dest 0
append_upto dest src (suc count) m =
    let m' = update m dest (m src) in
    let rest = append_upto (dest + 1) (src + 1) count m' in
    if m src == 0 then update m' (dest + 1) 0 else rest

unfoldable pub strncat : ℕ → ℕ → ℕ → Bytes → Bytes
strncat dest src count m = append_upto (end_of dest m) src count m

unfoldable pub memcpy : ℕ → ℕ → ℕ → Bytes → Bytes
memcpy dest src n m = rep_movsb n dest src m

unfoldable pub memmove : ℕ → ℕ → ℕ → Bytes → Bytes
memmove dest src n m = if ltb dest src then rep_movsb n dest src m else rep_movsb_down n dest src m

unfoldable pub memset : ℕ → ℕ → ℕ → Bytes → Bytes
memset s c count m = rep_stosb count c s m
