-- ===== src/Strings/Comparing.antt =====
-- strcmp, strncmp and memcmp of include/string.h. Bytes are compared as signed ones (jl).
use linux_0_1_1_comment.Prelude.{
  ◌==◌, ◌=/=◌, if◌then◌else◌, ℕ, zero, suc, ◌+◌, Bool, Option, none, some,
}
use linux_0_1_1_comment.Strings.{Bytes, slt8, repe_cmpsb}

-- movl $1,eax; jl 3f; negl eax
abbrev pub verdict : Bool → ℕ
verdict less = if less then 1 else 0xffffffff

-- 1: lodsb; scasb; jne 2f; testb al,al; jne 1b: al is from ct
unfoldable pub strcmp : ℕ → ℕ → ℕ → Bytes → Option ℕ
strcmp zero cs ct m = none
strcmp (suc fuel) cs ct m =
    let rest = strcmp fuel (cs + 1) (ct + 1) m in
    if m ct =/= m cs
    then some (verdict (slt8 (m ct) (m cs)))
    else if m ct == 0
    then some 0
    else rest

unfoldable pub strncmp : ℕ → ℕ → ℕ → Bytes → ℕ
strncmp cs ct zero m = 0
strncmp cs ct (suc count) m =
    let rest = strncmp (cs + 1) (ct + 1) count m in
    if m ct =/= m cs then verdict (slt8 (m ct) (m cs)) else if m ct == 0 then 0 else rest

-- `zf` and `less` are the flags that the caller left; no instruction sets them when count is 0.
unfoldable pub memcmp : Bool → Bool → ℕ → ℕ → ℕ → Bytes → ℕ
memcmp zf less cs ct count m =
    let r = repe_cmpsb count ct cs zf less m in if r.equal then 0 else verdict r.less
