-- ===== src/Strings/Searching.antt =====
-- strlen, strchr, strrchr, strspn, strcspn, strpbrk, strstr and memchr of include/string.h. A null
-- pointer is 0.
use linux_0_1_1_comment.Prelude.{
  ◌==◌, if◌then◌else◌, ℕ, zero, suc, ◌+◌, ◌-◌, Bool, false, Option, none, some,
}
use linux_0_1_1_comment.Strings.{Bytes, repne_scasb, repe_cmpsb}

unfoldable pub strlen : ℕ → Bytes → ℕ
strlen s m = 0xffffffff - (repne_scasb 0xffffffff 0 s false m).ecx - 1

unfoldable pub strchr : ℕ → ℕ → ℕ → Bytes → Option ℕ
strchr zero s c m = none
strchr (suc fuel) s c m =
    let rest = strchr fuel (s + 1) c m in
    if m s == c then some s else if m s == 0 then some 0 else rest

-- `last` is edx
unfoldable pub last_char : ℕ → ℕ → ℕ → ℕ → Bytes → Option ℕ
last_char zero s c last m = none
last_char (suc fuel) s c last m =
    let edx = if m s == c then s else last in
    let rest = last_char fuel (s + 1) c edx m in if m s == 0 then some edx else rest

unfoldable pub strrchr : ℕ → ℕ → ℕ → Bytes → Option ℕ
strrchr fuel s c m = last_char fuel s c 0 m

-- whether `repne; scasb` finds a byte, which is not 0, among the `len` bytes at ct
unfoldable pub in_set : ℕ → ℕ → ℕ → Bytes → Bool
in_set al ct len m = (repne_scasb len al ct false m).zf

-- the loop of strspn: the address of the first byte from `s` on that is 0 or not in the set
unfoldable pub skip_set : ℕ → ℕ → ℕ → ℕ → Bytes → Option ℕ
skip_set zero s ct len m = none
skip_set (suc fuel) s ct len m =
    let rest = skip_set fuel (s + 1) ct len m in
    if m s == 0 then some s else if in_set (m s) ct len m then rest else some s

-- the loop of strcspn and strpbrk: the first byte that is 0 or in the set
unfoldable pub find_set : ℕ → ℕ → ℕ → ℕ → Bytes → Option ℕ
find_set zero s ct len m = none
find_set (suc fuel) s ct len m =
    let rest = find_set fuel (s + 1) ct len m in
    if m s == 0 then some s else if in_set (m s) ct len m then some s else rest

abbrev pub minus_start : ℕ → Option ℕ → Option ℕ
minus_start cs none = none
minus_start cs (some s) = some (s - cs)

unfoldable pub strspn : ℕ → ℕ → ℕ → Bytes → Option ℕ
strspn fuel cs ct m = minus_start cs (skip_set fuel cs ct (strlen ct m) m)

unfoldable pub strcspn : ℕ → ℕ → ℕ → Bytes → Option ℕ
strcspn fuel cs ct m = minus_start cs (find_set fuel cs ct (strlen ct m) m)

-- strpbrk leaves the loop at another label when the byte is 0.
abbrev pub null_at_end : Bytes → Option ℕ → Option ℕ
null_at_end m none = none
null_at_end m (some s) = some (if m s == 0 then 0 else s)

unfoldable pub strpbrk : ℕ → ℕ → ℕ → Bytes → Option ℕ
strpbrk fuel cs ct m = null_at_end m (find_set fuel cs ct (strlen ct m) m)

-- Where the comparison stops at the end of the searched string, the search has failed.
unfoldable pub find_string : ℕ → ℕ → ℕ → ℕ → Bytes → Option ℕ
find_string zero s ct len m = none
find_string (suc fuel) s ct len m =
    let rest = find_string fuel (s + 1) ct len m in
    let r = repe_cmpsb len s ct (len == 0) false m in
    if r.equal then some s else if m (r.esi - 1) == 0 then some 0 else rest

unfoldable pub strstr : ℕ → ℕ → ℕ → Bytes → Option ℕ
strstr fuel cs ct m = find_string fuel cs ct (strlen ct m) m

unfoldable pub memchr : ℕ → ℕ → ℕ → Bytes → ℕ
memchr cs c count m =
    let r = repne_scasb count c cs false m in
    if count == 0 then 0 else if r.zf then r.edi - 1 else 0
