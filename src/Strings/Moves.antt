-- ===== src/Strings/Moves.antt =====
-- What memmove, strcpy, strcat and strncat of include/string.h leave in memory.
use linux_0_1_1_comment.Prelude.{
  ltb, leb, if◌then◌else◌, ltb→lt, ltb→ge, Bool-cases, ne→==, update, update_ne, ℕ, zero, suc, ◌+◌,
  ◌-◌, ◌≤◌, ◌<◌, ◌≡◌, refl, ap, ◌∙◌, ◌≢◌, ◌⊎◌, inl, inr, ◌&&◌, some, arith, dec_lt, ℕ_discrete,
}
use linux_0_1_1_comment.Strings.{Bytes, rep_movsb, rep_movsb_down}
use linux_0_1_1_comment.Strings.Copying.{copy_string, strcat, append_upto, strncat, memmove}
use linux_0_1_1_comment.Strings.Lengths.{Str, Str-tail, Str-empty, Str-head, end_of-Str}

-- `n` bytes from `src` as they stand in `m`, put at `dest`.
abbrev pub moved : ℕ → ℕ → ℕ → Bytes → Bytes
moved dest src n m a = if leb dest a && ltb a (dest + n) then m (src + (a - dest)) else m a

-- The target does not overlap the rest of the source from below.
abbrev pub Clear : ℕ → ℕ → ℕ → Type 0
Clear dest src n = (dest < src) ⊎ (src + n < dest)

up-moved :
    (n dest src : ℕ) (m : Bytes) (a : ℕ)
    → Clear dest src n
    → moved (dest + 1) (src + 1) n (update m dest (m src)) a ≡ moved dest src (suc n) m a
up-moved n dest src m a clear = elim (ℕ_discrete a dest) [
  | yes e ↦ let v : m (src + (a - dest)) ≡ m src = ap m (omega arith) in ground (arith, v)
  | no ne ↦ elim (dec_lt a dest) [
    | yes below ↦ ground arith
    | no above ↦
        let v : m (src + 1 + (a - (dest + 1))) ≡ m (src + (a - dest)) = ap m (omega arith) in
        ground (arith, v)
  ]
]

Clear-tail : (n dest src : ℕ) → Clear dest src (suc n) → Clear (dest + 1) (src + 1) n
Clear-tail n dest src (inl below) = inl (omega arith)
Clear-tail n dest src (inr above) = inr (omega arith)

rep_movsb-moved :
    (n dest src : ℕ) (m : Bytes) (a : ℕ)
    → dest < src
    → rep_movsb n dest src m a ≡ moved dest src n m a
unfolding rep_movsb
rep_movsb-moved zero dest src m a lt = ground arith
rep_movsb-moved (suc n) dest src m a lt =
    rep_movsb-moved n (dest + 1) (src + 1) (update m dest (m src)) a (omega arith)
    ∙ up-moved n dest src m a (inl lt)

down-moved :
    (n dest src : ℕ) (m : Bytes) (a : ℕ)
    → src ≤ dest
    → moved dest src n (update m (dest + n) (m (src + n))) a ≡ moved dest src (suc n) m a
down-moved n dest src m a le = elim (ℕ_discrete a (dest + n)) [
  | yes e ↦ let v : m (src + (a - dest)) ≡ m (src + n) = ap m (omega arith) in ground (arith, v)
  | no ne ↦ ground arith
]

rep_movsb_down-moved :
    (n dest src : ℕ) (m : Bytes) (a : ℕ)
    → src ≤ dest
    → rep_movsb_down n dest src m a ≡ moved dest src n m a
unfolding rep_movsb_down
rep_movsb_down-moved zero dest src m a le = ground arith
rep_movsb_down-moved (suc n) dest src m a le =
    rep_movsb_down-moved n dest src (update m (dest + n) (m (src + n))) a le
    ∙ down-moved n dest src m a le

-- memmove puts the `n` bytes as they stood before at `dest`, however the two areas overlap, and
-- leaves every other byte.
pub memmove-moved :
    (dest src n : ℕ) (m : Bytes) (a : ℕ) → memmove dest src n m a ≡ moved dest src n m a
unfolding memmove
memmove-moved dest src n m a = elim (Bool-cases (ltb dest src)) [
  | inl below ↦ rw below (rep_movsb-moved n dest src m a (ltb→lt dest src below))
  | inr above ↦ rw above (rep_movsb_down-moved n dest src m a (ltb→ge dest src above))
]

Clear-apart : (n dest src k : ℕ) → Clear dest src (suc n) → k ≤ n → src + 1 + k ≢ dest
Clear-apart n dest src k (inl below) le e = omega arith
Clear-apart n dest src k (inr above) le e = omega arith

-- Storing a byte below a string that is read upwards, or above it, leaves the string.
Str-update :
    (s n b v : ℕ) (m : Bytes) → Clear b s (suc n) → Str (s + 1) n m → Str (s + 1) n (update m b v)
Str-update s n b v m clear str = record {
  inner = λ k lt.
      rw (update_ne m b (s + 1 + k) v (Clear-apart n b s k clear (omega arith))) (str.inner k lt);
  end = rw (update_ne m b (s + 1 + n) v (Clear-apart n b s n clear (omega arith))) str.end;
}

one-moved : (dest src : ℕ) (m : Bytes) (a : ℕ) → update m dest (m src) a ≡ moved dest src 1 m a
one-moved dest src m a = elim (ℕ_discrete a dest) [
  | yes e ↦ let v : m (src + (a - dest)) ≡ m src = ap m (omega arith) in ground (arith, v)
  | no ne ↦ ground arith
]

pub copy_string-moved :
    (n fuel dest src : ℕ) (m : Bytes)
    → n < fuel
    → Str src n m
    → Clear dest src n
    → (m' : Bytes) × (copy_string fuel dest src m ≡ some m')
      × ((a : ℕ) → m' a ≡ moved dest src (suc n) m a)
unfolding copy_string
copy_string-moved n zero dest src m lt str clear = absurd (omega arith)
copy_string-moved zero (suc fuel) dest src m lt str clear =
    (update m dest (m src), rw (Str-empty src m str) refl, one-moved dest src m)
copy_string-moved (suc n) (suc fuel) dest src m lt str clear =
    let tail = Str-update src n dest (m src) m clear (Str-tail src n m str) in
    let (m', run, kept) =
      copy_string-moved n fuel (dest + 1) (src + 1) (update m dest (m src)) (omega arith) tail
        (Clear-tail n dest src clear) in
    (
      m',
      rw (ne→== (m src) 0 (Str-head src n m str)) run,
      λ a. kept a ∙ up-moved (suc n) dest src m a clear,
    )

-- Two strings one behind the other.
Str-append :
    (s k n src : ℕ) (m m' : Bytes)
    → Str s k m
    → Str src n m
    → ((a : ℕ) → m' a ≡ moved (s + k) src (suc n) m a)
    → Str s (k + n) m'
Str-append s k n src m m' head tail kept = record {
  inner = λ i lt. elim (dec_lt i k) [
    | yes front ↦
        let v : moved (s + k) src (suc n) m (s + i) ≡ m (s + i) = ground arith in
        rw (kept (s + i), v) (head.inner i front)
    | no back ↦
        let at : m (src + (s + i - (s + k))) ≡ m (src + (i - k)) = ap m (omega arith) in
        let v : moved (s + k) src (suc n) m (s + i) ≡ m (src + (i - k)) = ground (arith, at) in
        rw (kept (s + i), v) (tail.inner (i - k) (omega arith))
  ];
  end =
      let at : m (src + (s + (k + n) - (s + k))) ≡ m (src + n) = ap m (omega arith) in
      let v : moved (s + k) src (suc n) m (s + (k + n)) ≡ m (src + n) = ground (arith, at) in
      rw (kept (s + (k + n)), v) tail.end;
}

-- For strings of `k` bytes at `dest` and `n` at `src`, where the target does not run into the
-- source, and more than `n` rounds, strcat leaves one string of `k + n` bytes at `dest`: the source
-- moved behind the first, and every other byte as it was.
pub strcat-Str :
    (fuel dest k src n : ℕ) (m : Bytes)
    → n < fuel
    → k < 0xffffffff
    → Str dest k m
    → Str src n m
    → Clear (dest + k) src n
    → (m' : Bytes) × (strcat fuel dest src m ≡ some m')
      × Str dest (k + n) m'
      × ((a : ℕ) → m' a ≡ moved (dest + k) src (suc n) m a)
unfolding strcat
strcat-Str fuel dest k src n m enough short head tail clear =
    let (m', run, kept) = copy_string-moved n fuel (dest + k) src m enough tail clear in
    (m', rw (end_of-Str dest k m short head) run, Str-append dest k n src m m' head tail kept, kept)

append_upto-overrun :
    (n count dest src : ℕ) (m : Bytes)
    → n < count
    → Str src n m
    → Clear dest src n
    → append_upto dest src count m (dest + n + 1) ≡ 0
unfolding append_upto
append_upto-overrun n zero dest src m lt str clear = absurd (omega arith)
append_upto-overrun zero (suc count) dest src m lt str clear =
    rw (Str-empty src m str) (ground arith)
append_upto-overrun (suc n) (suc count) dest src m lt str clear =
    let tail = Str-update src n dest (m src) m clear (Str-tail src n m str) in
    let at : dest + suc n + 1 ≡ dest + 1 + n + 1 = omega arith in
    rw (ne→== (m src) 0 (Str-head src n m str), at)
      (append_upto-overrun n count (dest + 1) (src + 1) (update m dest (m src)) (omega arith) tail
        (Clear-tail n dest src clear))

-- For a source shorter than `count` that the target does not run into, strncat leaves a 0 also in
-- the byte behind the end of the string that it makes.
pub strncat_overruns :
    (dest k src n count : ℕ) (m : Bytes)
    → n < count
    → k < 0xffffffff
    → Str dest k m
    → Str src n m
    → Clear (dest + k) src n
    → strncat dest src count m (dest + k + n + 1) ≡ 0
unfolding strncat
strncat_overruns dest k src n count m lt short head tail clear =
    rw (end_of-Str dest k m short head) (append_upto-overrun n count (dest + k) src m lt tail clear)
