-- ===== src/Strings/Lengths.antt =====
-- The scan for a byte (repne; scasb) and strlen of include/string.h.
use linux_0_1_1_comment.Prelude.{
  ◌==◌, ==_iff, ne→==, ℕ, zero, suc, ◌+◌, ◌-◌, ◌<◌, ◌≡◌, refl, sym, ap, ◌∙◌, ◌≢◌, Bool, true, false,
  arith,
}
use linux_0_1_1_comment.Strings.{Bytes, Scanned, repne_scasb}
use linux_0_1_1_comment.Strings.Copying.{end_of}
use linux_0_1_1_comment.Strings.Searching.{strlen}

-- A string of `n` bytes, none of them 0, and the 0 behind it.
pub record Str (s n : ℕ) (m : Bytes) : Type 0 where
  pub inner : (k : ℕ) → k < n → m (s + k) ≢ 0
  pub end : m (s + n) ≡ 0

-- Byte `n` from `edi` on is the first that is `al`.
pub record FirstByte (al edi n : ℕ) (m : Bytes) : Type 0 where
  pub before : (k : ℕ) → k < n → m (edi + k) ≢ al
  pub here : m (edi + n) ≡ al

pub FirstByte-tail :
    (al edi n : ℕ) (m : Bytes) → FirstByte al edi (suc n) m → FirstByte al (edi + 1) n m
FirstByte-tail al edi n m f = record {
  before = λ k lt.
      let e : edi + 1 + k ≡ edi + (k + 1) = omega arith in rw e (f.before (k + 1) (omega arith));
  here = let e : edi + 1 + n ≡ edi + suc n = omega arith in rw e f.here;
}

pub at_start : (m : Bytes) (s : ℕ) → m (s + 0) ≡ m s
at_start m s = ap m (omega arith)

pub at_next : (m : Bytes) (s k : ℕ) → m (s + suc k) ≡ m (s + 1 + k)
at_next m s k = ap m (omega arith)

Scanned-ext :
    (ecx ecx' edi edi' : ℕ)
    → ecx ≡ ecx'
    → edi ≡ edi'
    → ◌≡◌ {A = Scanned}
        (record { ecx = ecx; edi = edi; zf = true })
        (record { ecx = ecx'; edi = edi'; zf = true })
Scanned-ext ecx ecx' edi edi' p q = rw (p, q) refl

pub repne_scasb-FirstByte :
    (n ecx al edi : ℕ) (zf : Bool) (m : Bytes)
    → n < ecx
    → FirstByte al edi n m
    → repne_scasb ecx al edi zf m ≡ record { ecx = ecx - n - 1; edi = edi + n + 1; zf = true }
unfolding repne_scasb
repne_scasb-FirstByte n zero al edi zf m lt f = absurd (omega arith)
repne_scasb-FirstByte zero (suc ecx) al edi zf m lt f =
    let e : (m edi == al) ≡ true = (==_iff (m edi) al).1 (sym (at_start m edi) ∙ f.here) in
    rw e (Scanned-ext _ _ _ _ (omega arith) (omega arith))
repne_scasb-FirstByte (suc n) (suc ecx) al edi zf m lt f =
    let e : (m edi == al) ≡ false =
      ne→== (m edi) al (λ h. f.before 0 (omega arith) (at_start m edi ∙ h)) in
    rw
      (
        e,
        repne_scasb-FirstByte n ecx al (edi + 1) false m (omega arith)
            (FirstByte-tail al edi n m f),
      )
      (Scanned-ext _ _ _ _ (omega arith) (omega arith))

pub Str-FirstByte : (s n : ℕ) (m : Bytes) → Str s n m → FirstByte 0 s n m
Str-FirstByte s n m str = record { before = str.inner; here = str.end }

pub Str-tail : (s n : ℕ) (m : Bytes) → Str s (suc n) m → Str (s + 1) n m
Str-tail s n m str =
    let t = FirstByte-tail 0 s n m (Str-FirstByte s (suc n) m str) in
    record { inner = t.before; end = t.here }

pub Str-empty : (s : ℕ) (m : Bytes) → Str s 0 m → (m s == 0) ≡ true
Str-empty s m str = (==_iff (m s) 0).1 (sym (at_start m s) ∙ str.end)

pub Str-head : (s n : ℕ) (m : Bytes) → Str s (suc n) m → m s ≢ 0
Str-head s n m str h = str.inner 0 (omega arith) (at_start m s ∙ h)

-- strlen of a string of `n` bytes is `n`, while its scan has that many rounds.
pub strlen-Str : (s n : ℕ) (m : Bytes) → n < 0xffffffff → Str s n m → strlen s m ≡ n
unfolding strlen
strlen-Str s n m lt str =
    rw (repne_scasb-FirstByte n 0xffffffff 0 s false m lt (Str-FirstByte s n m str)) (omega arith)

pub end_of-Str : (s n : ℕ) (m : Bytes) → n < 0xffffffff → Str s n m → end_of s m ≡ s + n
end_of-Str s n m lt str =
    rw (repne_scasb-FirstByte n 0xffffffff 0 s false m lt (Str-FirstByte s n m str)) (omega arith)
