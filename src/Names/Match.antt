-- ===== src/Names/Match.antt =====
-- match of fs/namei.c: the name of an entry is 14 bytes, filled up with NUL.
-- the number of the inode of the entry at byte `o`
use linux_0_1_1_comment.Prelude.{
  ltb, ◌==◌, ◌=/=◌, ==_refl, ne→==, ℕ, zero, suc, ◌+◌, ◌≤◌, ◌<◌, ◌≡◌, refl, sym, ap, ◌∙◌, ◌≢◌, ◌↔◌,
  Bool, true, false, ◌&&◌, arith,
}
use linux_0_1_1_comment.Inode.{word_at}
use linux_0_1_1_comment.Names.{same_bytes, match}

abbrev pub inode_at : (ℕ → ℕ) → ℕ → ℕ
inode_at d o = word_at (λ j. d (o + j)) 0

-- The entry at byte `o` is in use and has the name of `len` bytes.
pub record HasName (len : ℕ) (name d : ℕ → ℕ) (o : ℕ) : Type 0 where
  pub in_use : inode_at d o ≢ 0
  pub fits : len ≤ 14
  pub same : (j : ℕ) → j < len → name j ≡ d (o + 2 + j)
  pub ends : len < 14 → d (o + 2 + len) ≡ 0

same_bytes-same :
    (n : ℕ) (zf : Bool) (name d : ℕ → ℕ) (p q : ℕ)
    → same_bytes n zf name d p q ≡ true
    → (j : ℕ) → j < n
    → name (p + j) ≡ d (q + j)
unfolding same_bytes
same_bytes-same zero zf name d p q e j lt = absurd (omega arith)
same_bytes-same (suc n) zf name d p q e zero lt =
    let pz : p + 0 ≡ p = omega arith in
    let qz : q + 0 ≡ q = omega arith in rw (pz, qz) (ground (arith, e))
same_bytes-same (suc n) zf name d p q e (suc j) lt =
    let ps : p + suc j ≡ p + 1 + j = omega arith in
    let qs : q + suc j ≡ q + 1 + j = omega arith in
    let rest : same_bytes n true name d (p + 1) (q + 1) ≡ true = ground (arith, e) in
    rw (ps, qs) (same_bytes-same n true name d (p + 1) (q + 1) rest j (omega arith))

same-same_bytes :
    (n : ℕ) (zf : Bool) (name d : ℕ → ℕ) (p q : ℕ)
    → (n ≡ 0 → zf ≡ true)
    → ((j : ℕ) → j < n → name (p + j) ≡ d (q + j))
    → same_bytes n zf name d p q ≡ true
unfolding same_bytes
same-same_bytes zero zf name d p q z f = z refl
same-same_bytes (suc n) zf name d p q z f =
    let pz : p + 0 ≡ p = omega arith in
    let qz : q + 0 ≡ q = omega arith in
    let first : name p ≡ d q = sym (ap name pz) ∙ f 0 (omega arith) ∙ ap d qz in
    rw (first, ==_refl (d q))
      (same-same_bytes n true name d (p + 1) (q + 1) (λ e. refl)
        (λ j lt.
          let ps : p + suc j ≡ p + 1 + j = omega arith in
          let qs : q + suc j ≡ q + 1 + j = omega arith in
          sym (ap name ps) ∙ f (suc j) (omega arith) ∙ ap d qs))

-- For a name that is not empty, match tells whether the entry has it.
pub match-HasName :
    (zf : Bool) (len : ℕ) (name d : ℕ → ℕ) (o : ℕ)
    → 1 ≤ len
    → (match zf len name d o ≡ true) ↔ HasName len name d o
unfolding match
match-HasName zf len name d o some_name = (
  λ e.
      let used : (inode_at d o == 0) ≡ false = ground (arith, e) in
      let short : ltb 14 len ≡ false = ground (arith, e) in
      let stop : (ltb len 14 && (d (o + 2 + len) =/= 0)) ≡ false = ground (arith, e) in
      let loop : same_bytes len zf name d 0 (o + 2) ≡ true = ground (arith, e) in
      record {
        in_use = λ z. absurd (ground (arith, used, z));
        fits = ground (arith, short);
        same = λ j lt. ap name (omega arith) ∙ same_bytes-same len zf name d 0 (o + 2) loop j lt;
        ends = λ lt. ground (arith, stop);
      },
  λ h.
      let used : (inode_at d o == 0) ≡ false = ne→== (inode_at d o) 0 h.in_use in
      let short : ltb 14 len ≡ false = (let f = h.fits in ground arith) in
      let stop : (ltb len 14 && (d (o + 2 + len) =/= 0)) ≡ false =
        (let f = h.ends in ground (arith, f)) in
      rw (used, short, stop)
        (same-same_bytes len zf name d 0 (o + 2) (λ z. absurd (omega arith))
          (λ j lt. ap name (omega arith) ∙ h.same j lt)),
)
