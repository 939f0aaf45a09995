-- ===== src/Strings/Finds.antt =====
-- Where strchr, strspn, strcspn and strpbrk of include/string.h stop.
use linux_0_1_1_comment.Prelude.{
  ==_refl, ne→==, subst, ℕ, zero, suc, ◌+◌, ◌≤◌, ◌<◌, ◌≡◌, refl, sym, ap, ◌∙◌, ◌≢◌, ◌⊎◌, inl, inr,
  true, false, Option, some, arith, ℕ_discrete,
}
use linux_0_1_1_comment.Strings.{Bytes, repne_scasb}
use linux_0_1_1_comment.Strings.Lengths.{
  Str, at_start, at_next, Str-tail, Str-empty, Str-head, strlen-Str,
}
use linux_0_1_1_comment.Strings.Orders.{from_start}
use linux_0_1_1_comment.Strings.Searching.{in_set, skip_set, find_set, minus_start, strspn, strcspn}

-- A byte that is, or is not, one of the `len` bytes at `ct`.
abbrev pub In : ℕ → ℕ → Bytes → ℕ → Type 0
In ct len m al = (j : ℕ) × (j < len) × (m (ct + j) ≡ al)

abbrev pub Out : ℕ → ℕ → Bytes → ℕ → Type 0
Out ct len m al = (j : ℕ) → j < len → m (ct + j) ≢ al

-- The first `i` of `n` bytes pass, and what follows is the end or a byte that stops.
pub record Stops (Pass Stop : ℕ → Type 0) (s n i : ℕ) (m : Bytes) : Type 0 where
  pub bounded : i ≤ n
  pub passed : (k : ℕ) → k < i → Pass (m (s + k))
  pub stopped : (i ≡ n) ⊎ Stop (m (s + i))

Stops-here : (Pass Stop : ℕ → Type 0) (s n : ℕ) (m : Bytes) → Stop (m s) → Stops Pass Stop s n 0 m
Stops-here Pass Stop s n m h = record {
  bounded = omega arith;
  passed = λ k lt. absurd (omega arith);
  stopped = inr (subst Stop (sym (at_start m s)) h);
}

Stops-step :
    (Pass Stop : ℕ → Type 0) (s n i : ℕ) (m : Bytes)
    → Pass (m s)
    → Stops Pass Stop (s + 1) n i m
    → Stops Pass Stop s (suc n) (suc i) m
Stops-step Pass Stop s n i m h t = record {
  bounded = omega (arith, t.bounded);
  passed =
      from_start (λ k. Pass (m (s + k))) i (subst Pass (sym (at_start m s)) h)
        (λ k lt. subst Pass (sym (at_next m s k)) (t.passed k lt));
  stopped = elim t.stopped [
    | inl e ↦ inl (ap suc e)
    | inr st ↦ inr (subst Stop (sym (at_next m s i)) st)
  ];
}

repne_scasb-zf :
    (len al ct : ℕ) (m : Bytes)
    → (((repne_scasb len al ct false m).zf ≡ true) × In ct len m al)
      ⊎ (((repne_scasb len al ct false m).zf ≡ false) × Out ct len m al)
unfolding repne_scasb
repne_scasb-zf zero al ct m = inr (refl, λ j lt. absurd (omega arith))
repne_scasb-zf (suc len) al ct m = elim (ℕ_discrete (m ct) al) [
  | yes e ↦ inl (rw (e, ==_refl al) refl, (0, omega arith, at_start m ct ∙ e))
  | no ne ↦ rw (ne→== (m ct) al ne) (elim (repne_scasb-zf len al (ct + 1) m) [
    | inl h ↦ inl (h.0, (suc h.1.0, omega (arith, h.1.1), at_next m ct h.1.0 ∙ h.1.2))
    | inr h ↦ inr (
      h.0,
      from_start (λ j. m (ct + j) ≢ al) len (λ z. ne (sym (at_start m ct) ∙ z))
          (λ j lt z. h.1 j lt (sym (at_next m ct j) ∙ z)),
    )
  ])
]

pub in_set-cases :
    (al ct len : ℕ) (m : Bytes)
    → ((in_set al ct len m ≡ true) × In ct len m al)
      ⊎ ((in_set al ct len m ≡ false) × Out ct len m al)
unfolding in_set
in_set-cases al ct len m = repne_scasb-zf len al ct m

-- What a search from `s` gives: the address `s + i`, with `i` as `Stops` says.
abbrev pub FoundAt : (ℕ → Type 0) → (ℕ → Type 0) → ℕ → ℕ → Bytes → Option ℕ → Type 0
FoundAt Pass Stop s n m r = (i : ℕ) × (r ≡ some (s + i)) × Stops Pass Stop s n i m

FoundAt-end : (Pass Stop : ℕ → Type 0) (s : ℕ) (m : Bytes) → FoundAt Pass Stop s 0 m (some s)
FoundAt-end Pass Stop s m = (
  0,
  ap some (omega arith),
  record { bounded = omega arith; passed = λ k lt. absurd (omega arith); stopped = inl refl },
)

FoundAt-here :
    (Pass Stop : ℕ → Type 0) (s n : ℕ) (m : Bytes) → Stop (m s) → FoundAt Pass Stop s n m (some s)
FoundAt-here Pass Stop s n m h = (0, ap some (omega arith), Stops-here Pass Stop s n m h)

FoundAt-step :
    (Pass Stop : ℕ → Type 0) (s n : ℕ) (m : Bytes) (r : Option ℕ)
    → Pass (m s)
    → FoundAt Pass Stop (s + 1) n m r
    → FoundAt Pass Stop s (suc n) m r
FoundAt-step Pass Stop s n m r h (i, e, t) =
    (suc i, e ∙ ap some (omega arith), Stops-step Pass Stop s n i m h t)

find_set-FoundAt :
    (n fuel s ct len : ℕ) (m : Bytes)
    → n < fuel
    → Str s n m
    → FoundAt (Out ct len m) (In ct len m) s n m (find_set fuel s ct len m)
unfolding find_set
find_set-FoundAt n zero s ct len m lt str = absurd (omega arith)
find_set-FoundAt zero (suc fuel) s ct len m lt str =
    rw (Str-empty s m str) (FoundAt-end (Out ct len m) (In ct len m) s m)
find_set-FoundAt (suc n) (suc fuel) s ct len m lt str =
    rw (ne→== (m s) 0 (Str-head s n m str)) (elim (in_set-cases (m s) ct len m) [
      | inl h ↦ rw h.0 (FoundAt-here (Out ct len m) (In ct len m) s (suc n) m h.1)
      | inr h ↦ rw h.0 (
          FoundAt-step (Out ct len m) (In ct len m) s n m _ h.1
            (find_set-FoundAt n fuel (s + 1) ct len m (omega arith) (Str-tail s n m str)))
    ])

skip_set-FoundAt :
    (n fuel s ct len : ℕ) (m : Bytes)
    → n < fuel
    → Str s n m
    → FoundAt (In ct len m) (Out ct len m) s n m (skip_set fuel s ct len m)
unfolding skip_set
skip_set-FoundAt n zero s ct len m lt str = absurd (omega arith)
skip_set-FoundAt zero (suc fuel) s ct len m lt str =
    rw (Str-empty s m str) (FoundAt-end (In ct len m) (Out ct len m) s m)
skip_set-FoundAt (suc n) (suc fuel) s ct len m lt str =
    rw (ne→== (m s) 0 (Str-head s n m str)) (elim (in_set-cases (m s) ct len m) [
      | inr h ↦ rw h.0 (FoundAt-here (In ct len m) (Out ct len m) s (suc n) m h.1)
      | inl h ↦ rw h.0 (
          FoundAt-step (In ct len m) (Out ct len m) s n m _ h.1
            (skip_set-FoundAt n fuel (s + 1) ct len m (omega arith) (Str-tail s n m str)))
    ])

-- For strings at `cs` and `ct`, and more rounds than the first has bytes: strcspn returns the
-- length of the longest start of `cs` without a byte of `ct`, strspn that of the longest start of
-- bytes of `ct`.
pub strcspn-strspn :
    (fuel cs n ct len : ℕ) (m : Bytes)
    → n < fuel
    → len < 0xffffffff
    → Str cs n m
    → Str ct len m
    → ((i : ℕ) × (strcspn fuel cs ct m ≡ some i) × Stops (Out ct len m) (In ct len m) cs n i m)
      × ((i : ℕ) × (strspn fuel cs ct m ≡ some i) × Stops (In ct len m) (Out ct len m) cs n i m)
unfolding strcspn strspn
strcspn-strspn fuel cs n ct len m enough short str set =
    let (i, e, t) = find_set-FoundAt n fuel cs ct len m enough str in
    let (j, f, u) = skip_set-FoundAt n fuel cs ct len m enough str in
    rw (strlen-Str ct len m short set) (
      (i, ap (minus_start cs) e ∙ ap some (omega arith), t),
      (j, ap (minus_start cs) f ∙ ap some (omega arith), u),
    )
