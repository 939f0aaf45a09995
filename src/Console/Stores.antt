-- ===== src/Console/Stores.antt =====
-- Where the loops of kernel/console.c store.
-- `a` is below `start`, or not below the `n` bytes from there.
use linux_0_1_1_comment.Prelude.{
  ltb, ◌==◌, ltb→lt, Bool-cases, update, ℕ, zero, suc, ◌+◌, ◌-◌, ◌*◌, ◌≤◌, ◌<◌, ◌≡◌, refl, ◌∙◌, ◌⊎◌,
  inl, inr, false, arith,
}
use linux_0_1_1_comment.Console.{
  columns, blank, stosw, stosl, stosw_down, move_long, movsl, movsl_down,
}
use linux_0_1_1_comment.Console.Edit.{insert_loop, delete_loop}

abbrev pub Away : ℕ → ℕ → ℕ → Type 0
Away a start n = (a < start) ⊎ (start + n ≤ a)

update_away : (m : ℕ → ℕ) (i a v : ℕ) → (a == i) ≡ false → update m i v a ≡ m a
update_away m i a v e = ground (arith, e)

pub stosw-Away : (n edi a : ℕ) (m : ℕ → ℕ) → Away a edi (2 * n) → stosw n edi m a ≡ m a
unfolding stosw
stosw-Away zero edi a m w = refl
stosw-Away (suc n) edi a m w =
    stosw-Away n (edi + 2) a (update m edi blank)
      (elim w [ inl l ↦ inl (omega arith) | inr r ↦ inr (omega arith) ])
    ∙ update_away m edi a blank (ground (arith, w))

pub stosl-Away : (n edi a : ℕ) (m : ℕ → ℕ) → Away a edi (4 * n) → stosl n edi m a ≡ m a
unfolding stosl
stosl-Away zero edi a m w = refl
stosl-Away (suc n) edi a m w =
    stosl-Away n (edi + 4) a _ (elim w [ inl l ↦ inl (omega arith) | inr r ↦ inr (omega arith) ])
    ∙ update_away (update m edi blank) (edi + 2) a blank (ground (arith, w))
    ∙ update_away m edi a blank (ground (arith, w))

move_long_away :
    (edi esi a : ℕ) (m : ℕ → ℕ)
    → (a == edi) ≡ false
    → (a == edi + 2) ≡ false
    → move_long edi esi m a ≡ m a
move_long_away edi esi a m e g =
    update_away (update m edi (m esi)) (edi + 2) a (m (esi + 2)) g ∙ update_away m edi a (m esi) e

pub movsl-Away : (n edi esi a : ℕ) (m : ℕ → ℕ) → Away a edi (4 * n) → movsl n edi esi m a ≡ m a
unfolding movsl
movsl-Away zero edi esi a m w = refl
movsl-Away (suc n) edi esi a m w =
    movsl-Away n (edi + 4) (esi + 4) a _
      (elim w [ inl l ↦ inl (omega arith) | inr r ↦ inr (omega arith) ])
    ∙ move_long_away edi esi a m (ground (arith, w)) (ground (arith, w))

-- downwards, from `edi` on
pub stosw_down_away :
    (n edi a : ℕ) (m : ℕ → ℕ)
    → 2 * n ≤ edi
    → (edi < a) ⊎ (a + 2 * n < edi + 2)
    → stosw_down n edi m a ≡ m a
unfolding stosw_down
stosw_down_away zero edi a m le w = refl
stosw_down_away (suc n) edi a m le w =
    stosw_down_away n (edi - 2) a (update m edi blank) (omega arith)
      (elim w [ inl l ↦ inl (omega arith) | inr r ↦ inr (omega arith) ])
    ∙ update_away m edi a blank (ground (arith, w))

pub movsl_down_away :
    (n edi esi a : ℕ) (m : ℕ → ℕ)
    → 4 * n ≤ edi
    → (edi + 2 < a) ⊎ (a + 4 * n < edi + 4)
    → movsl_down n edi esi m a ≡ m a
unfolding movsl_down
movsl_down_away zero edi esi a m le w = refl
movsl_down_away (suc n) edi esi a m le w =
    movsl_down_away n (edi - 4) (esi - 4) a _ (omega arith)
      (elim w [ inl l ↦ inl (omega arith) | inr r ↦ inr (omega arith) ])
    ∙ move_long_away edi esi a m (ground (arith, w)) (ground (arith, w))

pub insert_loop-Away :
    (n i p old a : ℕ) (m : ℕ → ℕ) → Away a p (2 * (columns - i)) → insert_loop n i p old m a ≡ m a
unfolding insert_loop
insert_loop-Away zero i p old a m w = refl
insert_loop-Away (suc n) i p old a m w = elim (Bool-cases (ltb i columns)) [
  | inr e ↦ rw e refl
  | inl e ↦
      let lt = ltb→lt i columns e in
      rw e (
        insert_loop-Away n (i + 1) (p + 2) (m p) a (update m p old)
          (elim w [ inl l ↦ inl (omega arith) | inr r ↦ inr (omega arith) ])
        ∙ update_away m p a old (ground (arith, w)))
]

pub delete_loop-Away :
    (n i p a : ℕ) (m : ℕ → ℕ)
    → i < columns
    → Away a p (2 * (columns - i))
    → delete_loop n i p m a ≡ m a
unfolding delete_loop
delete_loop-Away zero i p a m lt w = update_away m p a blank (ground (arith, w))
delete_loop-Away (suc n) i p a m lt w = elim (Bool-cases (ltb (i + 1) columns)) [
  | inr e ↦ rw e (update_away m p a blank (ground (arith, w)))
  | inl e ↦
      let less = ltb→lt (i + 1) columns e in
      rw e (
        delete_loop-Away n (i + 1) (p + 2) a (update m p (m (p + 2))) less
          (elim w [ inl l ↦ inl (omega arith) | inr r ↦ inr (omega arith) ])
        ∙ update_away m p a (m (p + 2)) (ground (arith, w)))
]
