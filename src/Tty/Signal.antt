-- ===== src/Tty/Signal.antt =====
-- The interrupt character in copy_to_cooked (kernel/tty_io.c).
use linux_0_1_1_comment.Prelude.{
  ◌==◌, if◌then◌else◌, Bool-cases, if_both, ℕ, ◌^◌, ◌≤◌, ◌<◌, ◌≡◌, refl, ap, ◌∙◌, inl, inr, Bool,
  true, false, not, ◌&&◌, ◌||◌, ◌∷◌, arith,
}
use linux_0_1_1_comment.Sched.{Task, Tasks, on_task, for_tasks}
use linux_0_1_1_comment.Sched.Choose.{map_slot, on_task-at, for_tasks-at}
use linux_0_1_1_comment.Tty.{TtyQueue, is_full, putch, vintr, verase, vstart, vstop, is_cc, Tty}
use linux_0_1_1_comment.Tty.Cooking.{
  signal_group, tty_intr, ends_line, count_end, accept, cook_char,
}
use linux_0_1_1_comment.Tty.Queues.{IsQueue, typed, typed-putch}
use linux_0_1_1_comment.Word.{is_neg}

both_slots :
    (f : Task → Task) (ts : Tasks) (i : ℕ)
    → i ≤ 63
    → for_tasks f 63 (on_task f 0 ts) i ≡ map_slot f (ts i)
both_slots f ts i le = ground (arith, for_tasks-at f 63 (on_task f 0 ts) i, on_task-at f 0 ts i)

if_true {ℓ} : {A : Type ℓ} (b : Bool) (x y : A) → b ≡ true → (if b then x else y) ≡ x
if_true true x y e = refl
if_true false x y e = absurd (cc (e))

if_false {ℓ} : {A : Type ℓ} (b : Bool) (x y : A) → b ≡ false → (if b then x else y) ≡ y
if_false true x y e = absurd (cc (e))
if_false false x y e = refl

and_left : (a b : Bool) → a ≡ false → (a && b) ≡ false
and_left true b e = absurd (cc (e))
and_left false b e = refl

and_both : (a b : Bool) → a ≡ false → b ≡ true → (not a && b) ≡ true
and_both true b e e' = absurd (cc (e))
and_both false b e e' = e'

not_left : (a b : Bool) → a ≡ true → (not a && b) ≡ false
not_left true b e = refl
not_left false b e = absurd (cc (e))

-- Without ICANON only the interrupt character is special.
raw_char :
    (write : TtyQueue → TtyQueue) (c : ℕ) (tty : Tty)
    → tty.termios.icanon ≡ false
    → cook_char write c tty ≡ (
        if not tty.termios.isig && is_cc tty.termios vintr c
        then record tty { tasks = tty_intr tty.pgrp 2 tty.tasks }
        else accept write c tty)
unfolding cook_char
raw_char write c tty raw =
    if_false (tty.termios.icanon && is_cc tty.termios verase c) _ _ (and_left _ _ raw)
    ∙ if_false (tty.termios.icanon && is_cc tty.termios vstop c) _ _ (and_left _ _ raw)
    ∙ if_false (tty.termios.icanon && is_cc tty.termios vstart c) _ _ (and_left _ _ raw)

-- What an ordinary character leaves.
accept-kept :
    (write : TtyQueue → TtyQueue) (c : ℕ) (tty : Tty)
    → IsQueue tty.secondary
    → is_full tty.secondary ≡ false
    → (typed (accept write c tty).secondary ≡ c ∷ typed tty.secondary)
      × ((accept write c tty).tasks ≡ tty.tasks)
unfolding accept
accept-kept write c tty v room =
    if_both {A = Tty} Kept (count_end c tty).termios.echo (λ e. count_end-Kept)
      (λ e. count_end-Kept)
  where
    Kept : Tty → Type 0
    Kept x = (typed (putch c x.secondary) ≡ c ∷ typed tty.secondary) × (x.tasks ≡ tty.tasks)

    put : typed (putch c tty.secondary) ≡ c ∷ typed tty.secondary
    put = (typed-putch tty.secondary c v room).0

    count_end-Kept : Kept (count_end c tty)
    count_end-Kept =
        if_both {A = Tty} Kept (ends_line tty.termios c) (λ e. (put, refl)) (λ e. (put, refl))

-- The two outcomes for an interrupt character.
pub data Interrupts (c : ℕ) (tty r : Tty) : Type 0 where
  as_text :
      tty.termios.isig ≡ true
      → typed r.secondary ≡ c ∷ typed tty.secondary
      → r.tasks ≡ tty.tasks
      → Interrupts c tty r
  to_group :
      tty.termios.isig ≡ false
      → r.secondary ≡ tty.secondary
      → ((i : ℕ) → i ≤ 63 → r.tasks i ≡ map_slot (signal_group tty.pgrp 2) (tty.tasks i))
      → Interrupts c tty r

-- For the interrupt character without ICANON, a positive process group and a secondary queue that
-- is not full: with ISIG set the character goes to the queue and no task changes; with ISIG clear
-- the queue is left, and every task of the group, and no other, gets SIGINT.
pub cook_char-Interrupts :
    (write : TtyQueue → TtyQueue) (c : ℕ) (tty : Tty)
    → tty.termios.icanon ≡ false
    → is_cc tty.termios vintr c ≡ true
    → 0 < tty.pgrp
    → tty.pgrp < 2 ^ 31
    → IsQueue tty.secondary
    → is_full tty.secondary ≡ false
    → Interrupts c tty (cook_char write c tty)
unfolding tty_intr
cook_char-Interrupts write c tty raw intr pos small v room = elim (Bool-cases tty.termios.isig) [
  | inl on ↦
      let e = raw_char write c tty raw ∙ if_false _ _ _ (not_left tty.termios.isig _ on) in
      let (text, same) = accept-kept write c tty v room in
      as_text on (ap (λ x. typed x.secondary) e ∙ text) (ap (λ x. x.tasks) e ∙ same)
  | inr off ↦
      let e = raw_char write c tty raw ∙ if_true _ _ _ (and_both tty.termios.isig _ off intr) in
      let asked : (is_neg tty.pgrp || (tty.pgrp == 0)) ≡ false = ground arith in
      to_group off (ap (λ x. x.secondary) e) (λ i le.
        ap (λ x. x.tasks i) e
        ∙ ap {A = Tasks} (λ ts. ts i) (if_false (is_neg tty.pgrp || (tty.pgrp == 0)) _ _ asked)
        ∙ both_slots (signal_group tty.pgrp 2) tty.tasks i le)
]
