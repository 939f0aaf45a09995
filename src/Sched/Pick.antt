-- ===== src/Sched/Pick.antt =====
-- The scan of schedule (kernel/sched.c) over the task table.
use linux_0_1_1_comment.Prelude.{
  ◌==◌, if◌then◌else◌, Bool-cases, Option-cases, ℕ, zero, suc, ◌^◌, ◌≤◌, ◌<◌, ◌≡◌, refl, sym, ◌∙◌,
  inl, inr, true, false, Option, none, some, arith, ℕ_discrete,
}
use linux_0_1_1_comment.Sched.{nr_tasks, task_running, Task, Tasks, Best, better, pick, pick_all}
use linux_0_1_1_comment.Word.{slt}

-- The ticks that a slot has left if its task can run.
abbrev pub ticks : Option Task → Option ℕ
ticks none = none
ticks (some t) = if t.state == task_running then some t.counter else none

-- Counters and priorities are positive as `long`, and small enough for the sum not to overflow.
pub record SaneTask (t : Task) : Type 0 where
  pub counter_small : t.counter < 2 ^ 30
  pub priority_small : t.priority < 2 ^ 30
  pub priority_pos : 0 < t.priority

abbrev pub SaneSlot : Option Task → Type 0
SaneSlot none = Unit {0}
SaneSlot (some t) = SaneTask t

abbrev pub Sane : Tasks → Type 0
Sane ts = (j : ℕ) → SaneSlot (ts j)

-- `j` has at most `c` ticks, and fewer if it stands above `next`.
abbrev pub NoBetter : Tasks → Best → ℕ → Type 0
NoBetter ts b j = (x : ℕ) → ticks (ts j) ≡ some x → (x ≤ b.c) × (b.next < j → x < b.c)

-- The scan of the slots above `n` has found the task with most ticks there, the last of those with
-- as many, or there is none that can run.
pub data Found (ts : Tasks) (n : ℕ) (b : Best) : Type 0 where
  nobody :
      b.c ≡ 0xffffffff
      → b.next ≡ 0
      → ((j : ℕ) → n < j → j < nr_tasks → ticks (ts j) ≡ none)
      → Found ts n b
  somebody :
      n < b.next
      → b.next < nr_tasks
      → ticks (ts b.next) ≡ some b.c
      → ((j : ℕ) → n < j → j < nr_tasks → NoBetter ts b j)
      → Found ts n b

ticks_small : (o : Option Task) (x : ℕ) → SaneSlot o → ticks o ≡ some x → x < 2 ^ 31
ticks_small none x s e = cc
ticks_small (some t) x s e = ground (arith, s.counter_small)

better_ticks : ℕ → Option ℕ → Best → Best
better_ticks i none b = b
better_ticks i (some x) b = if slt b.c x then record { c = x; next = i } else b

better-ticks : (i : ℕ) (o : Option Task) (b : Best) → better i o b ≡ better_ticks i (ticks o) b
unfolding better better_ticks
better-ticks i none b = refl
better-ticks i (some t) b = ground arith

-- The slots above `i` are the next one and those above it.
cover :
    (i : ℕ) (P : ℕ → Type 0)
    → P (suc i)
    → ((j : ℕ) → suc i < j → j < nr_tasks → P j)
    → (j : ℕ) → i < j
    → j < nr_tasks
    → P j
cover i P first above j lo hi = elim (ℕ_discrete j (suc i)) [
  | yes e ↦ rw e first
  | no ne ↦ above j (omega arith) hi
]

pub none≢some : {x : ℕ} → none ≡ some x → ⊥
none≢some e = cc

slt_small : (x : ℕ) → x < 2 ^ 31 → slt 0xffffffff x ≡ true
slt_small x h = ground arith

slt→lt : (x y : ℕ) → x < 2 ^ 31 → y < 2 ^ 31 → slt x y ≡ true → x < y
slt→lt x y h k e = ground arith

slt→ge : (x y : ℕ) → x < 2 ^ 31 → y < 2 ^ 31 → slt x y ≡ false → y ≤ x
slt→ge x y h k e = ground arith

pub some_eq : (x y : ℕ) → some x ≡ some y → x ≡ y
some_eq x y e = ground arith

module _ (ts : Tasks) (i : ℕ) (small : (j x : ℕ) → ticks (ts j) ≡ some x → x < 2 ^ 31)
    (lt : suc i < nr_tasks) (b : Best) where
  skip_slot : ticks (ts (suc i)) ≡ none → Found ts (suc i) b → Found ts i b
  skip_slot e (nobody ec en h) = nobody ec en (cover i (λ j. ticks (ts j) ≡ none) e h)
  skip_slot e (somebody lo hi run top) =
      somebody (omega arith) hi run (cover i (NoBetter ts b) (λ x ex. cc) top)

  module _ (x : ℕ) (e : ticks (ts (suc i)) ≡ some x) where
    this_slot : (y : ℕ) → ticks (ts (suc i)) ≡ some y → y ≡ x
    this_slot y ey = some_eq y x (sym ey ∙ e)

    take_slot :
        ((j : ℕ) → suc i < j → j < nr_tasks → NoBetter ts (record { c = x; next = suc i }) j)
        → Found ts i (record { c = x; next = suc i })
    take_slot above = somebody (omega arith) lt e (
        cover i (NoBetter ts (record { c = x; next = suc i }))
          (λ y ey. (omega (arith, this_slot y ey), λ l. absurd (omega arith))) above)

    c_small : ticks (ts b.next) ≡ some b.c → b.c < 2 ^ 31
    c_small run = small b.next b.c run

    above_slot :
        {j : ℕ}
        → slt b.c x ≡ true
        → ticks (ts b.next) ≡ some b.c
        → (y : ℕ) → (y ≤ b.c) × (b.next < j → y < b.c)
        → (y ≤ x) × (suc i < j → y < x)
    above_slot more run y h =
        let less = slt→lt b.c x (c_small run) (small (suc i) x e) more in
        (omega arith, λ l. omega arith)

    compare_slot : Found ts (suc i) b → Found ts i (better_ticks (suc i) (some x) b)
    unfolding better_ticks
    compare_slot (nobody ec en h) =
        rw (ec, slt_small x (small (suc i) x e))
          (take_slot (λ j lo hi y ey. absurd (none≢some (sym (h j lo hi) ∙ ey))))
    compare_slot (somebody lo hi run top) = elim (Bool-cases (slt b.c x)) [
      | inl more ↦ rw more (take_slot (λ j l h y ey. above_slot more run y (top j l h y ey)))
      | inr less ↦ rw less (
          somebody (omega arith) hi run (
            cover i (NoBetter ts b)
              (λ y ey. (
                omega (arith, this_slot y ey, slt→ge b.c x (c_small run) (small (suc i) x e) less),
                λ l. absurd (omega arith),
              ))
              top))
    ]

pub Sane-small : (ts : Tasks) → Sane ts → (j x : ℕ) → ticks (ts j) ≡ some x → x < 2 ^ 31
Sane-small ts sane j x e = ticks_small (ts j) x (sane j) e

module _ (ts : Tasks) (small : (j x : ℕ) → ticks (ts j) ≡ some x → x < 2 ^ 31) where
  better-Found :
      (i : ℕ)
      → suc i < nr_tasks
      → (b : Best) → Found ts (suc i) b
      → Found ts i (better (suc i) (ts (suc i)) b)
  unfolding better_ticks
  better-Found i lt b f =
      rw (better-ticks (suc i) (ts (suc i)) b) (elim (Option-cases (ticks (ts (suc i)))) [
        | inl e ↦ rw (e, better_ticks) (skip_slot ts i small lt b e f)
        | inr (x, e) ↦ rw e (compare_slot ts i small lt b x e f)
      ])

  pick-Found : (i : ℕ) → i < nr_tasks → (b : Best) → Found ts i b → Found ts 0 (pick i ts b)
  unfolding pick
  pick-Found zero lt b f = f
  pick-Found (suc i) lt b f = pick-Found i (omega arith) _ (better-Found i lt b f)

  -- Where counters are not negative, the scan of schedule finds the runnable task with most ticks,
  -- the one in the greatest slot among equals, or that none can run.
  pub pick_all-Found : Found ts 0 (pick_all ts)
  unfolding pick_all
  pick_all-Found =
      pick-Found 63 (omega arith) _ (nobody refl refl (λ j lo hi. absurd (omega arith)))
