-- ===== src/Sched.antt =====
-- kernel/sched.c: the scheduler, the timer tick and the calls that set a task's fields. Tasks are
-- named by their slot in `task[]`; an empty slot is a null pointer. Words are those of Word.antt.
pub mod Pick
pub mod Choose
pub mod Sleep
pub mod Wakeup
pub mod Calls
pub mod Slice
use linux_0_1_1_comment.Prelude.{
  ◌==◌, ◌=/=◌, if◌then◌else◌, update, ℕ, zero, suc, ◌+◌, ◌-◌, ◌/◌, ◌%◌, ◌^◌, Bool, ◌&&◌, Option,
  none, some,
}
use linux_0_1_1_comment.Word.{add, slt, sar1}

abbrev pub nr_tasks : ℕ
nr_tasks = 64

abbrev pub hz : ℕ
hz = 100

-- TASK_RUNNING, TASK_INTERRUPTIBLE, TASK_UNINTERRUPTIBLE, TASK_ZOMBIE
abbrev pub task_running : ℕ
task_running = 0

abbrev pub task_interruptible : ℕ
task_interruptible = 1

abbrev pub task_uninterruptible : ℕ
task_uninterruptible = 2

abbrev pub task_zombie : ℕ
task_zombie = 3

-- The fields of struct task_struct that the modelled code reads or writes.
pub record Task : Type 0 where
  pub state : ℕ
  pub counter : ℕ
  pub priority : ℕ
  pub signal : ℕ
  pub sig_fn : ℕ → ℕ
  pub sig_restorer : ℕ
  pub exit_code : ℕ
  pub pid : ℕ
  pub father : ℕ
  pub pgrp : ℕ
  pub session : ℕ
  pub leader : ℕ
  pub uid : ℕ
  pub euid : ℕ
  pub suid : ℕ
  pub gid : ℕ
  pub egid : ℕ
  pub sgid : ℕ
  pub alarm : ℕ
  pub utime : ℕ
  pub stime : ℕ
  pub cutime : ℕ
  pub cstime : ℕ
  pub tty : ℕ
  pub umask : ℕ

abbrev pub Tasks : Type 0
Tasks = ℕ → Option Task

-- `word |= 1 << k`, `word & (1 << k)` and `word &= ~(1 << k)`
abbrev pub has_bit : ℕ → ℕ → Bool
has_bit word k = word / 2 ^ k % 2 == 1

abbrev pub with_bit : ℕ → ℕ → ℕ
with_bit word k = if has_bit word k then word else word + 2 ^ k

abbrev pub without_bit : ℕ → ℕ → ℕ
without_bit word k = if has_bit word k then word - 2 ^ k else word

-- SIGALRM - 1
abbrev pub alarm_bit : ℕ
alarm_bit = 13

unfoldable pub ring_alarm : ℕ → Task → Task
ring_alarm jiffies t =
    if (t.alarm =/= 0) && slt t.alarm jiffies
    then record t { signal = with_bit t.signal alarm_bit; alarm = 0 }
    else t

unfoldable pub wake_signalled : Task → Task
wake_signalled t =
    if (t.signal =/= 0) && (t.state == task_interruptible)
    then record t { state = task_running }
    else t

-- if (*p) ... for one slot
unfoldable pub on_task : (Task → Task) → ℕ → Tasks → Tasks
on_task f n ts = elim (ts n) [ none ↦ ts | some t ↦ update ts n (some (f t)) ]

-- for(p = &LAST_TASK ; p > &FIRST_TASK ; --p) if (*p) ..., from slot `n` down to slot 1
unfoldable pub for_tasks : (Task → Task) → ℕ → Tasks → Tasks
for_tasks f zero ts = ts
for_tasks f (suc n) ts = for_tasks f n (on_task f (suc n) ts)

unfoldable pub check_signals : ℕ → Tasks → Tasks
check_signals jiffies = for_tasks (λ t. wake_signalled (ring_alarm jiffies t)) 63

-- `c` and `next` of the inner loop
pub record Best : Type 0 where
  pub c : ℕ
  pub next : ℕ

unfoldable pub better : ℕ → Option Task → Best → Best
better i none b = b
better i (some t) b =
    if (t.state == task_running) && slt b.c t.counter then record { c = t.counter; next = i } else b

-- while (--i): slots `i` down to 1
unfoldable pub pick : ℕ → Tasks → Best → Best
unfolding better
pick zero ts b = b
pick (suc i) ts b = pick i ts (better (suc i) (ts (suc i)) b)

-- c = -1; next = 0; i = NR_TASKS
unfoldable pub pick_all : Tasks → Best
unfolding pick
pick_all ts = pick 63 ts (record { c = 0xffffffff; next = 0 })

unfoldable pub refill : Task → Task
unfolding add sar1
refill t = record t { counter = add (sar1 t.counter) t.priority }

unfoldable pub recharge : Tasks → Tasks
recharge = for_tasks refill 63

-- while (1), with the rounds left as first argument; `none` means that they ran out
unfoldable pub choose : ℕ → Tasks → Option (ℕ × Tasks)
choose zero ts = none
choose (suc fuel) ts =
    let b = pick_all ts in
    let rest = choose fuel (recharge ts) in if b.c =/= 0 then some (b.next, ts) else rest

-- The new `current` and the table.
unfoldable pub schedule : ℕ → ℕ → Tasks → Option (ℕ × Tasks)
schedule fuel jiffies ts = choose fuel (check_signals jiffies ts)
