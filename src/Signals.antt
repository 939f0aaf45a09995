-- ===== src/Signals.antt =====
-- kernel/exit.c: send_sig, do_kill, sys_kill, the hand-over of children in do_exit, and the search
-- of sys_waitpid. The task table is that of Sched.antt.
pub mod Kill
pub mod Wait
use linux_0_1_1_comment.Prelude.{
  ◌==◌, ◌=/=◌, if◌then◌else◌, ℕ, zero, suc, ◌-◌, Bool, true, false, not, ◌&&◌, ◌||◌, Option, none,
  some,
}
use linux_0_1_1_comment.Sched.{task_zombie, Task, Tasks, with_bit, on_task, for_tasks}
use linux_0_1_1_comment.Word.{neg, slt}

-- `pid` of the calls is a `long`: -1 is 0xffffffff, and -pid is the 32-bit negation.
abbrev pub minus_one : ℕ
minus_one = 0xffffffff

-- the permission of send_sig, for the sender `current`
abbrev pub may_signal : Task → Task → Bool
may_signal current p =
    (current.uid == p.uid)
    || (current.euid == p.uid)
    || (current.uid == p.euid)
    || (current.euid == p.euid)

unfoldable pub send_sig : ℕ → Bool → Task → Task → Task
send_sig sig priv current p =
    if slt sig 1 || slt 32 sig
    then p
    else (if priv || may_signal current p
        then record p { signal = with_bit p.signal (sig - 1) }
        else p)

-- which tasks the branch of do_kill for `pid` looks for
unfoldable pub is_target : ℕ → Task → Task → Bool
unfolding neg
is_target pid current p =
    if pid == 0
    then p.pgrp == current.pid
    else (if slt 0 pid
        then p.pid == pid
        else (if pid == minus_one then true else p.pgrp == neg pid))

-- while (--p > &FIRST_TASK): slots 63 down to 1
unfoldable pub do_kill : ℕ → ℕ → Bool → Task → Tasks → Tasks
do_kill pid sig priv current =
    for_tasks (λ p. if is_target pid current p then send_sig sig priv current p else p) 63

unfoldable pub sys_kill : ℕ → ℕ → Task → Tasks → Tasks
sys_kill pid sig current =
    do_kill pid sig (not ((current.uid =/= 0) || (current.euid =/= 0))) current

-- do_exit: for (i=0 ; i<NR_TASKS ; i++) a child of the task that ends has father 0
unfoldable pub orphan : ℕ → Task → Task
orphan pid t = if t.father == pid then record t { father = 0 } else t

unfoldable pub orphan_all : ℕ → Tasks → Tasks
orphan_all pid ts = for_tasks (orphan pid) 63 (on_task (orphan pid) 0 ts)

-- The end of do_exit for a task with a father: it becomes a zombie with the code, and its father
-- gets SIGCHLD. `none` stands for a slot that is empty.
unfoldable pub exit_notify : ℕ → ℕ → Task → Tasks → Tasks
exit_notify slot code current ts =
    on_task (λ t. record t { exit_code = code }) slot
      (do_kill current.father 17 true current
        (on_task (λ t. record t { state = task_zombie }) slot ts))

-- the condition of sys_waitpid on a slot, for the caller `current` in slot `self`
unfoldable pub waits_for : ℕ → ℕ → Task → ℕ → Task → Bool
unfolding neg
waits_for pid self current j t =
    (j =/= self)
    && ((pid == minus_one)
        || (t.pid == pid)
        || ((pid == 0) && (t.pgrp == current.pgrp))
        || (slt pid 0 && (t.pgrp == neg pid)))
    && (t.father == current.pid)

-- `flag`, and the slot of the zombie at which the search stops
pub record Scan : Type 0 where
  pub flag : Bool
  pub zombie : Option ℕ

unfoldable pub scan_one : ℕ → ℕ → Task → ℕ → Option Task → Scan → Scan
scan_one pid self current j none rest = rest
scan_one pid self current j (some t) rest =
    if waits_for pid self current j t
    then (if t.state == task_zombie
        then record { flag = true; zombie = some j }
        else record rest { flag = true })
    else rest

-- for(p = &LAST_TASK ; p > &FIRST_TASK ; --p)
unfoldable pub wait_scan : ℕ → ℕ → Task → ℕ → Tasks → Scan
wait_scan pid self current zero ts = record { flag = false; zombie = none }
wait_scan pid self current (suc n) ts =
    scan_one pid self current (suc n) (ts (suc n)) (wait_scan pid self current n ts)
