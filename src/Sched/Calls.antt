-- ===== src/Sched/Calls.antt =====
-- do_timer and the system calls of kernel/sched.c that work on the current task.
use linux_0_1_1_comment.Prelude.{
  ◌==◌, ◌=/=◌, if◌then◌else◌, update, ℕ, zero, suc, ◌-◌, Bool, false, ◌||◌,
}
use linux_0_1_1_comment.Sched.{hz, Task}
use linux_0_1_1_comment.Word.{add, sub, mul, slt}

-- do_timer: the task afterwards, and whether schedule() is called. `cpl` is the privilege level
-- that the tick interrupted, 0 for the kernel.
unfoldable pub count_time : ℕ → Task → Task
unfolding add
count_time cpl t =
    if cpl =/= 0 then record t { utime = add t.utime 1 } else record t { stime = add t.stime 1 }

unfoldable pub do_timer : ℕ → Task → Task × Bool
unfolding count_time sub
do_timer cpl t =
    let u = count_time cpl t in
    let left = sub u.counter 1 in
    if slt 0 left
    then (record u { counter = left }, false)
    else (record u { counter = 0 }, cpl =/= 0)

-- The new task and the value returned.
unfoldable pub sys_alarm : ℕ → ℕ → Task → Task × ℕ
unfolding add mul
sys_alarm jiffies seconds t =
    (record t { alarm = if slt 0 seconds then add jiffies (mul hz seconds) else 0 }, seconds)

unfoldable pub sys_nice : ℕ → Task → Task
unfolding sub
sys_nice increment t =
    if slt 0 (sub t.priority increment) then record t { priority = sub t.priority increment } else t

-- the cases of the switch: SIGHUP, SIGINT, SIGQUIT, SIGILL, SIGTRAP, SIGABRT, SIGFPE, SIGUSR1,
-- SIGSEGV, SIGUSR2, SIGPIPE, SIGALRM, SIGCHLD
abbrev pub is_catchable : ℕ → Bool
is_catchable s =
    (s == 1)
    || (s == 2)
    || (s == 3)
    || (s == 4)
    || (s == 5)
    || (s == 6)
    || (s == 8)
    || (s == 10)
    || (s == 11)
    || (s == 12)
    || (s == 13)
    || (s == 14)
    || (s == 17)

unfoldable pub sys_signal : ℕ → ℕ → ℕ → Task → Task × ℕ
sys_signal signal addr restorer t =
    if is_catchable signal
    then (
      record t { sig_fn = update t.sig_fn (signal - 1) addr; sig_restorer = restorer },
      t.sig_fn (signal - 1),
    )
    else (t, 0xffffffff)

-- `n` ticks in user mode, and whether one of them called schedule()
unfoldable pub user_ticks : ℕ → Task → Task × Bool
user_ticks zero t = (t, false)
user_ticks (suc n) t = let r = do_timer 3 t in let s = user_ticks n r.0 in (s.0, r.1 || s.1)
