-- ===== src/Sched/Sleep.antt =====
-- sleep_on, interruptible_sleep_on and wake_up of kernel/sched.c. A wait queue is one pointer; the
-- rest of the queue lies in the variable `tmp` of each sleeper. Each routine that calls
-- schedule() is the part before the call and the part after it.
use linux_0_1_1_comment.Prelude.{
  ◌==◌, ◌=/=◌, if◌then◌else◌, update, ℕ, Bool, true, false, Option, none, some,
}
use linux_0_1_1_comment.Sched.{
  task_running, task_interruptible, task_uninterruptible, Tasks, on_task,
}

-- `head` is `*p`, `saved` the `tmp` on the kernel stack of each task.
pub record Waits : Type 0 where
  pub tasks : Tasks
  pub head : Option ℕ
  pub saved : ℕ → Option ℕ

abbrev pub set_state : ℕ → ℕ → Tasks → Tasks
set_state s t ts = on_task (λ u. record u { state = s }) t ts

-- if (tmp) tmp->state=0
abbrev pub set_running : Option ℕ → Tasks → Tasks
set_running none ts = ts
set_running (some t) ts = set_state task_running t ts

-- sleep_on up to schedule(); `none` is the panic of task 0
unfoldable pub sleep_begin : ℕ → ℕ → Waits → Option Waits
sleep_begin state cur w =
    if cur == 0
    then none
    else some (record {
      tasks = set_state state cur w.tasks;
      head = some cur;
      saved = update w.saved cur w.head;
    })

unfoldable pub sleep_on_begin : ℕ → Waits → Option Waits
unfolding sleep_begin
sleep_on_begin = sleep_begin task_uninterruptible

unfoldable pub interruptible_sleep_on_begin : ℕ → Waits → Option Waits
unfolding sleep_begin
interruptible_sleep_on_begin = sleep_begin task_interruptible

-- the rest of sleep_on
unfoldable pub sleep_on_end : ℕ → Waits → Waits
sleep_on_end cur w = record w { tasks = set_running (w.saved cur) w.tasks }

-- The rest of interruptible_sleep_on: `true` means that it goes to sleep again.
unfoldable pub interruptible_sleep_on_end : ℕ → Waits → Bool × Waits
interruptible_sleep_on_end cur w = elim w.head [
  | none ↦ (false, record w { head = none; tasks = set_running (w.saved cur) w.tasks })
  | some h ↦
      if h =/= cur
      then (
        true,
        record w { tasks = set_state task_interruptible cur (set_state task_running h w.tasks) },
      )
      else (false, record w { head = none; tasks = set_running (w.saved cur) w.tasks })
]

unfoldable pub wake_up : Waits → Waits
wake_up w = record w { tasks = set_running w.head w.tasks; head = none }
