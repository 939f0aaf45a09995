-- ===== src/Tests/Scheduler.antt =====
-- Scheduling: a running task, two sleepers, and one tick.
use linux_0_1_1_comment.Prelude.{
  ne→==, update, ℕ, ◌^◌, ◌<◌, ◌≡◌, refl, none, some, [], ◌∷◌, arith, ℕ_discrete,
}
use linux_0_1_1_comment.Sched.{Task, Tasks, check_signals, schedule}
use linux_0_1_1_comment.Sched.Choose.{Chosen, schedule-Chosen}
use linux_0_1_1_comment.Sched.Pick.{SaneTask, Sane}
use linux_0_1_1_comment.Sched.Sleep.{Waits, wake_up}
use linux_0_1_1_comment.Sched.Wakeup.{Chain, Wakes, wake_up-Wakes}

abbrev pub runner : Task
runner = record {
  state = 0;
  counter = 3;
  priority = 15;
  signal = 0;
  sig_fn = λ k. 0;
  sig_restorer = 0;
  exit_code = 0;
  pid = 5;
  father = 1;
  pgrp = 5;
  session = 5;
  leader = 0;
  uid = 100;
  euid = 100;
  suid = 100;
  gid = 50;
  egid = 50;
  sgid = 60;
  alarm = 0;
  utime = 0;
  stime = 0;
  cutime = 0;
  cstime = 0;
  tty = 0;
  umask = 18;
}

-- the runner in slot 1, and a sleeper in slot 2
abbrev pub two_tasks : Tasks
two_tasks =
    update (update (λ j. none) 1 (some runner)) 2 (some (record runner { state = 2; counter = 1 }))

runner-SaneTask : (c s : ℕ) → c < 2 ^ 30 → SaneTask (record runner { state = s; counter = c })
runner-SaneTask c s lt = record {
  counter_small = lt;
  priority_small = omega arith;
  priority_pos = omega arith;
}

two_tasks-Sane : Sane two_tasks
two_tasks-Sane j = elim (ℕ_discrete j 2) [
  | yes e ↦ rw e (runner-SaneTask 1 2 (omega arith))
  | no ne ↦ rw (ne→== j 2 ne) (elim (ℕ_discrete j 1) [
    | yes e ↦ rw e (runner-SaneTask 3 0 (omega arith))
    | no ne' ↦ rw (ne→== j 1 ne') tt
  ])
]

schedule-Chosen_example :
    (r : ℕ × Tasks) × (schedule 2 10 two_tasks ≡ some r) × Chosen (check_signals 10 two_tasks) r
schedule-Chosen_example = schedule-Chosen 10 two_tasks two_tasks-Sane

-- tasks 1 and 2 asleep on a queue, 2 in front
abbrev queue : Waits
queue = record { tasks = two_tasks; head = some 2; saved = update (λ t. none) 2 (some 1) }

queue-Chain : Chain queue (some 2) (2 ∷ 1 ∷ [])
queue-Chain = (refl, (λ e. cc e), (refl, (λ e. cc e), refl))

wake_up-Wakes_example : Wakes (2 ∷ 1 ∷ []) (wake_up queue) × ((wake_up queue).head ≡ none)
wake_up-Wakes_example = wake_up-Wakes queue (2 ∷ 1 ∷ []) queue-Chain
