-- ===== src/Fork.antt =====
-- kernel/fork.c: the number and the slot of a new process.
pub mod Numbers
pub mod Free
use linux_0_1_1_comment.Prelude.{
  ◌==◌, if◌then◌else◌, ℕ, zero, suc, ◌+◌, Bool, true, false, ◌||◌, Option, none, some,
}
use linux_0_1_1_comment.Sched.{nr_tasks, Task, Tasks}
use linux_0_1_1_comment.Word.{add, is_neg}

-- if ((++last_pid)<0) last_pid=1;
abbrev pub next_pid : ℕ → ℕ
next_pid last_pid = let pid = add last_pid 1 in if is_neg pid then 1 else pid

abbrev pub task_has : ℕ → Option Task → Bool
task_has pid none = false
task_has pid (some t) = t.pid == pid

-- for(i=0 ; i<NR_TASKS ; i++) from `i` on: does a task have this pid?
unfoldable pub pid_taken : ℕ → ℕ → ℕ → Tasks → Bool
pid_taken zero i pid ts = false
pid_taken (suc n) i pid ts = task_has pid (ts i) || pid_taken n (i + 1) pid ts

-- from `repeat`, with `fuel` rounds: last_pid
unfoldable pub free_pid : ℕ → ℕ → Tasks → Option ℕ
free_pid zero last_pid ts = none
free_pid (suc fuel) last_pid ts =
    let pid = next_pid last_pid in
    let rest = free_pid fuel pid ts in if pid_taken nr_tasks 0 pid ts then rest else some pid

abbrev pub slot_is_empty : Option Task → Bool
slot_is_empty none = true
slot_is_empty (some t) = false

-- -EAGAIN
abbrev pub eagain : ℕ
eagain = 0xfffffff5

-- the first empty slot of the `n` slots from `i` on
unfoldable pub empty_slot : ℕ → ℕ → Tasks → ℕ
empty_slot zero i ts = eagain
empty_slot (suc n) i ts =
    let rest = empty_slot n (i + 1) ts in if slot_is_empty (ts i) then i else rest

abbrev pub with_slot : Tasks → Option ℕ → Option (ℕ × ℕ)
with_slot ts none = none
with_slot ts (some pid) = some (pid, empty_slot 63 1 ts)

-- last_pid and the result; there are fewer tasks than rounds
unfoldable pub find_empty_process : ℕ → Tasks → Option (ℕ × ℕ)
find_empty_process last_pid ts = with_slot ts (free_pid 65 last_pid ts)
