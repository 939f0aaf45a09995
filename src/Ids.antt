-- ===== src/Ids.antt =====
-- The calls of kernel/sys.c on user, group, session and process-group numbers, and sys_umask.
-- User and group numbers are unsigned shorts.
pub mod Rights
use linux_0_1_1_comment.Prelude.{
  ◌==◌, ◌=/=◌, if◌then◌else◌, update, ℕ, zero, suc, ◌+◌, ◌%◌, ◌&&◌, ◌||◌, Option, none, some,
}
use linux_0_1_1_comment.Sched.{nr_tasks, Task, Tasks}

-- what a call returns for -EPERM and -ESRCH
abbrev pub eperm : ℕ
eperm = 0xffffffff

abbrev pub esrch : ℕ
esrch = 0xfffffffd

abbrev pub short : ℕ → ℕ
short n = n % 65536

unfoldable pub sys_setgid : ℕ → Task → Task × ℕ
sys_setgid gid t =
    if (t.euid =/= 0) && (t.uid =/= 0)
    then (if (t.gid == gid) || (t.sgid == gid)
        then (record t { egid = short gid }, 0)
        else (t, eperm))
    else (record t { gid = short gid; egid = short gid }, 0)

-- The second test compares the saved number with the task's own, not with the one asked for.
unfoldable pub sys_setuid : ℕ → Task → Task × ℕ
sys_setuid uid t =
    if (t.euid =/= 0) && (t.uid =/= 0)
    then (if (uid == t.uid) || (t.suid == t.uid)
        then (record t { euid = short uid }, 0)
        else (t, eperm))
    else (record t { euid = short uid; uid = short uid }, 0)

unfoldable pub sys_setsid : Task → Task × ℕ
sys_setsid t =
    if (t.uid =/= 0) && (t.euid =/= 0)
    then (t, eperm)
    else (if t.leader =/= 0
        then (t, eperm)
        else (record t { leader = 1; session = t.pid; pgrp = t.pid; tty = 0xffffffff }, t.pid))

-- for (i=0 ; i<NR_TASKS ; i++): the first slot from `i` on whose task has this pid
unfoldable pub find_pid : ℕ → ℕ → ℕ → Tasks → Option ℕ
find_pid zero i pid ts = none
find_pid (suc n) i pid ts =
    let rest = find_pid n (i + 1) pid ts in
    elim (ts i) [ none ↦ rest | some t ↦ if t.pid == pid then some i else rest ]

-- the body of the loop once the task is found
unfoldable pub set_pgrp : ℕ → Task → ℕ → Task → Tasks → Tasks × ℕ
set_pgrp i t pgid current ts =
    if t.leader =/= 0
    then (ts, eperm)
    else (if t.session =/= current.session
        then (ts, eperm)
        else (update ts i (some (record t { pgrp = pgid })), 0))

unfoldable pub set_pgrp_at : Option ℕ → ℕ → Task → Tasks → Tasks × ℕ
set_pgrp_at none pgid current ts = (ts, esrch)
set_pgrp_at (some i) pgid current ts = elim (ts i) [
  | none ↦ (ts, esrch)
  | some t ↦ set_pgrp i t pgid current ts
]

unfoldable pub sys_setpgid : ℕ → ℕ → Task → Tasks → Tasks × ℕ
sys_setpgid pid pgid current ts =
    let pid' = if pid == 0 then current.pid else pid in
    let pgid' = if pgid == 0 then pid' else pgid in
    set_pgrp_at (find_pid nr_tasks 0 pid' ts) pgid' current ts

-- current->umask = mask & 0777, and the old mask
unfoldable pub sys_umask : ℕ → Task → Task × ℕ
sys_umask mask t = (record t { umask = mask % 512 }, t.umask)
