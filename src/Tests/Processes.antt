-- ===== src/Tests/Processes.antt =====
-- Identities, signals and children.
use linux_0_1_1_comment.Prelude.{◌≡◌, refl, false, arith}
use linux_0_1_1_comment.Ids.{sys_setuid}
use linux_0_1_1_comment.Ids.Rights.{sys_setuid_escalates}
use linux_0_1_1_comment.Signals.{do_kill}
use linux_0_1_1_comment.Signals.Kill.{Delivered, do_kill-Delivered}
use linux_0_1_1_comment.Tests.Scheduler.{runner, two_tasks}

do_kill-Delivered_example :
    Delivered 5 9 false runner 1 (two_tasks 1) (do_kill 5 9 false runner two_tasks 1)
do_kill-Delivered_example =
    do_kill-Delivered 5 9 false runner two_tasks 1 (omega arith) (omega arith)

sys_setuid_escalates_example :
    ((sys_setuid 7 runner).1 ≡ 0)
    × ((sys_setuid 7 runner).0.euid ≡ 7)
    × (let u = (sys_setuid 7 (sys_setuid 0 runner).0).0 in (u.uid ≡ 7) × (u.euid ≡ 7))
sys_setuid_escalates_example =
    sys_setuid_escalates 7 runner (λ e. absurd (omega arith)) (λ e. absurd (omega arith)) refl
      (omega arith)
