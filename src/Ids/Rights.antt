-- ===== src/Ids/Rights.antt =====
-- sys_setgid, sys_setuid and sys_setsid of kernel/sys.c: who may become whom.
use linux_0_1_1_comment.Prelude.{
  ◌=/=◌, Bool-cases, ne→=/=, ≡→=/=, ℕ, ◌<◌, ◌≡◌, refl, ◌≢◌, ◌⊎◌, inl, inr, false, ◌&&◌, arith,
  ℕ_discrete,
}
use linux_0_1_1_comment.Ids.{eperm, sys_setgid, sys_setuid, sys_setsid}
use linux_0_1_1_comment.Sched.{Task}

abbrev pub IsRoot : Task → Type 0
IsRoot t = (t.euid ≡ 0) ⊎ (t.uid ≡ 0)

-- A task that is neither superuser by user nor by effective user comes out of setgid with the
-- effective group that it had, its real one or its saved one, and with the same group, user and
-- effective user.
pub sys_setgid-safe :
    (gid : ℕ) (t : Task)
    → t.euid ≢ 0
    → t.uid ≢ 0
    → gid < 65536
    → (let u = (sys_setgid gid t).0 in
        ((u.egid ≡ t.egid) ⊎ ((u.egid ≡ t.gid) ⊎ (u.egid ≡ t.sgid)))
        × (u.gid ≡ t.gid)
        × (u.uid ≡ t.uid)
        × (u.euid ≡ t.euid))
unfolding sys_setgid
sys_setgid-safe gid t e u l = (ground arith, ground arith, ground arith, ground arith)

-- A task that is not superuser, and whose saved user is its own user, gets by setuid any effective
-- user that it asks for; by way of user 0 it becomes that user for good.
pub sys_setuid_escalates :
    (uid : ℕ) (t : Task)
    → t.euid ≢ 0
    → t.uid ≢ 0
    → t.suid ≡ t.uid
    → uid < 65536
    → ((sys_setuid uid t).1 ≡ 0)
      × ((sys_setuid uid t).0.euid ≡ uid)
      × (let u = (sys_setuid uid (sys_setuid 0 t).0).0 in (u.uid ≡ uid) × (u.euid ≡ uid))
unfolding sys_setuid
sys_setuid_escalates uid t e u same l = ground arith

not_user-IsRoot : (t : Task) → ((t.uid =/= 0) && (t.euid =/= 0)) ≡ false → IsRoot t
not_user-IsRoot t may = elim (ℕ_discrete t.euid 0) [
  | yes root ↦ inl root
  | no user ↦ inr (ground arith)
]

-- What setsid does: a refusal that changes nothing, or a session and a group of the task's own,
-- after which a second call is refused.
pub data SetsSession (t : Task) : Task × ℕ → Type 0 where
  refused : ((t.euid ≢ 0) × (t.uid ≢ 0)) ⊎ (t.leader ≢ 0) → SetsSession t (t, eperm)
  led :
      {u : Task}
      → IsRoot t
      → t.leader ≡ 0
      → u.session ≡ t.pid
      → u.pgrp ≡ t.pid
      → sys_setsid u ≡ (u, eperm)
      → SetsSession t (u, t.pid)

-- setsid refuses an ordinary user and a leader, and then changes nothing; else it returns the
-- task's number, session and group become the task's own, and a second call is refused.
pub sys_setsid-SetsSession : (t : Task) → SetsSession t (sys_setsid t)
unfolding sys_setsid
sys_setsid-SetsSession t = elim (Bool-cases ((t.uid =/= 0) && (t.euid =/= 0))) [
  | inl user ↦ rw user (refused (inl (ground arith, ground arith)))
  | inr may ↦ rw may (elim (ℕ_discrete t.leader 0) [
    | no leads ↦ rw (ne→=/= t.leader 0 leads) (refused (inr leads))
    | yes none_led ↦
        rw (≡→=/= t.leader 0 none_led) (led (not_user-IsRoot t may) none_led refl refl (rw may))
  ])
]
