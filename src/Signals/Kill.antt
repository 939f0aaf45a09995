-- ===== src/Signals/Kill.antt =====
-- do_kill of kernel/exit.c: whom a signal reaches. A `long` is a word, and 2^32 - n stands for -n.
use linux_0_1_1_comment.Prelude.{
  leb, ◌==◌, ◌=/=◌, if◌then◌else◌, Bool-cases, ne→==, if_both, ℕ, ◌+◌, ◌-◌, ◌/◌, ◌%◌, ◌^◌, ◌≤◌, ◌<◌,
  ◌≡◌, refl, ◌⊎◌, inl, inr, Bool, true, false, ◌&&◌, ◌||◌, Option, none, some, arith, dec_lt,
  ℕ_discrete,
}
use linux_0_1_1_comment.Sched.{Task, Tasks, with_bit}
use linux_0_1_1_comment.Sched.Choose.{map_slot, for_tasks-at}
use linux_0_1_1_comment.Signals.{may_signal, send_sig, is_target, do_kill}
use linux_0_1_1_comment.Word.{neg, slt}

-- The tasks that `pid` names, for the sender `current`.
pub data Named (current p : Task) : ℕ → Type 0 where
  own_group : p.pgrp ≡ current.pid → Named current p 0
  one_task : {pid : ℕ} → 1 ≤ pid → pid < 0x80000000 → p.pid ≡ pid → Named current p pid
  everyone : Named current p 0xffffffff
  group :
      {pid : ℕ}
      → 0x80000000 ≤ pid
      → pid < 0xffffffff
      → p.pgrp + pid ≡ 0x100000000
      → Named current p pid

-- A user that is one of both tasks, by the real or the effective number; or the call is privileged.
abbrev pub Allowed : Bool → Task → Task → Type 0
Allowed priv current p =
    (priv ≡ true)
    ⊎ ((user : ℕ) × ((user ≡ current.uid) ⊎ (user ≡ current.euid))
        × ((user ≡ p.uid) ⊎ (user ≡ p.euid)))

pub record Reached (pid sig : ℕ) (priv : Bool) (current : Task) (j : ℕ) (p : Task) : Type 0 where
  pub not_first : 1 ≤ j
  pub in_table : j ≤ 63
  pub named : Named current p pid
  pub from_one : 1 ≤ sig
  pub to_last : sig ≤ 32
  pub allowed : Allowed priv current p

-- `x` is `w` with bit `k` set.
abbrev pub WithBit : ℕ → ℕ → ℕ → Type 0
WithBit k w x = ((w / 2 ^ k % 2 ≡ 1) × (x ≡ w)) ⊎ ((w / 2 ^ k % 2 ≡ 0) × (x ≡ w + 2 ^ k))

-- Slot `j` before and after.
pub data Delivered (pid sig : ℕ) (priv : Bool) (current : Task) (j : ℕ)
    : Option Task → Option Task → Type 0 where
  nobody : Delivered pid sig priv current j none none
  reached :
      (p : Task) (x : ℕ)
      → Reached pid sig priv current j p
      → WithBit (sig - 1) p.signal x
      → Delivered pid sig priv current j (some p) (some (record p { signal = x }))
  spared :
      (p : Task)
      → (Reached pid sig priv current j p → ⊥)
      → Delivered pid sig priv current j (some p) (some p)

abbrev Tells : Bool → Type 0 → Type 0
Tells b P = ((b ≡ true) × P) ⊎ ((b ≡ false) × (P → ⊥))

Named-zero : (current p : Task) → Named current p 0 → p.pgrp ≡ current.pid
Named-zero current p (own_group e) = e
Named-zero current p (one_task lo hi e) = absurd (omega arith)
Named-zero current p (group lo hi e) = absurd (omega arith)

Named-positive :
    (current p : Task) (pid : ℕ) → 1 ≤ pid → pid < 0x80000000 → Named current p pid → p.pid ≡ pid
Named-positive current p pid a b (own_group e) = absurd (omega arith)
Named-positive current p pid a b (one_task lo hi e) = e
Named-positive current p pid a b everyone = absurd (omega arith)
Named-positive current p pid a b (group lo hi e) = absurd (omega arith)

Named-negative :
    (current p : Task) (pid : ℕ)
    → 0x80000000 ≤ pid
    → pid < 0xffffffff
    → Named current p pid
    → p.pgrp + pid ≡ 0x100000000
Named-negative current p pid a b (own_group e) = absurd (omega arith)
Named-negative current p pid a b (one_task lo hi e) = absurd (omega arith)
Named-negative current p pid a b everyone = absurd (omega arith)
Named-negative current p pid a b (group lo hi e) = e

is_target-Named :
    (pid : ℕ) (current p : Task)
    → pid < 0x100000000
    → Tells (is_target pid current p) (Named current p pid)
unfolding is_target neg
is_target-Named pid current p w = elim (ℕ_discrete pid 0) [
  | yes z ↦ rw z (elim (ℕ_discrete p.pgrp current.pid) [
    | yes e ↦ inl (ground (arith, e), own_group e)
    | no ne ↦ inr (ne→== p.pgrp current.pid ne, λ h. ne (Named-zero current p h))
  ])
  | no nz ↦ elim (dec_lt pid 0x80000000) [
    | yes pos ↦ elim (ℕ_discrete p.pid pid) [
      | yes e ↦ inl (ground (arith, e), one_task (omega arith) pos e)
      | no ne ↦ inr (
        ground (arith, ne→== p.pid pid ne),
        λ h. ne (Named-positive current p pid (omega arith) pos h),
      )
    ]
    | no neg_pid ↦ elim (ℕ_discrete pid 0xffffffff) [
      | yes all ↦ rw all (inl (refl, everyone))
      | no some_group ↦ elim (ℕ_discrete (p.pgrp + pid) 0x100000000) [
        | yes e ↦ inl (ground arith, group (omega arith) (omega arith) e)
        | no ne ↦
            inr (ground arith, λ h. ne (Named-negative current p pid (omega arith) (omega arith) h))
      ]
    ]
  ]
]

-- The four tests of send_sig find a number that is among `a`, `b` and among `c`, `d`.
any_shared :
    (a b c d : ℕ)
    → Tells
        ((a == c) || (b == c) || (a == d) || (b == d))
        ((user : ℕ) × ((user ≡ a) ⊎ (user ≡ b)) × ((user ≡ c) ⊎ (user ≡ d)))
any_shared a b c d = elim (ℕ_discrete a c) [
  | yes e ↦ inl (ground arith, (a, inl refl, inl e))
  | no ac ↦ elim (ℕ_discrete b c) [
    | yes e ↦ inl (ground arith, (b, inr refl, inl e))
    | no bc ↦ elim (ℕ_discrete a d) [
      | yes e ↦ inl (ground arith, (a, inl refl, inr e))
      | no ad ↦ elim (ℕ_discrete b d) [
        | yes e ↦ inl (ground arith, (b, inr refl, inr e))
        | no bd ↦ inr (ground arith, λ (user, x, y). ground arith)
      ]
    ]
  ]
]

may_signal-Allowed :
    (priv : Bool) (current p : Task) → Tells (priv || may_signal current p) (Allowed priv current p)
may_signal-Allowed true current p = inl (refl, inl refl)
may_signal-Allowed false current p = elim (any_shared current.uid current.euid p.uid p.euid) [
  | inl (e, h) ↦ inl (e, inr h)
  | inr (e, no_user) ↦
      inr (e, λ h. elim h [ inl privileged ↦ absurd (ground arith) | inr shared ↦ no_user shared ])
]

with_bit-WithBit : (w k : ℕ) → WithBit k w (with_bit w k)
with_bit-WithBit w k = elim (ℕ_discrete (w / 2 ^ k % 2) 1) [
  | yes e ↦ rw (e) (inl (refl, refl))
  | no ne ↦ rw (ne→== (w / 2 ^ k % 2) 1 ne) (inr (omega arith, refl))
]

send_sig-Delivered :
    (pid sig : ℕ) (priv : Bool) (current p : Task) (j : ℕ)
    → pid < 0x100000000
    → sig < 0x100000000
    → 1 ≤ j
    → j ≤ 63
    → Delivered pid sig priv current j
        (some p)
        (some (if is_target pid current p then send_sig sig priv current p else p))
unfolding send_sig
send_sig-Delivered pid sig priv current p j w w' lo hi = elim (is_target-Named pid current p w) [
  | inr (e, unnamed) ↦ rw e (spared p (λ h. unnamed h.named))
  | inl (e, named) ↦ rw e (elim (Bool-cases (slt sig 1 || slt 32 sig)) [
    | inl bad ↦ rw bad (spared p (λ h. let a = h.from_one in let b = h.to_last in ground arith))
    | inr good ↦ rw good (elim (may_signal-Allowed priv current p) [
      | inr (f, refused) ↦ rw f (spared p (λ h. refused h.allowed))
      | inl (f, allowed) ↦ rw f (
          reached p (with_bit p.signal (sig - 1))
            (record {
              not_first = lo;
              in_table = hi;
              named = named;
              from_one = ground arith;
              to_last = ground arith;
              allowed = allowed;
            })
            (with_bit-WithBit p.signal (sig - 1)))
    ])
  ])
]

slot-Delivered :
    (pid sig : ℕ) (priv : Bool) (current : Task) (j : ℕ) (o : Option Task)
    → pid < 0x100000000
    → sig < 0x100000000
    → Delivered pid sig priv current j o (
        if (j =/= 0) && leb j 63
        then map_slot (λ p. if is_target pid current p then send_sig sig priv current p else p) o
        else o)
unfolding map_slot
slot-Delivered pid sig priv current j none w w' =
    if_both (Delivered pid sig priv current j none) ((j =/= 0) && leb j 63) (λ e. nobody)
      (λ e. nobody)
slot-Delivered pid sig priv current j (some p) w w' =
    if_both (Delivered pid sig priv current j (some p)) ((j =/= 0) && leb j 63)
      (λ e. send_sig-Delivered pid sig priv current p j w w' (ground arith) (ground arith))
      (λ e. spared p (λ h. let a = h.not_first in let b = h.in_table in ground arith))

-- For words `pid` and `sig`, do_kill sets the bit of the signal in exactly those tasks of slots 1
-- to 63 that `pid` names: for 0 those whose group is the caller's process number, for a positive
-- number the process, for -1 everyone, and for another negative one the group of its absolute
-- value; and only a signal from 1 to 32, where the call is privileged or the caller and the task
-- share a user, real or effective. Every other task, and every other field, is as it was.
pub do_kill-Delivered :
    (pid sig : ℕ) (priv : Bool) (current : Task) (ts : Tasks) (j : ℕ)
    → pid < 0x100000000
    → sig < 0x100000000
    → Delivered pid sig priv current j (ts j) (do_kill pid sig priv current ts j)
unfolding do_kill
do_kill-Delivered pid sig priv current ts j w w' =
    rw (for_tasks-at _ 63 ts j) (slot-Delivered pid sig priv current j (ts j) w w')
