-- ===== src/Sched/Slice.antt =====
-- do_timer, sys_nice and sys_signal of kernel/sched.c.
use linux_0_1_1_comment.Prelude.{
  leb, update_self, ℕ, zero, suc, ◌+◌, ◌-◌, ◌^◌, ◌≤◌, ◌<◌, ◌≡◌, refl, ◌≢◌, ◌↔◌, true, arith,
}
use linux_0_1_1_comment.Sched.{Task}
use linux_0_1_1_comment.Sched.Calls.{do_timer, sys_nice, is_catchable, sys_signal, user_ticks}
use linux_0_1_1_comment.Word.{add, neg}

-- From a counter that is not negative, one tick takes one unit from it but never leaves it
-- negative, costs one unit of time on either account, keeps the priority, and asks for the
-- scheduler exactly when the slice is over and the kernel was not interrupted.
pub do_timer_lem :
    (cpl : ℕ) (t : Task)
    → t.counter < 2 ^ 31
    → ((do_timer cpl t).0.counter ≡ t.counter - 1)
      × (((do_timer cpl t).1 ≡ true) ↔ ((t.counter ≤ 1) × (cpl ≢ 0)))
      × (add (do_timer cpl t).0.utime (do_timer cpl t).0.stime ≡ add (add t.utime t.stime) 1)
      × ((do_timer cpl t).0.priority ≡ t.priority)
unfolding do_timer add
do_timer_lem cpl t small =
    (ground arith, (λ h. ground arith, λ h. ground arith), ground arith, ground arith)

user_tick :
    (t : Task)
    → t.counter < 2 ^ 31
    → ((do_timer 3 t).1 ≡ leb t.counter 1) × ((do_timer 3 t).0.counter ≡ t.counter - 1)
unfolding do_timer
user_tick t small = ground arith

-- From a positive counter, up to as many ticks in user mode as it has, the scheduler is called by
-- the last of them and not before, and each tick takes one from the counter.
pub user_ticks_slice :
    (n : ℕ) (t : Task)
    → t.counter < 2 ^ 31
    → 0 < t.counter
    → n ≤ t.counter
    → ((user_ticks n t).1 ≡ leb t.counter n) × ((user_ticks n t).0.counter + n ≡ t.counter)
unfolding user_ticks
user_ticks_slice zero t small pos lt = ground arith
user_ticks_slice (suc zero) t small pos lt = ground (arith, user_tick t)
user_ticks_slice (suc (suc n)) t small pos lt =
    ground (arith, user_tick t, user_ticks_slice (suc n) (do_timer 3 t).0)

-- From a positive priority nice never leaves one that is not positive.
pub sys_nice-positive :
    (increment : ℕ) (t : Task)
    → increment < 2 ^ 32
    → 0 < t.priority
    → t.priority < 2 ^ 31
    → (0 < (sys_nice increment t).priority) × ((sys_nice increment t).priority < 2 ^ 31)
unfolding sys_nice
sys_nice-positive increment t bound pos small = ground arith

-- A negative increment `-k` raises a positive priority by `k`, whoever owns the task, while it fits
-- a `long`.
pub sys_nice_raises :
    (k : ℕ) (t : Task)
    → 0 < k
    → 0 < t.priority
    → t.priority + k < 2 ^ 31
    → (sys_nice (neg k) t).priority ≡ t.priority + k
unfolding sys_nice neg
sys_nice_raises k t pos pr small = ground arith

-- For a signal that can be caught, sys_signal installs a handler and returns the one before, and
-- putting that back with the restorer before returns the new handler and leaves every handler and
-- the restorer as they were.
pub sys_signal_round_trip :
    (signal addr restorer : ℕ) (t : Task)
    → is_catchable signal ≡ true
    → (let r = sys_signal signal addr restorer t in
        let s = sys_signal signal r.1 t.sig_restorer r.0 in
        (s.1 ≡ addr) × ((k : ℕ) → s.0.sig_fn k ≡ t.sig_fn k) × (s.0.sig_restorer ≡ t.sig_restorer))
unfolding sys_signal
sys_signal_round_trip signal addr restorer t may =
    rw may (update_self t.sig_fn (signal - 1) addr, (λ k. ground arith), refl)
