-- ===== src/Sched/Choose.antt =====
-- The loop of schedule (kernel/sched.c) and the task that it chooses.
use linux_0_1_1_comment.Prelude.{
  leb, ◌==◌, ◌=/=◌, if◌then◌else◌, ==_refl, Option-cases, ne→==, ne→=/=, ≡→=/=, ℕ, zero, suc, ◌+◌,
  ◌/◌, ◌^◌, ◌<◌, ◌≡◌, refl, sym, ◌∙◌, ◌≢◌, inl, inr, Bool, true, false, ◌&&◌, Option, none, some,
  arith, ℕ_discrete,
}
use linux_0_1_1_comment.Sched.{
  nr_tasks, Task, Tasks, ring_alarm, wake_signalled, on_task, for_tasks, check_signals, Best,
  pick_all, refill, recharge, choose, schedule,
}
use linux_0_1_1_comment.Sched.Pick.{
  ticks, SaneTask, SaneSlot, Sane, Found, nobody, somebody, none≢some, Sane-small, pick_all-Found,
}

unfoldable pub map_slot : (Task → Task) → Option Task → Option Task
map_slot f none = none
map_slot f (some t) = some (f t)

pub on_task-at :
    (f : Task → Task) (n : ℕ) (ts : Tasks) (j : ℕ)
    → on_task f n ts j ≡ (if j == n then map_slot f (ts j) else ts j)
unfolding on_task map_slot
on_task-at f n ts j = elim (Option-cases (ts n)) [
  | inl e ↦
      rw (e, on_task)
        (elim (ℕ_discrete j n) [ yes p ↦ rw (p, ==_refl n, e, map_slot) | no d ↦ rw (ne→== j n d) ])
  | inr (t, e) ↦
      rw (e, on_task)
        (elim (ℕ_discrete j n) [ yes p ↦ rw (p, ==_refl n, e, map_slot) | no d ↦ rw (ne→== j n d) ])
]

-- Every task but the one in slot 0 is changed, once.
pub for_tasks-at :
    (f : Task → Task) (n : ℕ) (ts : Tasks) (j : ℕ)
    → for_tasks f n ts j ≡ (if (j =/= 0) && leb j n then map_slot f (ts j) else ts j)
unfolding for_tasks
for_tasks-at f zero ts j = ground arith
for_tasks-at f (suc n) ts j =
    ground (arith, for_tasks-at f n (on_task f (suc n) ts) j, on_task-at f (suc n) ts j)

-- For the tasks behind task 0 the test of `for_tasks-at` holds.
in_range : (j : ℕ) → 0 < j → j < nr_tasks → ((j =/= 0) && leb j 63) ≡ true
in_range j lo hi = ground arith

for_all-at :
    (f : Task → Task) (ts : Tasks) (j : ℕ)
    → 0 < j
    → j < nr_tasks
    → for_tasks f 63 ts j ≡ map_slot f (ts j)
for_all-at f ts j lo hi = for_tasks-at f 63 ts j ∙ rw (in_range j lo hi)

refill-ticks :
    (o : Option Task)
    → SaneSlot o
    → (x : ℕ) → ticks o ≡ some x
    → (y : ℕ) × (ticks (map_slot refill o) ≡ some y) × (0 < y) × (y < 2 ^ 31)
unfolding map_slot refill
refill-ticks none s x e = absurd (none≢some e)
refill-ticks (some t) s x e = (
  t.counter / 2 + t.priority,
  ground (arith, s.counter_small, s.priority_small),
  ground (arith, s.priority_pos),
  ground (arith, s.counter_small, s.priority_small),
)

refilled :
    (o : Option Task)
    → SaneSlot o
    → (b : Bool) (x : ℕ) → ticks (if b then map_slot refill o else o) ≡ some x
    → x < 2 ^ 31
unfolding map_slot refill
refilled none s true x e = absurd (none≢some e)
refilled none s false x e = absurd (none≢some e)
refilled (some t) s true x e = ground (arith, s.counter_small, s.priority_small)
refilled (some t) s false x e = ground (arith, s.counter_small, s.priority_small)

-- Recharging gives every task that can run at least one tick.
pub recharge-ticks :
    (ts : Tasks)
    → Sane ts
    → (j : ℕ) → 0 < j
    → j < nr_tasks
    → (x : ℕ) → ticks (ts j) ≡ some x
    → (y : ℕ) × (ticks (recharge ts j) ≡ some y) × (0 < y) × (y < 2 ^ 31)
unfolding recharge
recharge-ticks ts sane j lo hi x e =
    rw (for_all-at refill ts j lo hi) (refill-ticks (ts j) (sane j) x e)

recharge-small : (ts : Tasks) → Sane ts → (j x : ℕ) → ticks (recharge ts j) ≡ some x → x < 2 ^ 31
unfolding recharge
recharge-small ts sane j x =
    rw (for_tasks-at refill 63 ts j) (refilled (ts j) (sane j) ((j =/= 0) && leb j 63) x)

-- What one call of `schedule` may leave: the tasks after the check of signals and at most one
-- recharge, made when nobody who can run has ticks, and as `current` the runnable task with most
-- ticks (all of them positive), or task 0 if none can run.
pub data Chosen (ts : Tasks) : ℕ × Tasks → Type 0 where
  chose_at_once :
      {next : ℕ} (c : ℕ) → c ≢ 0 → Found ts 0 (record { c = c; next = next }) → Chosen ts (next, ts)
  chose_recharged :
      {next : ℕ} (c : ℕ)
      → c ≢ 0
      → ((j x : ℕ) → 0 < j → j < nr_tasks → ticks (ts j) ≡ some x → x ≡ 0)
      → Found (recharge ts) 0 (record { c = c; next = next })
      → Chosen ts (next, recharge ts)

module _ (ts : Tasks) (sane : Sane ts) where
  no_ticks :
      (b : Best)
      → b.c ≡ 0
      → Found ts 0 b
      → ((j x : ℕ) → 0 < j → j < nr_tasks → ticks (ts j) ≡ some x → x ≡ 0)
  no_ticks b z (nobody ec en h) j x lo hi e = absurd (none≢some (sym (h j lo hi) ∙ e))
  no_ticks b z (somebody l h run top) j x lo hi e = let t = (top j lo hi x e).0 in omega arith

  -- after the recharge the scan finds ticks
  recharged_ticks : (b d : Best) → b.c ≡ 0 → Found ts 0 b → Found (recharge ts) 0 d → d.c ≢ 0
  recharged_ticks b d z f (nobody ec en h) = omega arith
  recharged_ticks b d z (nobody ec en h) (somebody l g run top) = absurd (omega arith)
  recharged_ticks b d z (somebody lo hi run top) (somebody l g run' top') =
      let (y, e, pos, _) = recharge-ticks ts sane b.next lo hi b.c run in
      let t = (top' b.next lo hi y e).0 in omega arith

  choose-two :
      (b d : Best)
      → pick_all ts ≡ b
      → pick_all (recharge ts) ≡ d
      → Found ts 0 b
      → Found (recharge ts) 0 d
      → (r : ℕ × Tasks) × (choose 2 ts ≡ some r) × Chosen ts r
  unfolding choose
  choose-two b d eb ed f g = elim (ℕ_discrete b.c 0) [
    | yes z ↦ (
      (d.next, recharge ts),
      rw (eb, ed, ≡→=/= b.c 0 z, ne→=/= d.c 0 (recharged_ticks b d z f g)),
      chose_recharged d.c (recharged_ticks b d z f g) (no_ticks b z f) g,
    )
    | no nz ↦ ((b.next, ts), rw (eb, ne→=/= b.c 0 nz), chose_at_once b.c nz f)
  ]

signalled-Sane :
    (jiffies : ℕ) (t : Task) → SaneTask t → SaneTask (wake_signalled (ring_alarm jiffies t))
unfolding wake_signalled ring_alarm
signalled-Sane jiffies t s = ground (arith, s.counter_small, s.priority_small, s.priority_pos)

slot-Sane :
    (f : Task → Task)
    → ((t : Task) → SaneTask t → SaneTask (f t))
    → (o : Option Task) (b : Bool) → SaneSlot o
    → SaneSlot (if b then map_slot f o else o)
unfolding map_slot
slot-Sane f keep none true s = s
slot-Sane f keep none false s = s
slot-Sane f keep (some t) true s = keep t s
slot-Sane f keep (some t) false s = s

check_signals-Sane : (jiffies : ℕ) (ts : Tasks) → Sane ts → Sane (check_signals jiffies ts)
unfolding check_signals
check_signals-Sane jiffies ts sane j =
    rw (for_tasks-at (λ t. wake_signalled (ring_alarm jiffies t)) 63 ts j)
      (slot-Sane _ (signalled-Sane jiffies) (ts j) ((j =/= 0) && leb j 63) (sane j))

-- Where counters and priorities are below 2^30 and priorities positive, schedule ends after at most
-- one recharge, and the task that it picks is the one that `Chosen` describes, after the alarms and
-- signals were looked at.
pub schedule-Chosen :
    (jiffies : ℕ) (ts : Tasks)
    → Sane ts
    → (r : ℕ × Tasks) × (schedule 2 jiffies ts ≡ some r) × Chosen (check_signals jiffies ts) r
unfolding schedule
schedule-Chosen jiffies ts sane =
    let ck = check_signals jiffies ts in
    let kept = check_signals-Sane jiffies ts sane in
    choose-two ck kept _ _ refl refl (pick_all-Found ck (Sane-small ck kept))
      (pick_all-Found (recharge ck) (recharge-small ck kept))
