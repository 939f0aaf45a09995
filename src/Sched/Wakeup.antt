-- ===== src/Sched/Wakeup.antt =====
-- Queues of tasks asleep in sleep_on (kernel/sched.c).
use linux_0_1_1_comment.Prelude.{
  ◌==◌, ==_refl, Bool-cases, Option-cases, ne→==, update, update_ne, ℕ, ◌≡◌, refl, ◌≢◌, inl, inr,
  Option, none, some, List, [], ◌∷◌,
}
use linux_0_1_1_comment.Sched.{task_running, Task, Tasks, on_task}
use linux_0_1_1_comment.Sched.Sleep.{
  Waits, set_state, set_running, sleep_begin, sleep_on_end, wake_up,
}

-- From `o` the saved pointers lead through the tasks `xs`, each of them in the task table.
abbrev pub Chain : Waits → Option ℕ → List ℕ → Type 0
Chain w o [] = o ≡ none
Chain w o (t ∷ xs) = (o ≡ some t) × (w.tasks t ≢ none) × Chain w (w.saved t) xs

-- Slot `t` holds a task that can run.
abbrev pub Runs : Tasks → ℕ → Type 0
Runs ts t = (u : Task) × (ts t ≡ some u) × (u.state ≡ task_running)

-- `P` holds of each member.
abbrev pub All : (ℕ → Type 0) → List ℕ → Type 0
All P [] = Unit {0}
All P (t ∷ xs) = P t × All P xs

-- Each task of `xs` can run by the time that those before it have left sleep_on.
abbrev pub Wakes : List ℕ → Waits → Type 0
Wakes [] w = Unit {0}
Wakes (t ∷ xs) w = Runs w.tasks t × Wakes xs (sleep_on_end t w)

on_task_self :
    (f : Task → Task) (t : ℕ) (ts : Tasks) (u : Task)
    → ts t ≡ some u
    → on_task f t ts t ≡ some (f u)
unfolding on_task
on_task_self f t ts u e = rw (e, on_task, ==_refl t)

set_state-Runs : (ts : Tasks) (t : ℕ) → ts t ≢ none → Runs (set_state task_running t ts) t
set_state-Runs ts t h = elim (Option-cases (ts t)) [
  | inl e ↦ absurd (h e)
  | inr (u, e) ↦ (record u { state = task_running }, on_task_self _ t ts u e, refl)
]

set_state-present : (s t : ℕ) (ts : Tasks) (j : ℕ) → ts j ≢ none → set_state s t ts j ≢ none
unfolding on_task
set_state-present s t ts j h = elim (Option-cases (ts t)) [
  | inl e ↦ rw (e, on_task) h
  | inr (u, e) ↦
      rw (e, on_task) (elim (Bool-cases (j == t)) [ inl y ↦ rw y (λ k. cc) | inr n ↦ rw n h ])
]

set_running-present : (o : Option ℕ) (ts : Tasks) (j : ℕ) → ts j ≢ none → set_running o ts j ≢ none
set_running-present none ts j h = h
set_running-present (some t) ts j h = set_state-present task_running t ts j h

-- A queue survives changes of the tasks, and of what tasks outside it have saved.
Chain-kept :
    (w w' : Waits) (o : Option ℕ) (xs : List ℕ)
    → ((j : ℕ) → w.tasks j ≢ none → w'.tasks j ≢ none)
    → All (λ t. w'.saved t ≡ w.saved t) xs
    → Chain w o xs
    → Chain w' o xs
Chain-kept w w' o [] present same c = c
Chain-kept w w' o (t ∷ xs) present same c =
    (c.0, present t c.1, rw same.0 (Chain-kept w w' (w.saved t) xs present same.1 c.2))

All-refl : (f : ℕ → Option ℕ) (xs : List ℕ) → All (λ t. f t ≡ f t) xs
All-refl f [] = tt
All-refl f (t ∷ xs) = (refl, All-refl f xs)

-- The queue as it is once its first task has been set running.
abbrev started : Waits → Option ℕ → Waits
started w o = record w { tasks = set_running o w.tasks }

started-Wakes : (xs : List ℕ) (w : Waits) (o : Option ℕ) → Chain w o xs → Wakes xs (started w o)
unfolding sleep_on_end
started-Wakes [] w o c = tt
started-Wakes (t ∷ xs) w o c = (
  rw c.0 (set_state-Runs w.tasks t c.1),
  started-Wakes xs (started w o) (w.saved t) (
      Chain-kept w (started w o) (w.saved t) xs (set_running-present o w.tasks)
        (All-refl w.saved xs) c.2),
)

Wakes-head :
    (xs : List ℕ) (w : Waits) (o : Option ℕ) → Wakes xs w → Wakes xs (record w { head = o })
unfolding sleep_on_end
Wakes-head [] w o h = tt
Wakes-head (t ∷ xs) w o h = (h.0, Wakes-head xs (sleep_on_end t w) o h.1)

-- From a chain of sleepers one wake_up is enough: it starts the last to come and empties the queue,
-- and each sleeper, as it leaves sleep_on, starts the one that it found before it.
pub wake_up-Wakes :
    (w : Waits) (xs : List ℕ) → Chain w w.head xs → Wakes xs (wake_up w) × ((wake_up w).head ≡ none)
unfolding wake_up
wake_up-Wakes w xs c = (Wakes-head xs (started w w.head) none (started-Wakes xs w w.head c), refl)

others_kept :
    (cur : ℕ) (f : ℕ → Option ℕ) (o : Option ℕ) (xs : List ℕ)
    → All (λ t. t ≢ cur) xs
    → All (λ t. update f cur o t ≡ f t) xs
others_kept cur f o [] h = tt
others_kept cur f o (t ∷ xs) h = (update_ne f cur t o h.0, others_kept cur f o xs h.1)

-- A task other than 0, which is present and not among the sleepers, goes to sleep: it comes in
-- front of the chain of sleepers, in the state that was asked for.
pub sleep_begin-Chain :
    (state cur : ℕ) (w : Waits) (xs : List ℕ) (u : Task)
    → cur ≢ 0
    → w.tasks cur ≡ some u
    → All (λ t. t ≢ cur) xs
    → Chain w w.head xs
    → (w' : Waits) × (sleep_begin state cur w ≡ some w')
      × Chain w' w'.head (cur ∷ xs)
      × (w'.tasks cur ≡ some (record u { state = state }))
unfolding sleep_begin
sleep_begin-Chain state cur w xs u ne here others c =
    let w' : Waits = record {
      tasks = set_state state cur w.tasks;
      head = some cur;
      saved = update w.saved cur w.head;
    } in
    (
      w',
      rw (ne→== cur 0 ne),
      (
        refl,
        set_state-present state cur w.tasks cur (λ e. cc (here, e)),
        rw (==_refl cur) (
            Chain-kept w w' w.head xs (set_state-present state cur w.tasks)
              (others_kept cur w.saved w.head xs others) c),
      ),
      on_task_self _ cur w.tasks u here,
    )
