-- ===== src/Fork/Free.antt =====
-- find_empty_process of kernel/fork.c ends, with a number that no task has and an empty slot.
-- the numbers of the tasks in `n` slots from `i` on
use linux_0_1_1_comment.Prelude.{
  Bool-cases, Option-cases, ne→==, has, ◌∈◌, length_within, length, subst, ℕ, zero, suc, ◌+◌, ◌≤◌,
  ◌<◌, ◌≡◌, refl, sym, ◌∙◌, ◌≢◌, ◌⊎◌, inl, inr, true, false, ◌||◌, Option, none, some, List, [],
  ◌∷◌, arith, ℕ_discrete,
}
use linux_0_1_1_comment.Fork.{task_has, pid_taken, free_pid, eagain, empty_slot, find_empty_process}
use linux_0_1_1_comment.Fork.Numbers.{
  candidate, next_pid-candidate, candidates, candidates-Distinct, length-candidates,
}
use linux_0_1_1_comment.Sched.{nr_tasks, Task, Tasks}

abbrev own : Option Task → List ℕ → List ℕ
own none xs = xs
own (some t) xs = t.pid ∷ xs

abbrev pids : ℕ → ℕ → Tasks → List ℕ
pids zero i ts = []
pids (suc n) i ts = own (ts i) (pids n (i + 1) ts)

has-own :
    (pid : ℕ) (t : Option Task) (xs : List ℕ) → has pid (own t xs) ≡ (task_has pid t || has pid xs)
has-own pid none xs = refl
has-own pid (some t) xs = ground arith

length-own : (t : Option Task) (xs : List ℕ) → length (own t xs) ≤ suc (length xs)
length-own none xs = ground arith
length-own (some t) xs = ground arith

pid_taken-pids : (n i pid : ℕ) (ts : Tasks) → pid_taken n i pid ts ≡ has pid (pids n i ts)
unfolding pid_taken
pid_taken-pids zero i pid ts = refl
pid_taken-pids (suc n) i pid ts =
    rw (pid_taken-pids n (i + 1) pid ts) (sym (has-own pid (ts i) (pids n (i + 1) ts)))

length-pids : (n i : ℕ) (ts : Tasks) → length (pids n i ts) ≤ n
length-pids zero i ts = ground arith
length-pids (suc n) i ts =
    let a = length-own (ts i) (pids n (i + 1) ts) in let b = length-pids n (i + 1) ts in omega arith

-- A process number that no task has.
pub record IsNewPid (ts : Tasks) (pid : ℕ) : Type 0 where
  pub unused : pid_taken nr_tasks 0 pid ts ≡ false
  pub positive : 1 ≤ pid
  pub is_long : pid < 2147483648

-- The number of a later round; or every candidate is taken.
free_pid-cases :
    (n k p : ℕ) (ts : Tasks)
    → p < 2147483648
    → k + n < 100
    → ((pid : ℕ) × (free_pid n (candidate p k) ts ≡ some pid) × IsNewPid ts pid)
      ⊎ ((a : ℕ) → a ∈ candidates p n (suc k) → pid_taken nr_tasks 0 a ts ≡ true)
unfolding free_pid
free_pid-cases zero k p ts lt few = inr (λ a i. absurd (ground arith))
free_pid-cases (suc n) k p ts lt few =
    let c = candidate p (suc k) in
    rw (next_pid-candidate p k lt (omega arith)) (elim (Bool-cases (pid_taken nr_tasks 0 c ts)) [
      | inr e ↦
          rw e
            (inl (c, refl, record { unused = e; positive = ground arith; is_long = ground arith }))
      | inl e ↦ rw e (elim (free_pid-cases n (suc k) p ts lt (omega arith)) [
        | inl f ↦ inl f
        | inr all ↦ inr (λ a i. elim (ℕ_discrete a c) [
          | yes same ↦ rw same e
          | no ne ↦ all a (ground (arith, ne→== a c ne))
        ])
      ])
    ])

-- One of 65 candidates is free, since there are 64 tasks.
free_pid-IsNewPid :
    (p : ℕ) (ts : Tasks)
    → p < 2147483648
    → (pid : ℕ) × (free_pid 65 p ts ≡ some pid) × IsNewPid ts pid
free_pid-IsNewPid p ts lt = elim (free_pid-cases 65 0 p ts lt (omega arith)) [
  | inl f ↦
      let (pid, e, fresh) = f in
      let same : candidate p 0 ≡ p = ground arith in
      (pid, subst (λ c. free_pid 65 c ts ≡ some pid) same e, fresh)
  | inr all ↦
      let le =
        length_within (candidates p 65 1) (pids nr_tasks 0 ts)
          (candidates-Distinct p 65 1 lt (omega arith))
          (λ a i. sym (pid_taken-pids nr_tasks 0 a ts) ∙ all a i) in
      let few = length-pids nr_tasks 0 ts in
      let many = length-candidates p 65 1 in absurd (omega arith)
]

-- The first empty slot but slot 0, or -EAGAIN when there is none.
pub data Slot (ts : Tasks) (n i : ℕ) : ℕ → Type 0 where
  empty :
      (k : ℕ)
      → i ≤ k
      → k < i + n
      → ts k ≡ none
      → ((j : ℕ) → i ≤ j → j < k → ts j ≢ none)
      → Slot ts n i k
  full : ((j : ℕ) → i ≤ j → j < i + n → ts j ≢ none) → Slot ts n i eagain

slot_later : (ts : Tasks) (n i k : ℕ) → ts i ≢ none → Slot ts n (i + 1) k → Slot ts (suc n) i k
slot_later ts n i r ne (empty k lo hi e before) =
    empty k (omega arith) (omega arith) e (λ j jlo jhi. elim (ℕ_discrete j i) [
      | yes p ↦ subst (λ c. ts c ≢ none) (sym p) ne
      | no nj ↦ before j (omega arith) jhi
    ])
slot_later ts n i r ne (full all) = full (λ j lo hi. elim (ℕ_discrete j i) [
  | yes p ↦ subst (λ c. ts c ≢ none) (sym p) ne
  | no nj ↦ all j (omega arith) (omega arith)
])

empty_slot-Slot : (n i : ℕ) (ts : Tasks) → Slot ts n i (empty_slot n i ts)
unfolding empty_slot
empty_slot-Slot zero i ts = full (λ j lo hi. absurd (omega arith))
empty_slot-Slot (suc n) i ts = elim (Option-cases (ts i)) [
  | inl e ↦ rw e (empty i (omega arith) (omega arith) e (λ j lo hi. absurd (omega arith)))
  | inr (t, e) ↦ rw e (slot_later ts n i _ (λ z. absurd (cc (z, e))) (empty_slot-Slot n (i + 1) ts))
]

-- From a last_pid below 2^31, find_empty_process ends within 65 rounds, with a number from 1 below
-- 2^31 that no task has, and the first empty slot from 1 on, or -EAGAIN when there is none.
pub find_empty_process-IsNewPid :
    (last_pid : ℕ) (ts : Tasks)
    → last_pid < 2147483648
    → (pid r : ℕ) × (find_empty_process last_pid ts ≡ some (pid, r))
      × IsNewPid ts pid
      × Slot ts 63 1 r
unfolding find_empty_process
find_empty_process-IsNewPid last_pid ts lt =
    let (pid, e, fresh) = free_pid-IsNewPid last_pid ts lt in
    (pid, _, rw e refl, fresh, empty_slot-Slot 63 1 ts)
