-- ===== src/Signals/Wait.antt =====
-- The search of sys_waitpid (kernel/exit.c).
use linux_0_1_1_comment.Prelude.{
  ◌==◌, if◌then◌else◌, ℕ, zero, suc, ◌≤◌, ◌<◌, ◌≡◌, refl, sym, ◌∙◌, ◌≢◌, Bool, true, false, Option,
  none, some, arith, ℕ_discrete,
}
use linux_0_1_1_comment.Sched.{task_zombie, Task, Tasks}
use linux_0_1_1_comment.Signals.{waits_for, Scan, scan_one, wait_scan}

-- What slot `j` is to the caller: no child that it waits for, or one, a zombie or not.
abbrev pub child_in : ℕ → ℕ → Task → ℕ → Option Task → Option Bool
child_in pid self current j none = none
child_in pid self current j (some t) =
    if waits_for pid self current j t then some (t.state == task_zombie) else none

scan_child : ℕ → Option Bool → Scan → Scan
scan_child j none rest = rest
scan_child j (some true) rest = record { flag = true; zombie = some j }
scan_child j (some false) rest = record rest { flag = true }

scan_one-child :
    (pid self : ℕ) (current : Task) (j : ℕ) (o : Option Task) (rest : Scan)
    → scan_one pid self current j o rest ≡ scan_child j (child_in pid self current j o) rest
unfolding scan_one scan_child
scan_one-child pid self current j none rest = refl
scan_one-child pid self current j (some t) rest = ground arith

-- What the search of the slots 1 to `n` gives, `child` being what each slot is to the caller: the
-- zombie child in the greatest slot; or none, and a flag that says whether there is a child at all.
pub data Scanned (child : ℕ → Option Bool) (n : ℕ) (s : Scan) : Type 0 where
  reaped :
      (j : ℕ)
      → s.zombie ≡ some j
      → s.flag ≡ true
      → 0 < j
      → j ≤ n
      → child j ≡ some true
      → ((k : ℕ) → j < k → k ≤ n → child k ≢ some true)
      → Scanned child n s
  all_alive :
      (j : ℕ)
      → s.zombie ≡ none
      → s.flag ≡ true
      → 0 < j
      → j ≤ n
      → child j ≡ some false
      → ((k : ℕ) → 0 < k → k ≤ n → child k ≢ some true)
      → Scanned child n s
  childless :
      s.zombie ≡ none
      → s.flag ≡ false
      → ((k : ℕ) → 0 < k → k ≤ n → child k ≡ none)
      → Scanned child n s

-- The slots up to `suc n` are those up to `n` and one more.
one_more :
    (l n : ℕ) (P : ℕ → Type 0)
    → P (suc n)
    → ((k : ℕ) → l < k → k ≤ n → P k)
    → (k : ℕ) → l < k
    → k ≤ suc n
    → P k
one_more l n P last before k lo hi = elim (ℕ_discrete k (suc n)) [
  | yes e ↦ rw e last
  | no ne ↦ before k lo (omega arith)
]

none≢some' : {b : Bool} → none ≡ some b → ⊥
none≢some' e = cc

module _ (child : ℕ → Option Bool) (n : ℕ) (s : Scan) where
  scan_child-Scanned :
      (o : Option Bool)
      → child (suc n) ≡ o
      → Scanned child n s
      → Scanned child (suc n) (scan_child (suc n) o s)
  unfolding scan_child
  scan_child-Scanned none e (reaped j ez ef lo hi z top) =
      reaped j ez ef lo (omega arith) z (one_more j n (λ k. child k ≢ some true) (λ t. cc) top)
  scan_child-Scanned none e (all_alive j ez ef lo hi a top) =
      all_alive j ez ef lo (omega arith) a (one_more 0 n (λ k. child k ≢ some true) (λ t. cc) top)
  scan_child-Scanned none e (childless ez ef h) =
      childless ez ef (one_more 0 n (λ k. child k ≡ none) e h)
  scan_child-Scanned (some true) e f =
      reaped (suc n) refl refl (omega arith) (omega arith) e (λ k lo hi. absurd (omega arith))
  scan_child-Scanned (some false) e (reaped j ez ef lo hi z top) =
      reaped j ez refl lo (omega arith) z (one_more j n (λ k. child k ≢ some true) (λ t. cc) top)
  scan_child-Scanned (some false) e (all_alive j ez ef lo hi a top) =
      all_alive j ez refl lo (omega arith) a (one_more 0 n (λ k. child k ≢ some true) (λ t. cc) top)
  scan_child-Scanned (some false) e (childless ez ef h) =
      all_alive (suc n) ez refl (omega arith) (omega arith) e (
        one_more 0 n (λ k. child k ≢ some true) (λ t. cc)
          (λ k lo hi t. none≢some' (sym (h k lo hi) ∙ t)))

-- The search of sys_waitpid over slots 1 to `n` finds a child only if it is a zombie, and then the
-- one in the greatest slot; its flag stays clear exactly when no slot holds a child that the caller
-- waits for.
pub wait_scan-Scanned :
    (pid self : ℕ) (current : Task) (ts : Tasks) (n : ℕ)
    → Scanned (λ j. child_in pid self current j (ts j)) n (wait_scan pid self current n ts)
unfolding wait_scan
wait_scan-Scanned pid self current ts zero = childless refl refl (λ k lo hi. absurd (omega arith))
wait_scan-Scanned pid self current ts (suc n) =
    rw (scan_one-child pid self current (suc n) (ts (suc n)) (wait_scan pid self current n ts)) (
      scan_child-Scanned (λ j. child_in pid self current j (ts j)) n _ _ refl
        (wait_scan-Scanned pid self current ts n))
