-- ===== src/Fork/Numbers.antt =====
-- The process numbers that find_empty_process of kernel/fork.c tries.
-- the number after `k` rounds: behind the largest one comes 1
use linux_0_1_1_comment.Prelude.{
  ltb, if◌then◌else◌, ◌∉◌, Distinct, length, ℕ, zero, suc, ◌+◌, ◌-◌, ◌≤◌, ◌<◌, ◌≡◌, refl, ap, List,
  [], ◌∷◌, arith,
}
use linux_0_1_1_comment.Fork.{next_pid}
use linux_0_1_1_comment.Word.{add}

abbrev pub candidate : ℕ → ℕ → ℕ
candidate p k = if ltb (p + k) 2147483648 then p + k else p + k - 2147483647

pub next_pid-candidate :
    (p k : ℕ) → p < 2147483648 → k < 100 → next_pid (candidate p k) ≡ candidate p (suc k)
unfolding add
next_pid-candidate p k lt few = ground arith

-- the candidates of rounds `k` to `k + n - 1`
abbrev pub candidates : ℕ → ℕ → ℕ → List ℕ
candidates p zero k = []
candidates p (suc n) k = candidate p k ∷ candidates p n (suc k)

candidates_later :
    (p j n k : ℕ) → p < 2147483648 → j < k → k + n ≤ 100 → candidate p j ∉ candidates p n k
candidates_later p j zero k lt ord few = refl
candidates_later p j (suc n) k lt ord few =
    let ih = candidates_later p j n (suc k) lt (omega arith) (omega arith) in ground arith

pub candidates-Distinct : (p n k : ℕ) → p < 2147483648 → k + n ≤ 100 → Distinct (candidates p n k)
candidates-Distinct p zero k lt few = tt
candidates-Distinct p (suc n) k lt few = (
  candidates_later p k n (suc k) lt (omega arith) (omega arith),
  candidates-Distinct p n (suc k) lt (omega arith),
)

pub length-candidates : (p n k : ℕ) → length (candidates p n k) ≡ n
length-candidates p zero k = refl
length-candidates p (suc n) k = ap suc (length-candidates p n (suc k))
