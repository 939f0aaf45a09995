-- ===== src/Strings/Orders.antt =====
-- What strcmp of include/string.h tells.
use linux_0_1_1_comment.Prelude.{ℕ, zero, suc, ◌+◌, ◌≤◌, ◌<◌, ◌≡◌, ◌≢◌, Option, some, arith}
use linux_0_1_1_comment.Strings.{Bytes, slt8}
use linux_0_1_1_comment.Strings.Comparing.{verdict}

-- The strings are the same, or the first bytes that differ decide.
pub data Ordered (cs ct : ℕ) (m : Bytes) (r : Option ℕ) : Type 0 where
  equal_strings :
      (n : ℕ)
      → ((k : ℕ) → k ≤ n → m (cs + k) ≡ m (ct + k))
      → m (cs + n) ≡ 0
      → r ≡ some 0
      → Ordered cs ct m r
  differ :
      (n : ℕ)
      → ((k : ℕ) → k < n → (m (cs + k) ≡ m (ct + k)) × (m (cs + k) ≢ 0))
      → m (cs + n) ≢ m (ct + n)
      → r ≡ some (verdict (slt8 (m (ct + n)) (m (cs + n))))
      → Ordered cs ct m r

-- What holds at 0, and one further on for all below `n`.
pub from_start :
    (P : ℕ → Type 0) (n : ℕ) → P 0 → ((k : ℕ) → k < n → P (suc k)) → (k : ℕ) → k < suc n → P k
from_start P n start next zero lt = start
from_start P n start next (suc k) lt = next k (omega arith)
