-- ===== src/Prelude/Arrays.antt =====
-- C arrays and memory, as functions of an index. A read past the end of an array of the source
-- reads whatever the function holds there.
use Prim.Native.Nat.{ℕ, zero, suc, ◌<◌}
use mathlib.Core.Bool.{Bool, true, false}
use mathlib.Core.Path.{◌≡◌}
use mathlib.Core.Logic.{◌≢◌}
use native.Mathlib.Omega.{arith}
use linux_0_1_1_comment.Prelude.Tests.{◌==◌, if◌then◌else◌}

module _ {ℓ} {A : Type ℓ} where
  -- `f[i] = v`
  abbrev pub update : (ℕ → A) → ℕ → A → ℕ → A
  update f i v j = if j == i then v else f j

  pub update_self : (f : ℕ → A) (i : ℕ) (v : A) → update f i v i ≡ v
  update_self f i v = ground arith

  pub update_ne : (f : ℕ → A) (i j : ℕ) (v : A) → j ≢ i → update f i v j ≡ f j
  update_ne f i j v h = ground arith

-- A test of the first `k` numbers by evaluation, and what a test that succeeds means.
unfoldable pub holds_up_to : (test : ℕ → Bool) → ℕ → Bool
holds_up_to test zero = true
holds_up_to test (suc k) = if test k then holds_up_to test k else false

pub holds_up_to_at : (test : ℕ → Bool) (k i : ℕ) → i < k → holds_up_to test k ≡ true → test i ≡ true
unfolding holds_up_to
holds_up_to_at test zero i small ok = absurd (omega arith)
holds_up_to_at test (suc k) i small ok = grind (arith, holds_up_to_at test k i)
