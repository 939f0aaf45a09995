-- ===== src/Files/Refs.antt =====
-- The descriptors that name a file, which f_count counts.
use linux_0_1_1_comment.Prelude.{
  ◌==◌, if◌then◌else◌, ==_refl, update, update_self, update_ne, ℕ, zero, suc, ◌+◌, ◌≤◌, ◌<◌, ◌≡◌,
  refl, sym, Option, none, some, arith, ℕ_discrete,
}
use linux_0_1_1_comment.Files.{nr_open, Files}

abbrev pub names : Option ℕ → ℕ → ℕ
names none f = 0
names (some g) f = if g == f then 1 else 0

-- how many of the first `n` descriptors are open on file `f`
unfoldable pub refs : ℕ → (ℕ → Option ℕ) → ℕ → ℕ
refs zero filp f = 0
refs (suc n) filp f = names (filp n) f + refs n filp f

-- Every count is the number of descriptors of this process and of the 63 others, of 20 each.
pub record Counted (s : Files) (others : ℕ → ℕ) : Type 0 where
  pub exact : (f : ℕ) → s.count f ≡ refs nr_open s.filp f + others f
  pub few : (f : ℕ) → others f ≤ 1260

pub names_le : (o : Option ℕ) (f : ℕ) → names o f ≤ 1
names_le none f = omega arith
names_le (some g) f = ground arith

pub refs_le : (n : ℕ) (filp : ℕ → Option ℕ) (f : ℕ) → refs n filp f ≤ n
unfolding refs
refs_le zero filp f = omega arith
refs_le (suc n) filp f = let ih = refs_le n filp f in let one = names_le (filp n) f in omega arith

pub refs-update_above :
    (n : ℕ) (filp : ℕ → Option ℕ) (i f : ℕ) (o : Option ℕ)
    → n ≤ i
    → refs n (update filp i o) f ≡ refs n filp f
unfolding refs
refs-update_above zero filp i f o h = refl
refs-update_above (suc n) filp i f o h =
    rw (update_ne filp i n o (omega arith), refs-update_above n filp i f o (omega arith))

-- Changing one descriptor.
pub refs-update :
    (n : ℕ) (filp : ℕ → Option ℕ) (i f : ℕ) (o : Option ℕ)
    → i < n
    → refs n (update filp i o) f + names (filp i) f ≡ refs n filp f + names o f
unfolding refs
refs-update zero filp i f o h = absurd (omega arith)
refs-update (suc n) filp i f o h = elim (ℕ_discrete i n) [
  | yes e ↦ rw (e, update_self filp n o, refs-update_above n filp n f o (omega arith)) (omega arith)
  | no ne ↦
      let ih = refs-update n filp i f o (omega arith) in
      rw (update_ne filp i n o (λ e. ne (sym e))) (omega arith)
]

-- An open descriptor is one of them.
pub refs_pos : (n : ℕ) (filp : ℕ → Option ℕ) (i f : ℕ) → i < n → filp i ≡ some f → 1 ≤ refs n filp f
unfolding refs
refs_pos zero filp i f h e = absurd (omega arith)
refs_pos (suc n) filp i f h e = elim (ℕ_discrete i n) [
  | yes same ↦ rw (← same, e, ==_refl f) (omega arith)
  | no ne ↦ let ih = refs_pos n filp i f (omega arith) e in omega arith
]
