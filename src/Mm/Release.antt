-- ===== src/Mm/Release.antt =====
-- What the inner loop of free_page_tables does to a page table and to the counts.
use native.Mathlib.Nat.{add-zero}
use linux_0_1_1_comment.Prelude.{
  leb, ◌==◌, if◌then◌else◌, ℕ, zero, suc, ◌+◌, ◌*◌, ◌≤◌, ◌<◌, ◌≡◌, refl, ◌∙◌, ◌≢◌, Bool, true, ◌&&◌,
  arith,
}
use linux_0_1_1_comment.Mm.{
  low_mem, high_memory, Mem, ok, present, frame, poke, map_nr, count_down, free_page,
}
use linux_0_1_1_comment.Mm.Alloc.{Returns, Returns-mono}
use linux_0_1_1_comment.Mm.Clone.{Outside, shift}
use linux_0_1_1_comment.Mm.Tables.{clear_entry, clear_table}

-- does clearing `e` take one user from page `j` of mem_map?
abbrev pub releases : ℕ → ℕ → Bool
releases e j = present e && leb low_mem (frame e) && (map_nr (frame e) == j)

-- how many of the `n` entries from `p` on do so
unfoldable pub releasers : ℕ → ℕ → (ℕ → ℕ) → ℕ → ℕ
releasers zero p ram j = 0
releasers (suc n) p ram j = (if releases (ram p) j then 1 else 0) + releasers n (p + 4) ram j

-- Every entry that is present names a page of the machine, and mem_map counts at least the
-- entries of this table.
pub record TableValid (n p : ℕ) (m : Mem) : Type 0 where
  pub in_memory : (a : ℕ) → p ≤ a → a < p + 4 * n → frame (m.ram a) ≤ high_memory
  pub counted : (j : ℕ) → releasers n p m.ram j ≤ m.mem_map j
  pub short : (j : ℕ) → m.mem_map j < 65536

-- The table is empty, the rest of memory is as it was, and each page has lost its users here.
pub record TableCleared (n p : ℕ) (m m' : Mem) : Type 0 where
  pub empty : (k : ℕ) → k < n → m'.ram (p + 4 * k) ≡ 0
  pub rest : (a : ℕ) → Outside n p a → m'.ram a ≡ m.ram a
  pub users : (j : ℕ) → m'.mem_map j + releasers n p m.ram j ≡ m.mem_map j

cleared : ℕ → Mem → Mem
cleared p m =
    poke
      (if present (m.ram p) && leb low_mem (frame (m.ram p))
        then count_down m (map_nr (frame (m.ram p)))
        else m)
      p 0

clear_entry-cleared :
    (p : ℕ) (m : Mem)
    → frame (m.ram p) ≤ high_memory
    → (releases (m.ram p) (map_nr (frame (m.ram p))) ≡ true
        → m.mem_map (map_nr (frame (m.ram p))) ≢ 0)
    → clear_entry p m ≡ ok tt (cleared p m)
unfolding clear_entry free_page cleared
clear_entry-cleared p m hi used = ground arith

module _ (p : ℕ) (m : Mem) where
  cleared-count :
      (j : ℕ)
      → m.mem_map j < 65536
      → (releases (m.ram p) j ≡ true → m.mem_map j ≢ 0)
      → (cleared p m).mem_map j + (if releases (m.ram p) j then 1 else 0) ≡ m.mem_map j
  unfolding cleared
  cleared-count j short used = ground arith

  cleared-else : (a : ℕ) → a ≢ p → (cleared p m).ram a ≡ m.ram a
  unfolding cleared
  cleared-else a ne = ground arith

  cleared_self : (cleared p m).ram p ≡ 0
  unfolding cleared
  cleared_self = ground arith

releasers-cong :
    (n p : ℕ) (ram ram' : ℕ → ℕ) (j : ℕ)
    → ((a : ℕ) → p ≤ a → a < p + 4 * n → ram a ≡ ram' a)
    → releasers n p ram j ≡ releasers n p ram' j
unfolding releasers
releasers-cong zero p ram ram' j h = refl
releasers-cong (suc n) p ram ram' j h = rw (
  h p (omega arith) (omega arith),
  releasers-cong n (p + 4) ram ram' j (λ a x y. h a (omega arith) (omega arith)),
)

module _ (n p : ℕ) (m : Mem) (v : TableValid (suc n) p m) where
  rest_same : (j : ℕ) → releasers n (p + 4) (cleared p m).ram j ≡ releasers n (p + 4) m.ram j
  rest_same j = releasers-cong n (p + 4) _ m.ram j (λ a x y. cleared-else p m a (omega arith))

  head_used : (j : ℕ) → releases (m.ram p) j ≡ true → m.mem_map j ≢ 0
  unfolding releasers
  head_used j h = ground (arith, v.counted j)

  step_count :
      (j : ℕ) → (cleared p m).mem_map j + (if releases (m.ram p) j then 1 else 0) ≡ m.mem_map j
  step_count j = cleared-count p m j (v.short j) (head_used j)

  step-TableValid : TableValid n (p + 4) (cleared p m)
  unfolding releasers
  step-TableValid = record {
    in_memory =
        λ a x y. rw (cleared-else p m a (omega arith)) (v.in_memory a (omega arith) (omega arith));
    counted = λ j. rw (rest_same j) (omega (arith, step_count j, v.counted j));
    short = λ j. omega (arith, step_count j, v.short j);
  }

  module _ (m' : Mem) (c : TableCleared n (p + 4) (cleared p m) m') where
    grow_empty : (k : ℕ) → k < suc n → m'.ram (p + 4 * k) ≡ 0
    grow_empty zero l = rw add-zero (c.rest p (omega arith) ∙ cleared_self p m)
    grow_empty (suc k) l = rw (shift k p) (c.empty k (omega arith))

    grow_rest : (a : ℕ) → Outside (suc n) p a → m'.ram a ≡ m.ram a
    grow_rest a o = c.rest a (omega arith) ∙ cleared-else p m a (omega arith)

    grow-TableCleared : TableCleared (suc n) p m m'
    unfolding releasers
    grow-TableCleared = record {
      empty = grow_empty;
      rest = grow_rest;
      users = λ j. omega (arith, c.users j, step_count j, rest_same j);
    }

-- Clearing a table whose entries lie in memory and are counted in mem_map does not panic; it
-- empties the table, leaves the rest of memory alone, and takes from each page one user for each
-- entry.
pub clear_table-TableCleared :
    (n p : ℕ) (m : Mem) → TableValid n p m → Returns (λ _. TableCleared n p m) (clear_table n p m)
unfolding clear_table releasers
clear_table-TableCleared zero p m v = record {
  empty = λ k l. absurd (omega arith);
  rest = λ a o. refl;
  users = λ j. omega arith;
}
clear_table-TableCleared (suc n) p m v =
    rw (clear_entry-cleared p m (v.in_memory p (omega arith) (omega arith)) (head_used n p m v _)) (
      Returns-mono {P = λ _. TableCleared n (p + 4) (cleared p m)}
        {Q = λ _. TableCleared (suc n) p m} (λ _ m' c. grow-TableCleared n p m v m' c)
        (clear_table n (p + 4) (cleared p m))
        (clear_table-TableCleared n (p + 4) (cleared p m) (step-TableValid n p m v)))
