-- ===== src/Mm/Clone.antt =====
-- What the inner loop of copy_page_tables does to two page tables and to the counts.
use native.Mathlib.Nat.{add-zero}
use linux_0_1_1_comment.Prelude.{
  ltb, ◌==◌, if◌then◌else◌, ℕ, zero, suc, ◌+◌, ◌*◌, ◌%◌, ◌≤◌, ◌<◌, ◌≡◌, refl, ◌∙◌, ◌≢◌, ◌⊎◌, Bool,
  ◌&&◌, arith,
}
use linux_0_1_1_comment.Mm.{low_mem, Mem, present, read_only, map_nr}
use linux_0_1_1_comment.Mm.Tables.{copy_entry, copy_table}

-- the entry that both sides get when `e` is copied, and what stays at the source
abbrev pub source_after : ℕ → ℕ
source_after e = if present e && ltb low_mem (read_only e) then read_only e else e

abbrev pub target_after : ℕ → ℕ → ℕ
target_after e old = if present e then read_only e else old

-- does copying `e` give page `j` of mem_map one more user?
abbrev pub shares : ℕ → ℕ → Bool
shares e j = present e && ltb low_mem (read_only e) && (map_nr (read_only e) == j)

-- how many of the `n` entries from `from` on do so
unfoldable pub sharers : ℕ → ℕ → (ℕ → ℕ) → ℕ → ℕ
sharers zero from ram j = 0
sharers (suc n) from ram j = (if shares (ram from) j then 1 else 0) + sharers n (from + 4) ram j

-- Two tables of `n` entries that do not overlap.
abbrev pub Apart : ℕ → ℕ → ℕ → Type 0
Apart n from to = (from + 4 * n ≤ to) ⊎ (to + 4 * n ≤ from)

abbrev pub Outside : ℕ → ℕ → ℕ → Type 0
Outside n t a = (a < t) ⊎ (t + 4 * n ≤ a)

module _ (from to : ℕ) (m : Mem) (ne : from ≢ to) where
  copy_entry-source : (copy_entry from to m).ram from ≡ source_after (m.ram from)
  unfolding copy_entry
  copy_entry-source = ground arith

  copy_entry-target : (copy_entry from to m).ram to ≡ target_after (m.ram from) (m.ram to)
  unfolding copy_entry
  copy_entry-target = ground arith

copy_entry-else :
    (from to : ℕ) (m : Mem) (a : ℕ) → a ≢ from → a ≢ to → (copy_entry from to m).ram a ≡ m.ram a
unfolding copy_entry
copy_entry-else from to m a h k = ground arith

copy_entry-count :
    (from to : ℕ) (m : Mem) (j : ℕ)
    → (copy_entry from to m).mem_map j
      ≡ (if shares (m.ram from) j then (m.mem_map j + 1) % 65536 else m.mem_map j)
unfolding copy_entry
copy_entry-count from to m j = ground arith

pub copy_table-else :
    (n from to : ℕ) (m : Mem) (a : ℕ)
    → Outside n from a
    → Outside n to a
    → (copy_table n from to m).ram a ≡ m.ram a
unfolding copy_table
copy_table-else zero from to m a h k = refl
copy_table-else (suc n) from to m a h k =
    copy_table-else n (from + 4) (to + 4) (copy_entry from to m) a (omega arith) (omega arith)
    ∙ copy_entry-else from to m a (omega arith) (omega arith)

-- Entry `k` of both tables.
abbrev pub Copied : ℕ → ℕ → ℕ → Mem → Mem → Type 0
Copied k from to m m' =
    (m'.ram (from + 4 * k) ≡ source_after (m.ram (from + 4 * k)))
    × (m'.ram (to + 4 * k) ≡ target_after (m.ram (from + 4 * k)) (m.ram (to + 4 * k)))

pub shift : (k t : ℕ) → t + 4 * suc k ≡ t + 4 + 4 * k
shift k t = omega arith

-- For two tables that do not overlap, copy_table gives each present entry `k` of the parent to the
-- child without the write bit, and takes that bit from the parent's too unless the page is the
-- kernel's; an absent entry leaves both as they are.
pub copy_table-Copied :
    (n from to : ℕ) (m : Mem)
    → Apart n from to
    → (k : ℕ) → k < n
    → Copied k from to m (copy_table n from to m)
unfolding copy_table
copy_table-Copied zero from to m apart k lt = absurd (omega arith)
copy_table-Copied (suc n) from to m apart zero lt =
    let ne : from ≢ to = omega arith in
    rw (add-zero from, add-zero to)
      (
        copy_table-else n (from + 4) (to + 4) _ from (omega arith) (omega arith)
            ∙ copy_entry-source from to m ne,
        copy_table-else n (from + 4) (to + 4) _ to (omega arith) (omega arith)
            ∙ copy_entry-target from to m ne,
      )
copy_table-Copied (suc n) from to m apart (suc k) lt =
    let source = copy_entry-else from to m (from + 4 + 4 * k) (omega arith) (omega arith) in
    let target = copy_entry-else from to m (to + 4 + 4 * k) (omega arith) (omega arith) in
    rw (shift k from, shift k to, ← source, ← target)
      (copy_table-Copied n (from + 4) (to + 4) (copy_entry from to m) (omega arith) k (omega arith))

pub sharers-cong :
    (n from : ℕ) (ram ram' : ℕ → ℕ) (j : ℕ)
    → ((a : ℕ) → from ≤ a → a < from + 4 * n → ram a ≡ ram' a)
    → sharers n from ram j ≡ sharers n from ram' j
unfolding sharers
sharers-cong zero from ram ram' j h = refl
sharers-cong (suc n) from ram ram' j h = rw (
  h from (omega arith) (omega arith),
  sharers-cong n (from + 4) ram ram' j (λ a x y. h a (omega arith) (omega arith)),
)

-- For two tables that do not overlap, and while the count does not overflow, copy_table adds to the
-- users of a page the number of entries that came to share it.
pub copy_table-sharers :
    (n from to : ℕ) (m : Mem)
    → Apart n from to
    → (j : ℕ) → m.mem_map j + sharers n from m.ram j < 65536
    → (copy_table n from to m).mem_map j ≡ m.mem_map j + sharers n from m.ram j
unfolding copy_table sharers
copy_table-sharers zero from to m apart j small = omega arith
copy_table-sharers (suc n) from to m apart j small =
    let m1 = copy_entry from to m in
    let same =
      sharers-cong n (from + 4) m1.ram m.ram j
        (λ a x y. copy_entry-else from to m a (omega arith) (omega arith)) in
    ground (
      arith,
      same,
      copy_entry-count from to m j,
      copy_table-sharers n (from + 4) (to + 4) m1 (omega arith) j,
    )
