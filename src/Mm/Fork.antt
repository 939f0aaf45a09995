-- ===== src/Mm/Fork.antt =====
-- What copy_page_tables does to one 4 Mb block of a process, as fork calls it.
use linux_0_1_1_comment.Prelude.{
  ◌==◌, if◌then◌else◌, ne→==, update, ℕ, ◌+◌, ◌*◌, ◌≤◌, ◌<◌, ◌≡◌, refl, ◌∙◌, ◌≢◌, ◌⊎◌, Bool, true,
  false, arith,
}
use linux_0_1_1_comment.Mm.{
  paging_pages, Mem, Run, ok, present, frame, user_rw, poke, page_of, clear_page,
}
use linux_0_1_1_comment.Mm.Alloc.{Got, none_free, handed_out, get_free_page-bind}
use linux_0_1_1_comment.Mm.Clone.{
  source_after, target_after, sharers, Apart, copy_table-else, Copied, copy_table-Copied,
  sharers-cong, copy_table-sharers,
}
use linux_0_1_1_comment.Mm.Cow.{nonzero}
use linux_0_1_1_comment.Mm.Tables.{copy_table, copy_dir}

-- The directory entry of the parent names a table above the directory whose page is in use.
pub record ParentDir (from_dir to_dir : ℕ) (m : Mem) : Type 0 where
  pub dirs_low : (from_dir < 4096) × (to_dir < 4096)
  pub parent_present : present (m.ram from_dir) ≡ true
  pub child_absent : present (m.ram to_dir) ≡ false
  pub table_high : 4096 ≤ frame (m.ram from_dir)
  pub table_in_use :
      (i : ℕ)
      → i < paging_pages
      → m.mem_map i ≡ 0
      → (page_of i + 4096 ≤ frame (m.ram from_dir)) ⊎ (frame (m.ram from_dir) + 4096 ≤ page_of i)
  pub few_users : (j : ℕ) → m.mem_map j + sharers 1024 (frame (m.ram from_dir)) m.ram j < 65536

-- Child and parent afterwards: the child's table holds the parent's entries without the write
-- bit, the parent keeps its entries (above LOW_MEM without the write bit), and every page in use
-- counts the entries that share it now.
pub record Cloned (from_dir to_dir : ℕ) (m m' : Mem) : Type 0 where
  pub table : ℕ
  pub child_dir : m'.ram to_dir ≡ user_rw table
  pub table_at : frame (m'.ram to_dir) ≡ table
  pub child :
      (k : ℕ)
      → k < 1024
      → m'.ram (table + 4 * k) ≡ target_after (m.ram (frame (m.ram from_dir) + 4 * k)) 0
  pub parent :
      (k : ℕ)
      → k < 1024
      → m'.ram (frame (m.ram from_dir) + 4 * k)
        ≡ source_after (m.ram (frame (m.ram from_dir) + 4 * k))
  pub users :
      (j : ℕ)
      → m.mem_map j ≢ 0
      → m'.mem_map j ≡ m.mem_map j + sharers 1024 (frame (m.ram from_dir)) m.ram j

pub data BlockCopied (from_dir to_dir : ℕ) (m : Mem) : Run Bool → Type 0 where
  cloned : {m' : Mem} → Cloned from_dir to_dir m m' → BlockCopied from_dir to_dir m (ok true m')
  no_table_page :
      ((i : ℕ) → i < paging_pages → m.mem_map i ≢ 0) → BlockCopied from_dir to_dir m (ok false m)

module _ (from_dir to_dir : ℕ) (m : Mem) (v : ParentDir from_dir to_dir m) (i : ℕ)
    (lt : i < paging_pages) (free : m.mem_map i ≡ 0) where
  old : ℕ
  old = frame (m.ram from_dir)

  -- the memory before the inner loop and after it
  before : Mem
  before =
      poke (record { mem_map = update m.mem_map i 1; ram = clear_page m.ram (page_of i) }) to_dir
        (user_rw (page_of i))

  after : Mem
  after = copy_table 1024 old (page_of i) before

  apart : Apart 1024 old (page_of i)
  unfolding old
  apart = ground (arith, v.table_in_use i lt free)

  before-old : (a : ℕ) → old ≤ a → a < old + 4 * 1024 → before.ram a ≡ m.ram a
  unfolding before old
  before-old a lo hi = ground (arith, apart, v.table_high, v.dirs_low)

  before-new : (k : ℕ) → k < 1024 → before.ram (page_of i + 4 * k) ≡ 0
  unfolding before
  before-new k l = ground (arith, v.dirs_low)

  before-from_dir : before.ram from_dir ≡ m.ram from_dir
  unfolding before
  before-from_dir = ground (arith, v.dirs_low, v.parent_present, v.child_absent)

  before-to_dir : before.ram to_dir ≡ user_rw (page_of i)
  unfolding before
  before-to_dir = ground (arith, v.dirs_low)

  after-to_dir : after.ram to_dir ≡ user_rw (page_of i)
  unfolding after old
  after-to_dir =
      copy_table-else 1024 old (page_of i) before to_dir (ground (arith, v.dirs_low, v.table_high))
        (ground (arith, v.dirs_low))
      ∙ before-to_dir

  before-count : (j : ℕ) → m.mem_map j ≢ 0 → before.mem_map j ≡ m.mem_map j
  unfolding before
  before-count j used = ground arith

  copied : (k : ℕ) → k < 1024 → Copied k old (page_of i) before after
  unfolding after
  copied = copy_table-Copied 1024 old (page_of i) before apart

  after-child :
      (k : ℕ) → k < 1024 → after.ram (page_of i + 4 * k) ≡ target_after (m.ram (old + 4 * k)) 0
  after-child k l =
      rw (← before-old (old + 4 * k) (omega arith) (omega arith), ← before-new k l) (copied k l).1

  after-parent : (k : ℕ) → k < 1024 → after.ram (old + 4 * k) ≡ source_after (m.ram (old + 4 * k))
  after-parent k l = rw (← before-old (old + 4 * k) (omega arith) (omega arith)) (copied k l).0

  after-users : (j : ℕ) → m.mem_map j ≢ 0 → after.mem_map j ≡ m.mem_map j + sharers 1024 old m.ram j
  unfolding after old
  after-users j used =
      let same = sharers-cong 1024 old before.ram m.ram j before-old in
      let count = before-count j used in
      copy_table-sharers 1024 old (page_of i) before apart j (rw (same, count) (v.few_users j))
      ∙ rw (same, count) refl

  after-Cloned : Cloned from_dir to_dir m after
  unfolding old
  after-Cloned = record {
    table = page_of i;
    child_dir = after-to_dir;
    table_at = rw after-to_dir (omega arith);
    child = after-child;
    parent = after-parent;
    users = after-users;
  }

module _ (from from_dir to_dir : ℕ) (m : Mem) (v : ParentDir from_dir to_dir m)
    (user : from ≢ 0) where
  block-Got :
      (table : ℕ) (m1 : Mem)
      → Got m table m1
      → BlockCopied from_dir to_dir m (
          if table == 0
          then ok false m1
          else ok true (
              copy_table
                (if from == 0 then 0xA0 else 1024)
                (frame (m.ram from_dir))
                table
                (poke m1 to_dir (user_rw table))))
  unfolding after before old
  block-Got table m1 (none_free h) = no_table_page h
  block-Got table m1 (handed_out i ep lt free above em) =
      rw (em, ep, nonzero (page_of i) (omega arith), ne→== from 0 user)
        (cloned (after-Cloned from_dir to_dir m v i lt free))

  -- For a block from an address other than 0, with a valid parent entry and an absent child entry
  -- of the directory, copy_dir clones the page table copy-on-write, or finds no page for the new
  -- table and changes nothing.
  pub copy_dir-BlockCopied : BlockCopied from_dir to_dir m (copy_dir from from_dir to_dir m)
  unfolding copy_dir
  copy_dir-BlockCopied =
      rw (v.child_absent, v.parent_present)
        (get_free_page-bind (BlockCopied from_dir to_dir m) m _ block-Got)
