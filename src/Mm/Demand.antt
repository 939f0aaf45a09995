-- ===== src/Mm/Demand.antt =====
-- Demand paging: what put_page and do_no_page leave in the page tables, as the i386 walks them.
use linux_0_1_1_comment.Prelude.{
  ◌==◌, if◌then◌else◌, Bool-cases, update, ℕ, ◌+◌, ◌≤◌, ◌<◌, ◌≡◌, refl, ◌∙◌, ◌≢◌, inl, inr, true,
  false, Option, none, some, arith,
}
use linux_0_1_1_comment.Mm.{
  low_mem, paging_pages, Mem, Run, ok, segv, ◌>>=◌, present, frame, user_rw, dir_entry,
  table_offset, poke, page_of, clear_page,
}
use linux_0_1_1_comment.Mm.Alloc.{Got, none_free, handed_out, get_free_page-bind}
use linux_0_1_1_comment.Mm.Cow.{InUse, nonzero}
use linux_0_1_1_comment.Mm.Faults.{do_no_page}
use linux_0_1_1_comment.Mm.Tables.{put_page}

-- The page-table entry that the processor reads for a linear address, if its table is present.
pub walk : Mem → ℕ → Option ℕ
walk m address =
    let dir = m.ram (dir_entry address) in
    if present dir then some (m.ram (frame dir + table_offset address)) else none

-- A directory entry that is present names a table outside the directory and in use.
pub record DirValid (address : ℕ) (m : Mem) : Type 0 where
  pub table_apart :
      present (m.ram (dir_entry address)) ≡ true → 4096 ≤ frame (m.ram (dir_entry address))
  pub table_in_use :
      present (m.ram (dir_entry address)) ≡ true
      → (off : ℕ) → off < 4096
      → InUse m (frame (m.ram (dir_entry address)) + off)

-- `address` is mapped to `page`, and of the 4 Mb around it no other entry has changed, or all of
-- them are new and empty.
pub record Placed (page address : ℕ) (m m' : Mem) : Type 0 where
  pub entry : walk m' address ≡ some (user_rw page)
  pub others :
      (a : ℕ)
      → dir_entry a ≡ dir_entry address
      → table_offset a ≢ table_offset address
      → walk m' a ≡ (if present (m.ram (dir_entry address)) then walk m a else some 0)

module _ (page address : ℕ) (m : Mem) (v : DirValid address m) where
  old_table :
      present (m.ram (dir_entry address)) ≡ true
      → Placed page address m
          (poke m (frame (m.ram (dir_entry address)) + table_offset address) (user_rw page))
  unfolding walk
  old_table h = record {
    entry = ground (arith, v.table_apart h);
    others = λ a e ne. rw (e, h) (ground (arith, v.table_apart h));
  }

  new_table :
      (i : ℕ)
      → present (m.ram (dir_entry address)) ≡ false
      → Placed page address m (
          poke
            (poke
              (record { mem_map = update m.mem_map i 1; ram = clear_page m.ram (page_of i) })
              (dir_entry address)
              (user_rw (page_of i)))
            (page_of i + table_offset address)
            (user_rw page))
  unfolding walk
  new_table i h = record { entry = ground arith; others = λ a e ne. rw (e, h) (ground arith) }

-- What put_page does: it maps the page, or returns 0 with the memory as it was because the table
-- is missing and no page is free to be one.
pub data Put (page address : ℕ) (m : Mem) : Run ℕ → Type 0 where
  put_at :
      {m' : Mem}
      → Placed page address m m'
      → ((j : ℕ) → m.mem_map j ≢ 0 → m'.mem_map j ≡ m.mem_map j)
      → ((a : ℕ)
          → low_mem ≤ a
          → InUse m a
          → (present (m.ram (dir_entry address)) ≡ true
              → a ≢ frame (m.ram (dir_entry address)) + table_offset address)
          → m'.ram a ≡ m.ram a)
      → Put page address m (ok page m')
  no_table :
      present (m.ram (dir_entry address)) ≡ false
      → ((i : ℕ) → i < paging_pages → m.mem_map i ≢ 0)
      → Put page address m (ok 0 m)

module _ (page address : ℕ) (m : Mem) (v : DirValid address m) where
  Put-new :
      present (m.ram (dir_entry address)) ≡ false
      → (tmp : ℕ) (m1 : Mem) → Got m tmp m1
      → Put page address m (
          if tmp == 0
          then ok 0 m1
          else ok page (
              poke
                (poke m1 (dir_entry address) (user_rw tmp))
                (tmp + table_offset address)
                (user_rw page)))
  Put-new h tmp m1 (none_free all_used) = no_table h all_used
  Put-new h tmp m1 (handed_out i ep lt free above em) =
      rw (em, ep, nonzero (page_of i) (omega arith))
        (put_at (new_table page address m v i h) (λ j used. ground arith)
          (λ a hi use_a ne. ground (arith, use_a i lt free)))

  -- Where the directory entry of the address is absent or names a table in use, put_page maps
  -- `page` at the address and leaves the other entries and every page in use alone, or returns 0
  -- and changes nothing.
  pub put_page-Put : Put page address m (put_page page address m)
  unfolding put_page
  put_page-Put = elim (Bool-cases (present (m.ram (dir_entry address)))) [
    | inl old ↦ rw old (
        put_at (old_table page address m v old) (λ j used. refl)
          (λ a hi use_a ne. ground (arith, ne old)))
    | inr new ↦ rw new (get_free_page-bind (Put page address m) m _ (Put-new new))
  ]

-- What do_no_page does for a page that is not there.
pub data Demanded (address : ℕ) (m : Mem) : Run (Unit {0}) → Type 0 where
  mapped :
      {m' : Mem} (i : ℕ)
      → i < paging_pages
      → m.mem_map i ≡ 0
      → Placed (page_of i) address m m'
      → m'.mem_map i ≡ 1
      → ((off : ℕ) → off < 4096 → m'.ram (page_of i + off) ≡ 0)
      → Demanded address m (ok tt m')
  out_of_memory : ((i : ℕ) → i < paging_pages → m.mem_map i ≢ 0) → Demanded address m (segv m)
  -- The last page was taken before the table was asked for, and stays counted.
  last_page_lost :
      {m' : Mem} (i : ℕ)
      → i < paging_pages
      → m.mem_map i ≡ 0
      → ((j : ℕ) → j < paging_pages → m'.mem_map j ≢ 0)
      → ((a : ℕ) → a < low_mem → m'.ram a ≡ m.ram a)
      → Demanded address m (segv m')

module _ (address : ℕ) (m : Mem) (v : DirValid address m) (i : ℕ) (lt : i < paging_pages)
    (free : m.mem_map i ≡ 0) where
  taken : Mem
  taken = record { mem_map = update m.mem_map i 1; ram = clear_page m.ram (page_of i) }

  dir_kept : taken.ram (dir_entry address) ≡ m.ram (dir_entry address)
  unfolding taken
  dir_kept = ground arith

  taken-DirValid : DirValid address taken
  unfolding taken
  taken-DirValid = record {
    table_apart = λ h. rw dir_kept (v.table_apart (rw dir_kept at h));
    table_in_use = λ h off lt j free_j. ground (arith, v.table_in_use (rw dir_kept at h) off lt j);
  }

  walk_kept :
      (a : ℕ)
      → dir_entry a ≡ dir_entry address
      → present (m.ram (dir_entry address)) ≡ true
      → walk taken a ≡ walk m a
  unfolding taken walk
  walk_kept a e h =
      rw (e, h) (ground (arith, v.table_in_use h (table_offset a) (omega arith) i lt free))

  Placed-taken : {m' : Mem} → Placed (page_of i) address taken m' → Placed (page_of i) address m m'
  Placed-taken p = record {
    entry = p.entry;
    others = λ a e ne. ground (arith, p.others a e ne, dir_kept, walk_kept a e);
  }

  page-InUse : (off : ℕ) → off < 4096 → InUse taken (page_of i + off)
  unfolding taken
  page-InUse off l j free_j = ground arith

  entry_apart :
      (off : ℕ)
      → off < 4096
      → present (taken.ram (dir_entry address)) ≡ true
      → page_of i + off ≢ frame (taken.ram (dir_entry address)) + table_offset address
  entry_apart off l h = rw dir_kept (λ e.
      v.table_in_use (rw dir_kept at h) (table_offset address) (omega arith) i lt free (omega arith)
        (omega arith))

  zeroed : (off : ℕ) → off < 4096 → taken.ram (page_of i + off) ≡ 0
  unfolding taken
  zeroed off l = ground arith

  marked : taken.mem_map i ≡ 1
  unfolding taken
  marked = ground arith

  kept : (a : ℕ) → a < low_mem → taken.ram a ≡ m.ram a
  unfolding taken
  kept a l = ground arith

  demand :
      (r : Run ℕ)
      → Put (page_of i) address taken r
      → Demanded address m (r >>= λ page m2. if page == 0 then segv m2 else ok tt m2)
  demand r (put_at p counts ram) = rw (nonzero (page_of i) (omega arith)) (
      mapped i lt free (Placed-taken p) (counts i (λ e. omega (arith, marked)) ∙ marked) (λ off l.
        ram (page_of i + off) (omega arith) (page-InUse off l) (entry_apart off l) ∙ zeroed off l))
  demand r (no_table h all_used) = last_page_lost i lt free all_used kept

module _ (address : ℕ) (m : Mem) (v : DirValid address m) where
  demand-Got :
      (p : ℕ) (m1 : Mem)
      → Got m p m1
      → Demanded address m (
          if p == 0
          then segv m1
          else (put_page p address m1 >>= λ page m2. if page == 0 then segv m2 else ok tt m2))
  unfolding taken
  demand-Got p m1 (none_free h) = out_of_memory h
  demand-Got p m1 (handed_out i ep lt free above em) =
      rw (em, ep, nonzero (page_of i) (omega arith))
        (demand address m v i lt free _ (
          put_page-Put (page_of i) address (taken address m v i lt free)
            (taken-DirValid address m v i lt free)))

  -- Where the directory entry of the address is absent or names a table in use, do_no_page maps a
  -- zeroed page of its own at the address and leaves the entries around it alone; it ends the
  -- process only when no page is left, and then may have kept the last one.
  pub do_no_page-Demanded : Demanded address m (do_no_page address m)
  unfolding do_no_page
  do_no_page-Demanded = get_free_page-bind (Demanded address m) m _ demand-Got
