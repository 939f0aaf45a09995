-- ===== src/Mm/Cow.antt =====
-- Copy on write: what un_wp_page leaves behind.
use linux_0_1_1_comment.Prelude.{
  leb, ◌==◌, if◌then◌else◌, Bool-cases, update, ℕ, ◌+◌, ◌-◌, ◌/◌, ◌%◌, ◌≤◌, ◌<◌, ◌≡◌, ◌≢◌, ◌⊎◌, inl,
  inr, false, ◌&&◌, arith, dec_lt,
}
use linux_0_1_1_comment.Mm.{
  low_mem, high_memory, paging_pages, Mem, Run, ok, segv, frame, writable, user_rw, poke, map_nr,
  page_of, clear_page,
}
use linux_0_1_1_comment.Mm.Alloc.{Got, none_free, handed_out, get_free_page-bind}
use linux_0_1_1_comment.Mm.Faults.{give_copy, un_wp_page}

-- `a` lies in no page that the allocator could hand out.
abbrev pub InUse : Mem → ℕ → Type 0
InUse m a =
    (i : ℕ) → i < paging_pages → m.mem_map i ≡ 0 → (page_of i ≤ a) → a < page_of i + 4096 → ⊥

-- After the fault the entry `te` is writable and its page has this one user; the page reads as the
-- old one did; a shared page has lost one user, and every other count of a page in use is kept.
pub record Owned (te : ℕ) (m m' : Mem) : Type 0 where
  pub can_write : m'.ram te / 2 % 2 ≡ 1
  pub still_present : m'.ram te % 2 ≡ 1
  pub page : ℕ
  pub page_at : frame (m'.ram te) ≡ page
  pub managed : low_mem ≤ page
  pub sole : m'.mem_map (map_nr page) ≡ 1
  pub same_data : (off : ℕ) → off < 4096 → m'.ram (page + off) ≡ m.ram (frame (m.ram te) + off)
  pub counts :
      (j : ℕ)
      → m.mem_map j ≢ 0
      → m'.mem_map j ≡ (
          if j == map_nr (frame (m.ram te))
          then (if leb low_mem (frame (m.ram te))
              then (if m.mem_map j == 1 then 1 else m.mem_map j - 1)
              else m.mem_map j)
          else m.mem_map j)

pub data Unshared (te : ℕ) (m : Mem) : Run (Unit {0}) → Type 0 where
  now_owned : {m' : Mem} → Owned te m m' → Unshared te m (ok tt m')
  no_memory : ((i : ℕ) → i < paging_pages → m.mem_map i ≢ 0) → Unshared te m (segv m)

-- What the page tables promise of an entry that is present.
pub record EntryValid (te : ℕ) (m : Mem) : Type 0 where
  pub here : m.ram te % 2 ≡ 1
  pub entry_in_use : InUse m te
  pub apart : ¬ ((frame (m.ram te) ≤ te) × (te < frame (m.ram te) + 4096))
  pub below : frame (m.ram te) < high_memory
  pub page_in_use : low_mem ≤ frame (m.ram te) → m.mem_map (map_nr (frame (m.ram te))) ≢ 0
  pub short : (j : ℕ) → m.mem_map j < 65536

pub nonzero : (p : ℕ) → 0 < p → (p == 0) ≡ false
nonzero p h = ground arith

module _ (te : ℕ) (m : Mem) (v : EntryValid te m) where
  alone-Owned :
      low_mem ≤ frame (m.ram te)
      → m.mem_map (map_nr (frame (m.ram te))) ≡ 1
      → Owned te m (poke m te (writable (m.ram te)))
  alone-Owned lo one = record {
    can_write = ground (arith, v.here);
    still_present = ground (arith, v.here);
    page = frame (m.ram te);
    page_at = ground arith;
    managed = lo;
    sole = one;
    same_data = λ off h. ground (arith, v.apart);
    counts = λ j h. ground arith;
  }

  module _ (i : ℕ) (lt : i < paging_pages) (free : m.mem_map i ≡ 0)
      (many : low_mem ≤ frame (m.ram te) → m.mem_map (map_nr (frame (m.ram te))) ≢ 1) where
    after : Mem
    after =
        give_copy te (frame (m.ram te)) (page_of i)
          (record { mem_map = update m.mem_map i 1; ram = clear_page m.ram (page_of i) })

    outside : (te < page_of i) ⊎ (page_of i + 4096 ≤ te)
    outside = ground (arith, v.entry_in_use i lt free)

    old_outside :
        (frame (m.ram te) < low_mem)
        ⊎ ((low_mem ≤ frame (m.ram te)) × (map_nr (frame (m.ram te)) ≢ i))
    old_outside = elim (dec_lt (frame (m.ram te)) low_mem) [
      | yes lo ↦ inl lo
      | no hi ↦ inr (omega arith, λ e. v.page_in_use (omega arith) (rw e free))
    ]

    after_entry : after.ram te ≡ user_rw (page_of i)
    unfolding after give_copy
    after_entry = ground (arith, outside)

    after_sole : after.mem_map (map_nr (page_of i)) ≡ 1
    unfolding after give_copy
    after_sole = ground (arith, old_outside)

    after_data :
        (off : ℕ) → off < 4096 → after.ram (page_of i + off) ≡ m.ram (frame (m.ram te) + off)
    unfolding after give_copy
    after_data off h = ground (arith, old_outside, v.apart)

    after_counts :
        (j : ℕ)
        → m.mem_map j ≢ 0
        → after.mem_map j ≡ (
            if j == map_nr (frame (m.ram te))
            then (if leb low_mem (frame (m.ram te))
                then (if m.mem_map j == 1 then 1 else m.mem_map j - 1)
                else m.mem_map j)
            else m.mem_map j)
    unfolding after give_copy
    after_counts j h = ground (arith, old_outside, many, v.short j)

    copy-Owned : Owned te m after
    copy-Owned = record {
      can_write = rw after_entry (omega arith);
      still_present = rw after_entry (omega arith);
      page = page_of i;
      page_at = rw after_entry (omega arith);
      managed = omega arith;
      sole = after_sole;
      same_data = after_data;
      counts = after_counts;
    }

  copy-Unshared :
      (m1 : Mem) (p : ℕ)
      → (low_mem ≤ frame (m.ram te) → m.mem_map (map_nr (frame (m.ram te))) ≢ 1)
      → Got m p m1
      → Unshared te m (if p == 0 then segv m1 else ok tt (give_copy te (frame (m.ram te)) p m1))
  unfolding after give_copy
  copy-Unshared m1 p many (none_free h) = no_memory h
  copy-Unshared m1 p many (handed_out i ep lt free above em) =
      rw (em, ep, nonzero (page_of i) (omega arith)) (now_owned (copy-Owned i lt free many))

  -- Where `te` is a valid page-table entry, un_wp_page makes it writable over a page that it alone
  -- uses, with the data that the old page had, or ends the process with the memory as it was
  -- because no page is free.
  pub un_wp_page-Unshared : Unshared te m (un_wp_page te m)
  unfolding un_wp_page
  un_wp_page-Unshared =
      elim (Bool-cases
        (leb low_mem (frame (m.ram te)) && (m.mem_map (map_nr (frame (m.ram te))) == 1))) [
          | inl sole ↦ rw sole (now_owned (alone-Owned (ground arith) (ground arith)))
          | inr shared ↦ rw shared (
              get_free_page-bind (Unshared te m) m _
                (λ p m1 g. copy-Unshared m1 p (ground arith) g))
        ]
