-- ===== src/Mm/Alloc.antt =====
-- The page allocator of mm/memory.c: get_free_page and free_page.
use linux_0_1_1_comment.Prelude.{
  ◌==◌, if◌then◌else◌, Bool-cases, update, update_self, update_ne, ℕ, zero, suc, ◌+◌, ◌%◌, ◌≤◌, ◌<◌,
  ◌≡◌, refl, sym, ap, ◌∙◌, ◌≢◌, ◌⊎◌, inl, inr, Option, none, some, arith,
}
use linux_0_1_1_comment.Mm.{
  low_mem, high_memory, paging_pages, Mem, Run, ok, panicked, segv, ◌>>=◌, map_nr, page_of,
  count_down, scan_free, clear_page, take_page, get_free_page, free_page,
}

-- What the scan finds is free, and nothing above it is.
abbrev pub FreeScan : (ℕ → ℕ) → ℕ → Option ℕ → Type 0
FreeScan counts n none = (i : ℕ) → i < n → counts i ≢ 0
FreeScan counts n (some i) = (i < n) × (counts i ≡ 0) × ((j : ℕ) → i < j → j < n → counts j ≢ 0)

scan_free-step :
    (counts : ℕ → ℕ) (n : ℕ) (o : Option ℕ)
    → FreeScan counts n o
    → FreeScan counts (suc n) (if counts n == 0 then some n else o)
scan_free-step counts n none h = elim (Bool-cases (counts n == 0)) [
  | inl free ↦ rw free (omega arith, ground arith, λ j a b. absurd (omega arith))
  | inr used ↦ rw used (λ i a. ground (arith, h i))
]
scan_free-step counts n (some i) h = elim (Bool-cases (counts n == 0)) [
  | inl free ↦ rw free (omega arith, ground arith, λ j a b. absurd (omega arith))
  | inr used ↦ rw used (omega arith, h.1, λ j a b. ground (arith, h.2 j))
]

pub scan_free-FreeScan : (counts : ℕ → ℕ) (n : ℕ) → FreeScan counts n (scan_free counts n)
unfolding scan_free
scan_free-FreeScan counts zero = λ i h. absurd (omega arith)
scan_free-FreeScan counts (suc n) =
    scan_free-step counts n (scan_free counts n) (scan_free-FreeScan counts n)

-- What get_free_page promises: with a free page it hands out the last one, counted once and
-- zeroed, and touches nothing else; with none it returns 0 and changes nothing.
pub data Got (m : Mem) : ℕ → Mem → Type 0 where
  none_free : ((i : ℕ) → i < paging_pages → m.mem_map i ≢ 0) → Got m 0 m
  handed_out :
      {p : ℕ} {m' : Mem} (i : ℕ)
      → p ≡ page_of i
      → i < paging_pages
      → m.mem_map i ≡ 0
      → ((j : ℕ) → i < j → j < paging_pages → m.mem_map j ≢ 0)
      → m' ≡ record { mem_map = update m.mem_map i 1; ram = clear_page m.ram p }
      → Got m p m'

abbrev pub Returns {ℓ} : {A : Type ℓ} → (A → Mem → Type 0) → Run A → Type 0
Returns P (ok a m) = P a m
Returns P r = ⊥

pub Returns-mono :
    {A : Type 0} {P Q : A → Mem → Type 0}
    → ((a : A) (m : Mem) → P a m → Q a m)
    → (r : Run A) → Returns P r
    → Returns Q r
Returns-mono f (ok a m) h = f a m h
Returns-mono f panicked h = h
Returns-mono f (segv m) h = h

take_page-Got :
    (m : Mem) (o : Option ℕ) → FreeScan m.mem_map paging_pages o → Returns (Got m) (take_page m o)
unfolding take_page
take_page-Got m none h = none_free h
take_page-Got m (some i) h = handed_out i refl h.0 h.1 h.2 refl

-- get_free_page hands out a page that had no user, now with one and all zero, and changes nothing
-- else; or it returns 0 and changes nothing, when every page is in use.
pub get_free_page-Got : (m : Mem) → Returns (Got m) (get_free_page m)
unfolding get_free_page
get_free_page-Got m = take_page-Got m _ (scan_free-FreeScan m.mem_map paging_pages)

module _ (addr : ℕ) (m : Mem) (lo : low_mem ≤ addr) (hi : addr ≤ high_memory) where
  pub free_page-used :
      m.mem_map (map_nr addr) ≢ 0 → free_page addr m ≡ ok tt (count_down m (map_nr addr))
  unfolding free_page
  free_page-used used = ground arith

  pub free_page-unused : m.mem_map (map_nr addr) ≡ 0 → free_page addr m ≡ panicked
  unfolding free_page
  free_page-unused unused = ground arith

-- A page handed out can be freed, which restores the counts; a second free stops the machine.
abbrev pub Refreed : Mem → ℕ → Mem → Type 0
Refreed m p m' =
    (m2 : Mem) × (free_page p m' ≡ ok tt m2)
    × ((i : ℕ) → m2.mem_map i ≡ m.mem_map i)
    × (m2.ram ≡ m'.ram)
    × (free_page p m2 ≡ panicked)

map_nr-page_of : (i : ℕ) → map_nr (page_of i) ≡ i
map_nr-page_of i = omega arith

Got-Refreed : {m m' : Mem} {p : ℕ} → Got m p m' → p ≢ 0 → Refreed m p m'
Got-Refreed (none_free h) ne = absurd (ne refl)
Got-Refreed {m} {m'} {p} (handed_out i ep lt free above em) ne =
    let at : map_nr p ≡ i = omega arith in
    let lo : low_mem ≤ p = omega arith in
    let hi : p ≤ high_memory = omega arith in
    let entry = λ (j : ℕ). ap (λ (x : Mem). x.mem_map j) em in
    let one : m'.mem_map (map_nr p) ≡ 1 = entry (map_nr p) ∙ rw at (update_self m.mem_map i 1) in
    (
      count_down m' (map_nr p),
      free_page-used p m' lo hi (omega arith),
      λ j. ground (arith, entry j),
      refl,
      free_page-unused p _ lo hi (ground arith),
    )

-- No page is free, and 0 comes back; or page `p` comes back.
pub data Handed (m : Mem) : ℕ → Mem → Type 0 where
  no_page : ((i : ℕ) → i < paging_pages → m.mem_map i ≢ 0) → Handed m 0 m
  page :
      {p : ℕ} {m' : Mem}
      → low_mem ≤ p
      → p + 4096 ≤ high_memory
      → p % 4096 ≡ 0
      → m.mem_map (map_nr p) ≡ 0
      → m'.mem_map (map_nr p) ≡ 1
      → ((i : ℕ) → i ≢ map_nr p → m'.mem_map i ≡ m.mem_map i)
      → ((a : ℕ) → p ≤ a → a < p + 4096 → m'.ram a ≡ 0)
      → ((a : ℕ) → (a < p) ⊎ (p + 4096 ≤ a) → m'.ram a ≡ m.ram a)
      → Refreed m p m'
      → Handed m p m'

Got-Handed : {m m' : Mem} {p : ℕ} → Got m p m' → Handed m p m'
Got-Handed (none_free h) = no_page h
Got-Handed {m} {m'} {p} (handed_out i ep lt free above em) =
    let at : map_nr p ≡ i = omega arith in
    let ram = λ (a : ℕ). ap (λ (x : Mem). x.ram a) em in
    let counts = λ (j : ℕ). ap (λ (x : Mem). x.mem_map j) em in
    page (omega arith) (omega arith) (omega arith) (rw at free)
      (counts (map_nr p) ∙ rw at (update_self m.mem_map i 1))
      (λ j ne. counts j ∙ update_ne m.mem_map i j 1 (λ e. ne (e ∙ sym at)))
      (λ a lo hi. ram a ∙ ground arith)
      (λ a out. ram a ∙ elim out [ inl h ↦ ground arith | inr h ↦ ground arith ])
      (Got-Refreed (handed_out i ep lt free above em) (λ z. absurd (omega arith)))

-- get_free_page returns 0 and changes nothing, when every page is in use; or it hands out a page
-- between LOW_MEM and HIGH_MEMORY that had no user, with one user and all zero, while every other
-- count and word is as before. Then free_page of it restores every count, and a second free_page
-- panics.
pub free_page-get_free_page : (m : Mem) → Returns (Handed m) (get_free_page m)
free_page-get_free_page m =
    Returns-mono (λ p m'. Got-Handed) (get_free_page m) (get_free_page-Got m)

Returns-bind :
    {A B : Type 0} {Q : A → Mem → Type 0} (P : Run B → Type 0) (f : A → Mem → Run B)
    → ((a : A) (m : Mem) → Q a m → P (f a m))
    → (r : Run A) → Returns Q r
    → P (r >>= f)
Returns-bind P f step (ok a m) h = step a m h
Returns-bind P f step panicked h = absurd h
Returns-bind P f step (segv m) h = absurd h

-- What follows a call of get_free_page may rely on its promise.
pub get_free_page-bind :
    {B : Type 0} (P : Run B → Type 0) (m : Mem) (f : ℕ → Mem → Run B)
    → ((p : ℕ) (m' : Mem) → Got m p m' → P (f p m'))
    → P (get_free_page m >>= f)
get_free_page-bind P m f step = Returns-bind P f step (get_free_page m) (get_free_page-Got m)
