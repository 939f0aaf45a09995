-- ===== src/Mm.antt =====
-- mm/memory.c: the physical page allocator, the two-level page tables, and the page faults.
-- The constants are those of include/linux/config.h for the 8 Mb machine (LINUS_HD).
pub mod Alloc
pub mod Tables
pub mod Faults
pub mod Cow
pub mod Demand
pub mod Clone
pub mod Fork
pub mod Release
use linux_0_1_1_comment.Prelude.{
  ℕ, zero, suc, ◌+◌, ◌-◌, ◌*◌, ◌/◌, ◌%◌, Bool, ◌&&◌, Option, none, some, ltb, leb, ◌==◌, ◌=/=◌,
  if◌then◌else◌, update,
}
use linux_0_1_1_comment.Word.{modulus}

abbrev pub low_mem : ℕ
low_mem = 0x200000

abbrev pub high_memory : ℕ
high_memory = 0x800000

-- (HIGH_MEMORY - LOW_MEM) / 4096
abbrev pub paging_pages : ℕ
paging_pages = 1536

-- `mem_map` counts the users of each page; `ram` is the physical memory, by the address of an
-- aligned word. `_pg_dir` lies at address 0.
pub record Mem : Type 0 where
  pub mem_map : ℕ → ℕ
  pub ram : ℕ → ℕ

-- A routine returns, stops the machine by `panic`, or ends the process by `do_exit(SIGSEGV)`.
pub data Run {ℓ} (A : Type ℓ) : Type ℓ where
  ok : A → Mem → Run A
  panicked : Run A
  segv : Mem → Run A

infixl 5 ◌>>=◌
abbrev pub ◌>>=◌ {ℓ κ} : {A : Type ℓ} {B : Type κ} → Run A → (A → Mem → Run B) → Run B
ok a m >>= f = f a m
panicked >>= f = panicked
segv m >>= f = segv m

-- `entry & 1`, `entry & 0xfffff000`, `entry & ~2`, `entry | 2` and `page | 7` on 32-bit words
abbrev pub present : ℕ → Bool
present e = e % 2 == 1

abbrev pub frame : ℕ → ℕ
frame e = e / 4096 * 4096

abbrev pub read_only : ℕ → ℕ
read_only e = e - 2 * (e / 2 % 2)

abbrev pub writable : ℕ → ℕ
writable e = e / 4 * 4 + 2 + e % 2

abbrev pub user_rw : ℕ → ℕ
user_rw page = page / 8 * 8 + 7

-- `(address>>20) & 0xffc`: the directory entry of a linear address, and
-- `(address>>10) & 0xffc`: the offset of its entry in the page table
abbrev pub dir_entry : ℕ → ℕ
dir_entry address = address / 0x400000 % 1024 * 4

abbrev pub table_offset : ℕ → ℕ
table_offset address = address / 4096 % 1024 * 4

abbrev pub poke : Mem → ℕ → ℕ → Mem
poke m p v = record m { ram = update m.ram p v }

-- MAP_NR
abbrev pub map_nr : ℕ → ℕ
map_nr page = (page - low_mem) / 4096

abbrev pub page_of : ℕ → ℕ
page_of i = low_mem + i * 4096

-- `mem_map` holds unsigned shorts
abbrev pub count_up : Mem → ℕ → Mem
count_up m i = record m { mem_map = update m.mem_map i ((m.mem_map i + 1) % 65536) }

abbrev pub count_down : Mem → ℕ → Mem
count_down m i = record m { mem_map = update m.mem_map i ((m.mem_map i + 65535) % 65536) }

-- `std; repne; scasw` from the last entry down: the free entry with the greatest index below `n`.
unfoldable pub scan_free : (ℕ → ℕ) → ℕ → Option ℕ
scan_free counts zero = none
scan_free counts (suc n) = if counts n == 0 then some n else scan_free counts n

-- `rep; stosl` over the 1024 words of a page
abbrev pub clear_page : (ℕ → ℕ) → ℕ → ℕ → ℕ
clear_page ram page a = if leb page a && ltb a (page + 4096) then 0 else ram a

-- `rep; movsl` over the 1024 words of a page
abbrev pub copy_page : (ℕ → ℕ) → ℕ → ℕ → ℕ → ℕ
copy_page ram from to a = if leb to a && ltb a (to + 4096) then ram (from + (a - to)) else ram a

unfoldable pub take_page : Mem → Option ℕ → Run ℕ
take_page m none = ok 0 m
take_page m (some i) =
    ok (page_of i) (record { mem_map = update m.mem_map i 1; ram = clear_page m.ram (page_of i) })

unfoldable pub get_free_page : Mem → Run ℕ
get_free_page m = take_page m (scan_free m.mem_map paging_pages)

unfoldable pub free_page : ℕ → Mem → Run (Unit {0})
free_page addr m =
    if ltb addr low_mem
    then ok tt m
    else (if ltb high_memory addr
        then panicked
        else (if m.mem_map (map_nr addr) =/= 0
            then ok tt (count_down m (map_nr addr))
            else panicked))
