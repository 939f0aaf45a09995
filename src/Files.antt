-- ===== src/Files.antt =====
-- The file descriptors of a process and the counts of the file table: fs/fcntl.c (dupfd, sys_dup,
-- sys_dup2), sys_close of fs/open.c, and the loop of copy_process (kernel/fork.c) over `filp`.
-- Files are named by their index in file_table[].
pub mod Refs
pub mod Dup
pub mod Close
use linux_0_1_1_comment.Prelude.{
  ltb, leb, ◌==◌, ◌=/=◌, if◌then◌else◌, update, ℕ, zero, suc, ◌+◌, ◌-◌, ◌/◌, ◌%◌, ◌^◌, Option, none,
  some,
}

abbrev pub nr_open : ℕ
nr_open = 20

-- -EBADF, -EINVAL and -EMFILE
abbrev pub ebadf : ℕ
ebadf = 0xfffffff7

abbrev pub einval : ℕ
einval = 0xffffffea

abbrev pub emfile : ℕ
emfile = 0xffffffe8

-- `filp` and `close_on_exec` of the current task, and `f_count` of each file
pub record Files : Type 0 where
  pub filp : ℕ → Option ℕ
  pub close_on_exec : ℕ
  pub count : ℕ → ℕ

abbrev pub without_bit : ℕ → ℕ → ℕ
without_bit word k = if word / 2 ^ k % 2 == 1 then word - 2 ^ k else word

-- f_count is an unsigned short
abbrev pub f_count_up : ℕ → (ℕ → ℕ) → ℕ → ℕ
f_count_up f count = update count f ((count f + 1) % 65536)

abbrev pub f_count_down : ℕ → (ℕ → ℕ) → ℕ → ℕ
f_count_down f count = update count f ((count f + 65535) % 65536)

-- while (arg < NR_OPEN) if (current->filp[arg]) arg++; else break;
unfoldable pub first_free : ℕ → ℕ → (ℕ → Option ℕ) → ℕ
first_free zero arg filp = arg
first_free (suc rounds) arg filp =
    let rest = first_free rounds (arg + 1) filp in
    if ltb arg nr_open then elim (filp arg) [ none ↦ arg | some _ ↦ rest ] else arg

-- the end of dupfd, for the descriptor found
unfoldable pub dup_at : ℕ → ℕ → Files → ℕ × Files
dup_at f arg s = if leb nr_open arg then (emfile, s) else (
  arg,
  record {
    filp = update s.filp arg (some f);
    close_on_exec = without_bit s.close_on_exec arg;
    count = f_count_up f s.count;
  },
)

unfoldable pub dupfd : ℕ → ℕ → Files → ℕ × Files
dupfd fd arg s = if leb nr_open fd then (ebadf, s) else elim (s.filp fd) [
  | none ↦ (ebadf, s)
  | some f ↦ if leb nr_open arg then (einval, s) else dup_at f (first_free nr_open arg s.filp) s
]

unfoldable pub sys_dup : ℕ → Files → ℕ × Files
sys_dup fildes = dupfd fildes 0

-- What sys_close does: an error (-EINVAL), a panic, a descriptor less, or the last one of its file, whose
-- inode is then handed to iput.
pub data Closed : Type 0 where
  bad : Files → Closed
  close_panic : Closed
  still_open : Files → Closed
  last_one : ℕ → Files → Closed

-- the end of sys_close, once the descriptor is cleared
unfoldable pub drop_file : ℕ → Files → Closed
drop_file f s =
    if s.count f == 0
    then close_panic
    else (let t = record s { count = f_count_down f s.count } in
        if t.count f =/= 0 then still_open t else last_one f t)

unfoldable pub sys_close : ℕ → Files → Closed
sys_close fd s =
    if leb nr_open fd
    then bad s
    else (let t = record s { close_on_exec = without_bit s.close_on_exec fd } in
        elim (s.filp fd) [
          | none ↦ bad t
          | some f ↦ drop_file f (record t { filp = update s.filp fd none })
        ])

-- the state that sys_close leaves, unless it panics
abbrev pub closed_files : Closed → Option Files
closed_files (bad s) = some s
closed_files close_panic = none
closed_files (still_open s) = some s
closed_files (last_one f s) = some s

abbrev pub then_dupfd : ℕ → ℕ → Option Files → Option (ℕ × Files)
then_dupfd oldfd newfd none = none
then_dupfd oldfd newfd (some t) = some (dupfd oldfd newfd t)

-- sys_dup2 calls sys_close and does not look at its result.
unfoldable pub sys_dup2 : ℕ → ℕ → Files → Option (ℕ × Files)
sys_dup2 oldfd newfd s = then_dupfd oldfd newfd (closed_files (sys_close newfd s))

-- if (f=p->filp[i]) f->f_count++
unfoldable pub share_file : Option ℕ → (ℕ → ℕ) → ℕ → ℕ
share_file none count = count
share_file (some f) count = f_count_up f count

-- copy_process: for (i=0; i<NR_OPEN;i++), the last ones first
unfoldable pub share_files : ℕ → (ℕ → Option ℕ) → (ℕ → ℕ) → ℕ → ℕ
share_files zero filp count = count
share_files (suc n) filp count = share_file (filp n) (share_files n filp count)
