-- ===== src/Pipe.antt =====
-- fs/pipe.c: read_pipe and write_pipe, on a page used as a ring (the PIPE_ macros of
-- include/linux/fs.h). A call ends, or stops where it would sleep;
-- one that goes on is a new call, which for write_pipe looks for a reader first.
pub mod Ring
pub mod Fifo
pub mod History
use linux_0_1_1_comment.Prelude.{
  ◌==◌, ◌=/=◌, if◌then◌else◌, update, ℕ, zero, suc, ◌+◌, ◌-◌, ◌%◌, Bool, List, [], ◌∷◌,
}
use linux_0_1_1_comment.Word.{modulus}

-- PIPE_HEAD, PIPE_TAIL, the page at i_size, and i_count: 2 while both ends are open
pub record Pipe : Type 0 where
  pub head : ℕ
  pub tail : ℕ
  pub page : ℕ → ℕ
  pub ends : ℕ

-- PIPE_SIZE, PIPE_EMPTY, PIPE_FULL
abbrev pub pipe_size : Pipe → ℕ
pipe_size p = (p.head + modulus - p.tail) % 4096

abbrev pub pipe_empty : Pipe → Bool
pipe_empty p = p.head == p.tail

abbrev pub pipe_full : Pipe → Bool
pipe_full p = pipe_size p == 4095

-- INC_PIPE
abbrev pub inc_pipe : ℕ → ℕ
inc_pipe n = (n + 1) % 4096

-- one round of the copying loop of read_pipe, and of write_pipe
abbrev pub get_byte : Pipe → Pipe
get_byte p = record p { tail = inc_pipe p.tail }

abbrev pub put_byte : Pipe → ℕ → Pipe
put_byte p b = record p { page = update p.page p.head b; head = inc_pipe p.head }

-- while (count>0 && !(PIPE_EMPTY(*inode)))
unfoldable pub read_loop : ℕ → Pipe → List ℕ × Pipe
read_loop zero p = ([], p)
read_loop (suc count) p =
    let r = read_loop count (get_byte p) in
    if pipe_empty p then ([], p) else (p.page p.tail ∷ r.0, r.1)

-- The bytes put into the caller's buffer; or the reader sleeps.
pub data ReadResult : Type 0 where
  read_done : List ℕ → Pipe → ReadResult
  read_sleeps : Pipe → ReadResult

unfoldable pub read_pipe : ℕ → Pipe → ReadResult
read_pipe count p =
    if pipe_empty p
    then (if p.ends =/= 2 then read_done [] p else read_sleeps p)
    else (let r = read_loop count p in read_done r.0 r.1)

-- The number of bytes written; or SIGPIPE is set because no reader is left, after so many bytes
-- (the call then returns -1 if it had not begun); or the writer sleeps after so many bytes.
pub data WriteResult : Type 0 where
  write_done : ℕ → Pipe → WriteResult
  sigpipe : ℕ → Pipe → WriteResult
  write_sleeps : ℕ → Pipe → WriteResult

-- while (count-->0)
unfoldable pub write_loop : List ℕ → ℕ → Pipe → WriteResult
write_loop [] done p = write_done done p
write_loop (b ∷ buf) done p =
    let rest = write_loop buf (done + 1) (put_byte p b) in
    if pipe_full p then (if p.ends =/= 2 then sigpipe done p else write_sleeps done p) else rest

unfoldable pub write_pipe : List ℕ → Pipe → WriteResult
write_pipe buf p = if p.ends =/= 2 then sigpipe 0 p else write_loop buf 0 p
