-- ===== src/Tty.antt =====
-- include/linux/tty.h and kernel/tty_io.c: the queues of a terminal, the input that copy_to_cooked
-- makes lines of, and the copying loops of tty_read and tty_write. A byte is a number below 256,
-- and as a signed char it is negative from 128 on. The tasks that sleep on a queue are left out.
pub mod Cooking
pub mod Calls
pub mod Queues
pub mod Lines
pub mod Keys
pub mod Rounds
pub mod Sent
pub mod Taken
pub mod Signal
use linux_0_1_1_comment.Prelude.{
  ltb, leb, ◌==◌, if◌then◌else◌, update, ℕ, ◌+◌, ◌-◌, ◌%◌, Bool, ◌&&◌,
}
use linux_0_1_1_comment.Sched.{Tasks}
use linux_0_1_1_comment.Word.{modulus}

-- struct tty_queue; `line_count` is its field `data`.
pub record TtyQueue : Type 0 where
  pub line_count : ℕ
  pub head : ℕ
  pub tail : ℕ
  pub buf : ℕ → ℕ

-- INC, DEC, EMPTY, LEFT, LAST, FULL and CHARS
abbrev pub inc : ℕ → ℕ
inc a = (a + 1) % 1024

abbrev pub dec : ℕ → ℕ
dec a = (a + modulus - 1) % 1024

abbrev pub is_empty : TtyQueue → Bool
is_empty q = q.head == q.tail

abbrev pub room_left : TtyQueue → ℕ
room_left q = (q.tail + modulus - q.head + modulus - 1) % 1024

abbrev pub last_of : TtyQueue → ℕ
last_of q = q.buf (dec q.head)

abbrev pub is_full : TtyQueue → Bool
is_full q = room_left q == 0

abbrev pub chars_in : TtyQueue → ℕ
chars_in q = (q.head + modulus - q.tail) % 1024

-- GETCH, whose character is `q.buf q.tail`, and PUTCH
abbrev pub getch : TtyQueue → TtyQueue
getch q = record q { tail = inc q.tail }

abbrev pub putch : ℕ → TtyQueue → TtyQueue
putch c q = record q { buf = update q.buf q.head c; head = inc q.head }

-- The flags of the input, the output and the line that tty_io.c looks at, and the characters.
pub record Termios : Type 0 where
  pub iuclc : Bool
  pub inlcr : Bool
  pub icrnl : Bool
  pub igncr : Bool
  pub opost : Bool
  pub onlcr : Bool
  pub ocrnl : Bool
  pub onlret : Bool
  pub olcuc : Bool
  pub icanon : Bool
  pub isig : Bool
  pub echo : Bool
  pub echoctl : Bool
  pub c_cc : ℕ → ℕ

abbrev pub vintr : ℕ
vintr = 0

abbrev pub verase : ℕ
verase = 2

abbrev pub veof : ℕ
veof = 4

abbrev pub vstart : ℕ
vstart = 8

abbrev pub vstop : ℕ
vstop = 9

-- c == X_CHAR(tty), of a signed char and an unsigned one
abbrev pub is_cc : Termios → ℕ → ℕ → Bool
is_cc t k c = (c == t.c_cc k) && ltb c 128

-- The tty_struct, and the tasks that tty_intr signals.
pub record Tty : Type 0 where
  pub termios : Termios
  pub pgrp : ℕ
  pub stopped : Bool
  pub read_q : TtyQueue
  pub write_q : TtyQueue
  pub secondary : TtyQueue
  pub tasks : Tasks

-- tolower and toupper of include/ctype.h. For a byte from 128 on the table is read in front of its
-- start, and `upper` and `lower` say what is found.
unfoldable pub tolower : (ℕ → Bool) → ℕ → ℕ
tolower upper c =
    if if ltb c 128 then leb b'A' c && leb c b'Z' else upper c then (c + (b'a' + b'A')) % 256 else c

unfoldable pub toupper : (ℕ → Bool) → ℕ → ℕ
toupper lower c =
    if if ltb c 128 then leb b'a' c && leb c b'z' else lower c
    then (c + 256 + b'A' - b'a') % 256
    else c
