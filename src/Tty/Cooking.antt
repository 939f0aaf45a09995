-- ===== src/Tty/Cooking.antt =====
-- tty_intr and copy_to_cooked of kernel/tty_io.c. `write` is what tty->write does to the queue of
-- the output, and `upper` what isupper finds for bytes from 128 on.
use linux_0_1_1_comment.Prelude.{
  ltb, leb, ◌==◌, if◌then◌else◌, ℕ, zero, suc, ◌+◌, ◌-◌, ◌%◌, Bool, true, false, not, ◌&&◌, ◌||◌,
  Option, none, some,
}
use linux_0_1_1_comment.Sched.{Task, Tasks, with_bit, on_task, for_tasks}
use linux_0_1_1_comment.Tty.{
  TtyQueue, dec, is_empty, last_of, is_full, chars_in, getch, putch, Termios, vintr, verase, veof,
  vstart, vstop, is_cc, Tty, tolower,
}
use linux_0_1_1_comment.Word.{add, is_neg}

-- a task of the group gets the signal
abbrev pub signal_group : ℕ → ℕ → Task → Task
signal_group pgrp signal t =
    if t.pgrp == pgrp then record t { signal = with_bit t.signal (signal - 1) } else t

-- slots 0 to 63
unfoldable pub tty_intr : ℕ → ℕ → Tasks → Tasks
tty_intr pgrp signal ts =
    if is_neg pgrp || (pgrp == 0)
    then ts
    else for_tasks (signal_group pgrp signal) 63 (on_task (signal_group pgrp signal) 0 ts)

-- ^M and ^J; none is `continue`
unfoldable pub cr_or_nl : Termios → ℕ → Option ℕ
cr_or_nl t c =
    if c == 13
    then (if t.icrnl then some 10 else if t.igncr then none else some c)
    else if (c == 10) && t.inlcr
    then some 13
    else some c

-- c < 32 of a signed char
abbrev pub is_control : ℕ → Bool
is_control c = ltb c 32 || leb 128 c

-- c == 10 || c == EOF_CHAR(tty)
abbrev pub ends_line : Termios → ℕ → Bool
ends_line t c = (c == 10) || is_cc t veof c

abbrev pub drop_last : Tty → Tty
drop_last tty = record tty { secondary = record tty.secondary { head = dec tty.secondary.head } }

abbrev pub count_end : ℕ → Tty → Tty
count_end c tty =
    if ends_line tty.termios c
    then record tty {
      secondary = record tty.secondary { line_count = add tty.secondary.line_count 1 };
    }
    else tty

abbrev pub put_secondary : ℕ → Tty → Tty
put_secondary c tty = record tty { secondary = putch c tty.secondary }

module _ (write : TtyQueue → TtyQueue) where
  abbrev pub echo_erase : ℕ → Tty → Tty
  echo_erase c tty =
      if tty.termios.echo
      then record tty {
        write_q = write (putch 127 (if is_control c then putch 127 tty.write_q else tty.write_q));
      }
      else tty

  -- the erase character
  unfoldable pub erase : Tty → Tty
  erase tty =
      if is_empty tty.secondary || ends_line tty.termios (last_of tty.secondary)
      then tty
      else drop_last (echo_erase (last_of tty.secondary) tty)

  abbrev pub echo_char : ℕ → Tty → Tty
  echo_char c tty =
      if tty.termios.echo
      then record tty {
        write_q = write (
            if c == 10
            then putch 13 (putch 10 tty.write_q)
            else if is_control c
            then (if tty.termios.echoctl
                then putch ((c + 64) % 256) (putch b'^' tty.write_q)
                else tty.write_q)
            else putch c tty.write_q);
      }
      else tty

  -- an ordinary character
  unfoldable pub accept : ℕ → Tty → Tty
  accept c tty = put_secondary c (echo_char c (count_end c tty))

  unfoldable pub cook_char : ℕ → Tty → Tty
  cook_char c tty =
      if tty.termios.icanon && is_cc tty.termios verase c
      then erase tty
      else if tty.termios.icanon && is_cc tty.termios vstop c
      then record tty { stopped = true }
      else if tty.termios.icanon && is_cc tty.termios vstart c
      then record tty { stopped = false }
      else if not tty.termios.isig && is_cc tty.termios vintr c
      then record tty { tasks = tty_intr tty.pgrp 2 tty.tasks }
      else accept c tty

  module _ (upper : ℕ → Bool) where
    abbrev pub cook_mapped : Option ℕ → Tty → Tty
    cook_mapped none tty = tty
    cook_mapped (some c) tty = cook_char (if tty.termios.iuclc then tolower upper c else c) tty

    -- one round of the loop
    unfoldable pub cook_next : Tty → Tty
    cook_next tty =
        cook_mapped (cr_or_nl tty.termios (tty.read_q.buf tty.read_q.tail))
          (record tty { read_q = getch tty.read_q })

    unfoldable pub cook_loop : ℕ → Tty → Tty
    cook_loop zero tty = tty
    cook_loop (suc fuel) tty =
        let rest = cook_loop fuel (cook_next tty) in
        if is_empty tty.read_q || is_full tty.secondary then tty else rest

    -- Each round takes a character of read_q. The wake_up of the readers at the end is left out.
    unfoldable pub copy_to_cooked : Tty → Tty
    copy_to_cooked tty = cook_loop (chars_in tty.read_q) tty
