-- ===== src/Tty/Calls.antt =====
-- The copying loops of tty_read and tty_write (kernel/tty_io.c).
use linux_0_1_1_comment.Prelude.{
  ◌==◌, if◌then◌else◌, ℕ, zero, suc, Bool, true, false, not, ◌&&◌, List, [], ◌∷◌,
}
use linux_0_1_1_comment.Tty.{
  TtyQueue, is_empty, is_full, getch, putch, Termios, veof, is_cc, toupper,
}
use linux_0_1_1_comment.Tty.Cooking.{ends_line}
use linux_0_1_1_comment.Word.{sub}

-- the bytes given to the caller, whether an end of file ended them, and the queue
pub record Taken : Type 0 where
  pub bytes : List ℕ
  pub at_eof : Bool
  pub queue : TtyQueue

abbrev pub count_off : Termios → ℕ → TtyQueue → TtyQueue
count_off t c q = if ends_line t c then record q { line_count = sub q.line_count 1 } else q

-- do { GETCH ... } while (nr>0 && !EMPTY(tty->secondary)), for a queue that is not empty
unfoldable pub take_loop : ℕ → Termios → TtyQueue → Taken
take_loop zero t q = record { bytes = []; at_eof = false; queue = q }
take_loop (suc nr) t q =
    let c = q.buf q.tail in
    let q' = count_off t c (getch q) in
    let rest = take_loop nr t q' in
    if is_cc t veof c && t.icanon
    then record { bytes = []; at_eof = true; queue = q' }
    else if is_empty q'
    then record { bytes = c ∷ []; at_eof = false; queue = q' }
    else record rest { bytes = c ∷ rest.bytes }

-- the bytes that are left, cr_flag, and the queue
pub record Sending : Type 0 where
  pub left_over : List ℕ
  pub cr_flag : Bool
  pub queue : TtyQueue

-- the changes of OCRNL and ONLRET
abbrev pub out_char : Termios → ℕ → ℕ
out_char t c =
    if t.opost
    then (if (c == 13) && t.ocrnl then 10 else if (c == 10) && t.onlret then 13 else c)
    else c

-- one round: a ^M before a new line, or the character
unfoldable pub send_char : (ℕ → Bool) → Termios → ℕ → List ℕ → Sending → Sending
send_char lower t b bs s =
    let c = out_char t b in
    if t.opost && (c == 10) && not s.cr_flag && t.onlcr
    then record s { cr_flag = true; queue = putch 13 s.queue }
    else record {
      left_over = bs;
      cr_flag = false;
      queue = putch (if t.opost && t.olcuc then toupper lower c else c) s.queue;
    }

abbrev pub send_next : (ℕ → Bool) → Termios → List ℕ → Sending → Sending
send_next lower t [] s = s
send_next lower t (b ∷ bs) s = send_char lower t b bs s

-- while (nr>0 && !FULL(tty->write_q)), with `fuel` rounds
unfoldable pub send_loop : (ℕ → Bool) → Termios → ℕ → Sending → Sending
send_loop lower t zero s = s
send_loop lower t (suc fuel) s =
    if is_full s.queue then s else send_loop lower t fuel (send_next lower t s.left_over s)
