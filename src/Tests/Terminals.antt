-- ===== src/Tests/Terminals.antt =====
-- A console whose user types "hi", the erase character and ^M.
use linux_0_1_1_comment.Prelude.{update, ◌≡◌, refl, true, false, none, [], ◌∷◌, arith}
use linux_0_1_1_comment.Tty.{TtyQueue, Termios, Tty}
use linux_0_1_1_comment.Tty.Calls.{take_loop, send_loop}
use linux_0_1_1_comment.Tty.Cooking.{
  cr_or_nl, erase, accept, cook_char, cook_next, cook_loop, copy_to_cooked,
}
use linux_0_1_1_comment.Tty.Lines.{Line, count_ends, Shows}
use linux_0_1_1_comment.Tty.Queues.{newest, oldest}
use linux_0_1_1_comment.Tty.Rounds.{Cooked, copy_to_cooked-Cooked}
use linux_0_1_1_comment.Tty.Sent.{sent, Sent, sending, send_loop-Sent}
use linux_0_1_1_comment.Tty.Signal.{Interrupts, cook_char-Interrupts}
use linux_0_1_1_comment.Tty.Taken.{Exact, TakesLine, take_loop-TakesLine}
use linux_0_1_1_comment.Word.{add}

abbrev console_settings : Termios
console_settings = record {
  iuclc = false;
  inlcr = false;
  icrnl = true;
  igncr = false;
  opost = true;
  onlcr = true;
  ocrnl = false;
  onlret = false;
  olcuc = false;
  icanon = true;
  isig = false;
  echo = true;
  echoctl = true;
  c_cc = update (update (update (update (update (λ k. 0) 0 3) 2 127) 4 4) 8 17) 9 19;
}

abbrev nothing_in : TtyQueue
nothing_in = record { line_count = 0; head = 1020; tail = 1020; buf = λ i. 0 }

abbrev console : Tty
console = record {
  termios = console_settings;
  pgrp = 1;
  stopped = false;
  read_q = record {
    line_count = 0;
    head = 4;
    tail = 0;
    buf = update (update (update (update (λ i. 0) 0 b'h') 1 b'i') 2 127) 3 13;
  };
  write_q = nothing_in;
  secondary = nothing_in;
  tasks = λ i. none;
}

abbrev no_text : Line
no_text = record { text = []; held = false }

console-Shows : Shows console_settings console.read_q no_text console
unfolding newest count_ends
console-Shows = record {
  settings = refl;
  ring = record { head_small = omega arith; tail_small = omega arith };
  shown = refl;
  counted = refl;
  flag = refl;
  input = refl;
}

copy_to_cooked-Cooked_example :
    Cooked
      (λ c. false)
      console_settings
      console.read_q
      no_text
      (copy_to_cooked (λ q. q) (λ c. false) console)
copy_to_cooked-Cooked_example =
    copy_to_cooked-Cooked (λ q. q) (λ c. false) console_settings no_text console
      (record { head_small = omega arith; tail_small = omega arith }) console-Shows

typed_run : (copy_to_cooked (λ q. q) (λ c. false) console).secondary.line_count ≡ 1
unfolding copy_to_cooked cook_loop cook_next cook_char erase accept cr_or_nl add
typed_run = refl

-- a queue that holds "a" and a new line
abbrev two_chars : TtyQueue
two_chars = record {
  line_count = 1;
  head = 2;
  tail = 0;
  buf = update (update (λ i. 0) 0 b'a') 1 10;
}

two_chars-Exact : Exact console_settings two_chars
unfolding oldest count_ends
two_chars-Exact = record {
  ring = record { head_small = omega arith; tail_small = omega arith };
  exact = refl;
}

take_loop-TakesLine_example :
    TakesLine console_settings 10 two_chars (take_loop 10 console_settings two_chars)
take_loop-TakesLine_example = take_loop-TakesLine 10 console_settings two_chars two_chars-Exact refl

send_loop-Sent_example :
    Sent
      (λ c. false)
      console_settings
      (b'a' ∷ 10 ∷ [])
      nothing_in
      (send_loop (λ c. false) console_settings 4 (sending (b'a' ∷ 10 ∷ []) false nothing_in))
send_loop-Sent_example =
    send_loop-Sent (λ c. false) console_settings (b'a' ∷ 10 ∷ []) 4 nothing_in
      (record { head_small = omega arith; tail_small = omega arith }) (omega arith) (omega arith)

sent_run : sent (λ c. false) console_settings (b'a' ∷ 10 ∷ []) [] ≡ 10 ∷ 13 ∷ b'a' ∷ []
unfolding sent
sent_run = refl

abbrev raw_console : Tty
raw_console = record console { termios = record console_settings { icanon = false } }

cook_char-Interrupts_example : Interrupts 3 raw_console (cook_char (λ q. q) 3 raw_console)
cook_char-Interrupts_example =
    cook_char-Interrupts (λ q. q) 3 raw_console refl refl (omega arith) (omega arith)
      (record { head_small = omega arith; tail_small = omega arith }) refl
