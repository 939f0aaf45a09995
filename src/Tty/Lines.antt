-- ===== src/Tty/Lines.antt =====
-- copy_to_cooked of kernel/tty_io.c on a list: the line that is typed, newest character first.
use linux_0_1_1_comment.Prelude.{
  if◌then◌else◌, ℕ, ◌+◌, ◌≡◌, Bool, true, false, not, ◌&&◌, Option, none, some, List, [], ◌∷◌,
}
use linux_0_1_1_comment.Tty.{TtyQueue, Termios, vintr, verase, vstart, vstop, is_cc, Tty, tolower}
use linux_0_1_1_comment.Tty.Cooking.{cr_or_nl, ends_line}
use linux_0_1_1_comment.Tty.Queues.{IsQueue, typed}

pub record Line : Type 0 where
  pub text : List ℕ
  pub held : Bool

-- Each end of a line or of the file counts.
unfoldable pub count_ends : Termios → List ℕ → ℕ
count_ends t [] = 0
count_ends t (c ∷ cs) = if ends_line t c then count_ends t cs + 1 else count_ends t cs

-- What the erase character leaves: it stops at the end of the line before.
unfoldable pub erased : Termios → List ℕ → List ℕ
erased t [] = []
erased t (c ∷ cs) = if ends_line t c then c ∷ cs else cs

unfoldable pub line_char : Termios → ℕ → Line → Line
line_char t c l =
    if t.icanon && is_cc t verase c
    then record l { text = erased t l.text }
    else if t.icanon && is_cc t vstop c
    then record l { held = true }
    else if t.icanon && is_cc t vstart c
    then record l { held = false }
    else if not t.isig && is_cc t vintr c
    then l
    else record l { text = c ∷ l.text }

abbrev pub line_mapped : (ℕ → Bool) → Termios → Option ℕ → Line → Line
line_mapped upper t none l = l
line_mapped upper t (some c) l = line_char t (if t.iuclc then tolower upper c else c) l

unfoldable pub line_all : (ℕ → Bool) → Termios → List ℕ → Line → Line
line_all upper t [] l = l
line_all upper t (c ∷ cs) l = line_all upper t cs (line_mapped upper t (cr_or_nl t c) l)

-- The secondary queue holds the line, and counts its ends.
pub record Shows (t : Termios) (r : TtyQueue) (l : Line) (tty : Tty) : Type 0 where
  pub settings : tty.termios ≡ t
  pub ring : IsQueue tty.secondary
  pub shown : typed tty.secondary ≡ l.text
  pub counted : tty.secondary.line_count ≡ count_ends t l.text
  pub flag : tty.stopped ≡ l.held
  pub input : tty.read_q ≡ r
