-- ===== src/Console/Edits.antt =====
-- What edits the screen, and what writes a character, keeps the cursor on the screen
-- (kernel/console.c).
use linux_0_1_1_comment.Prelude.{
  ltb, leb, ◌==◌, ◌=/=◌, ltb→lt, if_both, ℕ, zero, suc, ◌+◌, ◌-◌, ◌*◌, ◌%◌, ◌≤◌, ◌<◌, Bool, arith,
}
use linux_0_1_1_comment.Console.{lines, columns, n_par, Screen}
use linux_0_1_1_comment.Console.Cursor.{
  OnScreen, vram-OnScreen, moved-OnScreen, left-OnScreen, down-OnScreen, lf_column,
}
use linux_0_1_1_comment.Console.Edit.{csi_J, csi_K, insert_char, delete_char, below_cursor, times}
use linux_0_1_1_comment.Console.Scroll.{del}
use linux_0_1_1_comment.Console.Write.{save_cur, restore_cur, wrap_line, put_char, tab}
use linux_0_1_1_comment.Word.{add, sub}

pub times-OnScreen :
    (n : ℕ) (g : Screen → Screen) (s : Screen)
    → ((t : Screen) → OnScreen t → OnScreen (g t))
    → OnScreen s
    → OnScreen (times n g s)
unfolding times
times-OnScreen zero g s keeps f = f
times-OnScreen (suc n) g s keeps f = times-OnScreen n g (g s) keeps (keeps s f)

pub insert_char-OnScreen : (s : Screen) → OnScreen s → OnScreen (insert_char s)
unfolding insert_char
insert_char-OnScreen s f = vram-OnScreen s _ f

pub delete_char-OnScreen : (s : Screen) → OnScreen s → OnScreen (delete_char s)
unfolding delete_char
delete_char-OnScreen s f = if_both OnScreen (leb columns s.x) (λ e. f) (λ e. vram-OnScreen s _ f)

pub below_cursor-OnScreen :
    (g : Screen → Screen) (s : Screen)
    → ((t : Screen) → OnScreen t → OnScreen (g t))
    → OnScreen s
    → OnScreen (below_cursor g s)
below_cursor-OnScreen g s keeps f =
    let h =
      keeps (record s { top = s.y; bottom = lines })
        (record {
          cursor = f.cursor;
          region = (f.cursor.line, omega arith);
          saved = f.saved;
          parse = f.parse;
        }) in
    record { cursor = h.cursor; region = f.region; saved = h.saved; parse = h.parse }

pub csi_J-OnScreen : (n : ℕ) (s : Screen) → OnScreen s → OnScreen (csi_J n s)
unfolding csi_J
csi_J-OnScreen n s f =
    if_both OnScreen (n == 0) (λ e. vram-OnScreen s _ f)
      (λ e.
        if_both OnScreen (n == 1) (λ e. vram-OnScreen s _ f)
          (λ e. if_both OnScreen (n == 2) (λ e. vram-OnScreen s _ f) (λ e. f)))

pub csi_K-OnScreen : (n : ℕ) (s : Screen) → OnScreen s → OnScreen (csi_K n s)
unfolding csi_K
csi_K-OnScreen n s f =
    if_both OnScreen (n == 0)
      (λ e. if_both OnScreen (leb columns s.x) (λ e. f) (λ e. vram-OnScreen s _ f))
      (λ e.
        if_both OnScreen (n == 1) (λ e. vram-OnScreen s _ f)
          (λ e. if_both OnScreen (n == 2) (λ e. vram-OnScreen s _ f) (λ e. f)))

pub save_cur-OnScreen : (s : Screen) → OnScreen s → OnScreen (save_cur s)
save_cur-OnScreen s f = record {
  cursor = f.cursor;
  region = f.region;
  saved = (f.cursor.column, f.cursor.line);
  parse = f.parse;
}

pub restore_cur-OnScreen : (s : Screen) → OnScreen s → OnScreen (restore_cur s)
unfolding add
restore_cur-OnScreen s f =
    let (column, line) = f.saved in
    record {
      cursor = record {
        column = column;
        line = line;
        shown = omega arith;
        size = f.cursor.size;
        low = f.cursor.low;
        high = f.cursor.high;
      };
      region = f.region;
      saved = f.saved;
      parse = f.parse;
    }

-- what the parser keeps for itself
pub parse-OnScreen :
    (s : Screen) (state npar attr answers : ℕ) (par : ℕ → ℕ) (ques : Bool)
    → state ≤ 3
    → npar < n_par
    → OnScreen s
    → OnScreen (record s {
      state = state;
      npar = npar;
      attr = attr;
      answers = answers;
      par = par;
      ques = ques;
    })
parse-OnScreen s state npar attr answers par ques le lt f = record {
  cursor = f.cursor;
  region = f.region;
  saved = f.saved;
  parse = (le, lt);
}

-- the next state, with all else as it is
pub state-OnScreen : (s : Screen) (n : ℕ) → n ≤ 3 → OnScreen s → OnScreen (record s { state = n })
state-OnScreen s n le f = parse-OnScreen s n s.npar s.attr s.answers s.par s.ques le (f.parse.1) f

pub par-OnScreen : (s : Screen) (par : ℕ → ℕ) → OnScreen s → OnScreen (record s { par = par })
par-OnScreen s par f =
    parse-OnScreen s s.state s.npar s.attr s.answers par s.ques (f.parse.0) (f.parse.1) f

pub wrap_line-OnScreen :
    (s : Screen) → OnScreen s → OnScreen (wrap_line s) × ((wrap_line s).x < columns)
wrap_line-OnScreen s f =
    if_both (λ (t : Screen). OnScreen t × (t.x < columns)) (leb columns s.x)
      (λ e. (
        down-OnScreen s s.x s.pos (ground arith) (omega arith) f.cursor.shown f,
        (let z = lf_column (record s { x = s.x - columns; pos = sub s.pos (2 * columns) }) in
            omega arith),
      ))
      (λ e. (f, ground arith))

pub put_char-OnScreen : (c : ℕ) (s : Screen) → s.x < columns → OnScreen s → OnScreen (put_char c s)
unfolding add
put_char-OnScreen c s lt f = record {
  cursor = record {
    column = omega arith;
    line = f.cursor.line;
    shown = omega arith;
    size = f.cursor.size;
    low = f.cursor.low;
    high = f.cursor.high;
  };
  region = f.region;
  saved = f.saved;
  parse = f.parse;
}

pub tab-OnScreen : (s : Screen) → OnScreen s → OnScreen (tab s)
unfolding add
tab-OnScreen s f =
    let c = 8 - s.x % 8 in
    if_both OnScreen (ltb columns (s.x + c))
      (λ e.
        let lt = ltb→lt columns (s.x + c) e in
        down-OnScreen s (s.x + c) (add s.pos (2 * c)) (omega arith) (omega arith) (omega arith) f)
      (λ e. moved-OnScreen s (s.x + c) s.y _ (ground (arith, e)) f.cursor.line (omega arith) f)

pub del-OnScreen : (s : Screen) → OnScreen s → OnScreen (del s)
unfolding del
del-OnScreen s f =
    if_both OnScreen (s.x =/= 0) (λ e. vram-OnScreen _ _ (left-OnScreen s e f)) (λ e. f)
