-- ===== src/Console/Write.antt =====
-- con_write of kernel/console.c, for the characters of the queue as a list.
use linux_0_1_1_comment.Prelude.{
  ltb, leb, ◌==◌, ◌=/=◌, if◌then◌else◌, update, ℕ, ◌+◌, ◌-◌, ◌*◌, ◌%◌, false, ◌&&◌, ◌||◌, List, [],
  ◌∷◌,
}
use linux_0_1_1_comment.Console.{screen_start, lines, columns, n_par, Screen, gotoxy}
use linux_0_1_1_comment.Console.Edit.{csi_J, csi_K, csi_m, csi_at, csi_L, csi_P, csi_M}
use linux_0_1_1_comment.Console.Scroll.{lf, ri, cr, del}
use linux_0_1_1_comment.Word.{add, sub, mul}

abbrev pub save_cur : Screen → Screen
save_cur s = record s { saved_x = s.x; saved_y = s.y }

abbrev pub restore_cur : Screen → Screen
restore_cur s = record s {
  x = s.saved_x;
  y = s.saved_y;
  pos = add s.origin (2 * (s.saved_y * columns + s.saved_x));
}

-- if (x>=columns) { ... lf(); }
abbrev pub wrap_line : Screen → Screen
wrap_line s =
    if leb columns s.x
    then lf (record s { x = s.x - columns; pos = sub s.pos (2 * columns) })
    else s

abbrev pub put_char : ℕ → Screen → Screen
put_char c s = record s {
  vram = update s.vram s.pos (c + 256 * s.attr);
  pos = add s.pos 2;
  x = s.x + 1;
}

abbrev pub tab : Screen → Screen
tab s =
    let c = 8 - s.x % 8 in
    let t = record s { x = s.x + c; pos = add s.pos (2 * c) } in
    if ltb columns t.x
    then lf (record t { x = t.x - columns; pos = sub t.pos (2 * columns) })
    else t

abbrev pub back : Screen → Screen
back s = if s.x =/= 0 then record s { x = s.x - 1; pos = sub s.pos 2 } else s

-- case 0, where `erase` is ERASE_CHAR(tty); `char` is signed
unfoldable pub plain : ℕ → ℕ → Screen → Screen
plain erase c s =
    if ltb 31 c && ltb c 127
    then put_char c (wrap_line s)
    else if c == 27
    then record s { state = 1 }
    else if (c == 10) || (c == 11) || (c == 12)
    then lf s
    else if c == 13
    then cr s
    else if ltb c 128 && (c == erase)
    then del s
    else if c == 8
    then back s
    else if c == 9
    then tab s
    else s

-- case 1; the last two tests are of `x` in place of `c`
unfoldable pub escape : ℕ → Screen → Screen
escape c s0 =
    let s = record s0 { state = 0 } in
    if c == 91
    then record s { state = 2 }
    else if c == 69
    then gotoxy 0 (s.y + 1) s
    else if c == 77
    then ri s
    else if c == 68
    then lf s
    else if c == 90
    then record s { answers = s.answers + 1 }
    else if s.x == 55
    then save_cur s
    else if s.x == 56
    then restore_cur s
    else s

-- if (par[i]) par[i]--, and if (!par[0]) par[0]++
abbrev pub less_one : ℕ → Screen → Screen
less_one i s = record s { par = update s.par i (s.par i - 1) }

abbrev pub at_least_one : Screen → Screen
at_least_one s = record s { par = update s.par 0 (if s.par 0 == 0 then 1 else s.par 0) }

abbrev pub set_region : Screen → Screen
set_region s =
    if ltb (s.par 0) (s.par 1) && leb (s.par 1) lines
    then record s { top = s.par 0; bottom = s.par 1 }
    else s

abbrev pub whole_screen : Screen → Screen
whole_screen s = record s { par = update s.par 1 (if s.par 1 == 0 then lines else s.par 1) }

-- the sequences that move the cursor
unfoldable pub moves : ℕ → Screen → Screen
moves c s =
    let one = at_least_one s in
    let n = one.par 0 in
    let less = less_one 0 s in
    if (c == 71) || (c == 96)
    then gotoxy (less.par 0) s.y less
    else if c == 65
    then gotoxy s.x (sub s.y n) one
    else if (c == 66) || (c == 101)
    then gotoxy s.x (add s.y n) one
    else if (c == 67) || (c == 97)
    then gotoxy (add s.x n) s.y one
    else if c == 68
    then gotoxy (sub s.x n) s.y one
    else if c == 69
    then gotoxy 0 (add s.y n) one
    else if c == 70
    then gotoxy 0 (sub s.y n) one
    else if c == 100
    then gotoxy s.x (less.par 0) less
    else if (c == 72) || (c == 102)
    then gotoxy (s.par 1 - 1) (s.par 0 - 1) (less_one 1 less)
    else s

-- case 4: the others
unfoldable pub final : ℕ → Screen → Screen
final c s0 =
    let s = record s0 { state = 0 } in
    if c == 74
    then csi_J (s.par 0) s
    else if c == 75
    then csi_K (s.par 0) s
    else if c == 76
    then csi_L (s.par 0) s
    else if c == 77
    then csi_M (s.par 0) s
    else if c == 80
    then csi_P (s.par 0) s
    else if c == 64
    then csi_at (s.par 0) s
    else if c == 109
    then csi_m s
    else if c == 114
    then set_region (whole_screen (less_one 0 s))
    else if c == 115
    then save_cur s
    else if c == 117
    then restore_cur s
    else moves c s

-- case 3, which falls through to case 4
unfoldable pub params : ℕ → Screen → Screen
params c s =
    if (c == 59) && ltb s.npar (n_par - 1)
    then record s { npar = s.npar + 1 }
    else if leb 48 c && leb c 57
    then record s { par = update s.par s.npar (sub (add (mul 10 (s.par s.npar)) c) 48) }
    else final c s

-- case 2, which falls through to case 3
unfoldable pub begins : ℕ → Screen → Screen
begins c s =
    let t = record s { par = λ i. 0; npar = 0; state = 3; ques = c == 63 } in
    if c == 63 then t else params c t

unfoldable pub con_char : ℕ → ℕ → Screen → Screen
con_char erase c s =
    if s.state == 0
    then plain erase c s
    else if s.state == 1
    then escape c s
    else if s.state == 2
    then begins c s
    else if s.state == 3
    then params c s
    else if s.state == 4
    then final c s
    else s

unfoldable pub con_write : ℕ → List ℕ → Screen → Screen
con_write erase [] s = s
con_write erase (c ∷ cs) s = con_write erase cs (con_char erase c s)

-- the variables at the start, over some screen memory
abbrev pub power_on : (ℕ → ℕ) → Screen
power_on m = record {
  origin = screen_start;
  scr_end = screen_start + lines * columns * 2;
  pos = 0;
  x = 0;
  y = 0;
  top = 0;
  bottom = lines;
  state = 0;
  npar = 0;
  par = λ i. 0;
  ques = false;
  attr = 0x07;
  saved_x = 0;
  saved_y = 0;
  answers = 0;
  vram = m;
}

-- con_init, for the place of the cursor that the BIOS left
abbrev pub con_init : ℕ → ℕ → Screen → Screen
con_init x y s = gotoxy x y s
