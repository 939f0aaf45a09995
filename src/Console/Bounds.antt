-- ===== src/Console/Bounds.antt =====
-- con_write of kernel/console.c keeps the cursor on the screen.
use linux_0_1_1_comment.Prelude.{
  ltb, leb, ◌==◌, ◌=/=◌, if_both, ℕ, ◌+◌, ◌-◌, ◌&&◌, ◌||◌, List, [], ◌∷◌, arith,
}
use linux_0_1_1_comment.Console.{lines, n_par, Screen}
use linux_0_1_1_comment.Console.Cursor.{
  OnScreen, gotoxy-OnScreen, scrup-OnScreen, scrdown-OnScreen, lf-OnScreen, ri-OnScreen,
  cr-OnScreen, left-OnScreen,
}
use linux_0_1_1_comment.Console.Edit.{csi_m, insert_char, delete_char, insert_line, delete_line}
use linux_0_1_1_comment.Console.Edits.{
  times-OnScreen, insert_char-OnScreen, delete_char-OnScreen, below_cursor-OnScreen, csi_J-OnScreen,
  csi_K-OnScreen, save_cur-OnScreen, restore_cur-OnScreen, parse-OnScreen, state-OnScreen,
  par-OnScreen, wrap_line-OnScreen, put_char-OnScreen, tab-OnScreen, del-OnScreen,
}
use linux_0_1_1_comment.Console.Scroll.{scrup, scrdown}
use linux_0_1_1_comment.Console.Write.{
  wrap_line, plain, escape, less_one, at_least_one, set_region, whole_screen, moves, final, params,
  begins, con_char, con_write,
}

plain-OnScreen : (erase c : ℕ) (s : Screen) → OnScreen s → OnScreen (plain erase c s)
unfolding plain
plain-OnScreen erase c s f =
    let (w, lt) = wrap_line-OnScreen s f in
    if_both OnScreen (ltb 31 c && ltb c 127) (λ e. put_char-OnScreen c (wrap_line s) lt w)
      (λ e.
        if_both OnScreen (c == 27) (λ e. state-OnScreen s 1 (omega arith) f)
          (λ e.
            if_both OnScreen ((c == 10) || (c == 11) || (c == 12)) (λ e. lf-OnScreen s f)
              (λ e.
                if_both OnScreen (c == 13) (λ e. cr-OnScreen s f)
                  (λ e.
                    if_both OnScreen (ltb c 128 && (c == erase)) (λ e. del-OnScreen s f)
                      (λ e.
                        if_both OnScreen (c == 8)
                          (λ e. if_both OnScreen (s.x =/= 0) (λ e. left-OnScreen s e f) (λ e. f))
                          (λ e. if_both OnScreen (c == 9) (λ e. tab-OnScreen s f) (λ e. f)))))))

escape-OnScreen : (c : ℕ) (s : Screen) → OnScreen s → OnScreen (escape c s)
unfolding escape
escape-OnScreen c s0 f0 =
    let s = record s0 { state = 0 } in
    let f = state-OnScreen s0 0 (omega arith) f0 in
    if_both OnScreen (c == 91) (λ e. state-OnScreen s 2 (omega arith) f)
      (λ e.
        if_both OnScreen (c == 69) (λ e. gotoxy-OnScreen 0 (s.y + 1) s f)
          (λ e.
            if_both OnScreen (c == 77) (λ e. ri-OnScreen s f)
              (λ e.
                if_both OnScreen (c == 68) (λ e. lf-OnScreen s f)
                  (λ e.
                    if_both OnScreen (c == 90)
                      (λ e.
                        parse-OnScreen s 0 s.npar s.attr (s.answers + 1) s.par s.ques (omega arith)
                          (f.parse.1) f)
                      (λ e.
                        if_both OnScreen (s.x == 55) (λ e. save_cur-OnScreen s f)
                          (λ e.
                            if_both OnScreen (s.x == 56) (λ e. restore_cur-OnScreen s f)
                              (λ e. f)))))))

moves-OnScreen : (c : ℕ) (s : Screen) → OnScreen s → OnScreen (moves c s)
unfolding moves
moves-OnScreen c s f =
    let one = par-OnScreen s (at_least_one s).par f in
    let less = par-OnScreen s (less_one 0 s).par f in
    if_both OnScreen ((c == 71) || (c == 96)) (λ e. gotoxy-OnScreen _ _ _ less)
      (λ e.
        if_both OnScreen (c == 65) (λ e. gotoxy-OnScreen _ _ _ one)
          (λ e.
            if_both OnScreen ((c == 66) || (c == 101)) (λ e. gotoxy-OnScreen _ _ _ one)
              (λ e.
                if_both OnScreen ((c == 67) || (c == 97)) (λ e. gotoxy-OnScreen _ _ _ one)
                  (λ e.
                    if_both OnScreen (c == 68) (λ e. gotoxy-OnScreen _ _ _ one)
                      (λ e.
                        if_both OnScreen (c == 69) (λ e. gotoxy-OnScreen _ _ _ one)
                          (λ e.
                            if_both OnScreen (c == 70) (λ e. gotoxy-OnScreen _ _ _ one)
                              (λ e.
                                if_both OnScreen (c == 100) (λ e. gotoxy-OnScreen _ _ _ less)
                                  (λ e.
                                    if_both OnScreen ((c == 72) || (c == 102))
                                      (λ e.
                                        gotoxy-OnScreen _ _ _
                                          (par-OnScreen _ (less_one 1 (less_one 0 s)).par less))
                                      (λ e. f)))))))))

set_region-OnScreen : (s : Screen) → OnScreen s → OnScreen (set_region s)
set_region-OnScreen s f =
    if_both OnScreen (ltb (s.par 0) (s.par 1) && leb (s.par 1) lines)
      (λ e. record {
        cursor = f.cursor;
        region = (ground (arith, e), ground (arith, e));
        saved = f.saved;
        parse = f.parse;
      })
      (λ e. f)

final-OnScreen : (c : ℕ) (s : Screen) → OnScreen s → OnScreen (final c s)
unfolding final
final-OnScreen c s0 f0 =
    let s = record s0 { state = 0 } in
    let f = state-OnScreen s0 0 (omega arith) f0 in
    if_both OnScreen (c == 74) (λ e. csi_J-OnScreen (s.par 0) s f)
      (λ e.
        if_both OnScreen (c == 75) (λ e. csi_K-OnScreen (s.par 0) s f)
          (λ e.
            if_both OnScreen (c == 76)
              (λ e.
                times-OnScreen _ insert_line s
                  (λ t. below_cursor-OnScreen scrdown t scrdown-OnScreen) f)
              (λ e.
                if_both OnScreen (c == 77)
                  (λ e.
                    times-OnScreen _ delete_line s
                      (λ t. below_cursor-OnScreen scrup t scrup-OnScreen) f)
                  (λ e.
                    if_both OnScreen (c == 80)
                      (λ e. times-OnScreen _ delete_char s delete_char-OnScreen f)
                      (λ e.
                        if_both OnScreen (c == 64)
                          (λ e. times-OnScreen _ insert_char s insert_char-OnScreen f)
                          (λ e.
                            if_both OnScreen (c == 109)
                              (λ e.
                                parse-OnScreen s 0 s.npar (csi_m s).attr s.answers s.par s.ques
                                  (omega arith) (f.parse.1) f)
                              (λ e.
                                if_both OnScreen (c == 114)
                                  (λ e.
                                    set_region-OnScreen _
                                      (par-OnScreen s (whole_screen (less_one 0 s)).par f))
                                  (λ e.
                                    if_both OnScreen (c == 115) (λ e. save_cur-OnScreen s f)
                                      (λ e.
                                        if_both OnScreen (c == 117) (λ e. restore_cur-OnScreen s f)
                                          (λ e. moves-OnScreen c s f))))))))))

params-OnScreen : (c : ℕ) (s : Screen) → OnScreen s → OnScreen (params c s)
unfolding params
params-OnScreen c s f =
    if_both OnScreen ((c == 59) && ltb s.npar (n_par - 1))
      (λ e.
        parse-OnScreen s s.state (s.npar + 1) s.attr s.answers s.par s.ques (f.parse.0)
          (ground (arith, e)) f)
      (λ e.
        if_both OnScreen (leb 48 c && leb c 57) (λ e. par-OnScreen s _ f)
          (λ e. final-OnScreen c s f))

begins-OnScreen : (c : ℕ) (s : Screen) → OnScreen s → OnScreen (begins c s)
unfolding begins
begins-OnScreen c s f =
    let t =
      parse-OnScreen s 3 0 s.attr s.answers (λ i. 0) (c == 63) (omega arith) (omega arith) f in
    if_both OnScreen (c == 63) (λ e. t) (λ e. params-OnScreen c _ t)

pub con_char-OnScreen : (erase c : ℕ) (s : Screen) → OnScreen s → OnScreen (con_char erase c s)
unfolding con_char
con_char-OnScreen erase c s f =
    if_both OnScreen (s.state == 0) (λ e. plain-OnScreen erase c s f)
      (λ e.
        if_both OnScreen (s.state == 1) (λ e. escape-OnScreen c s f)
          (λ e.
            if_both OnScreen (s.state == 2) (λ e. begins-OnScreen c s f)
              (λ e.
                if_both OnScreen (s.state == 3) (λ e. params-OnScreen c s f)
                  (λ e. if_both OnScreen (s.state == 4) (λ e. final-OnScreen c s f) (λ e. f)))))

-- From a screen with the cursor on it, for any characters that are written and any erase character:
-- the cursor is in columns 0 to 80 and lines 0 to 24 and `pos` is its address, the screen of 25
-- lines lies within the screen memory, the scrolling region is not empty and within the screen, the
-- saved place is on the screen, and the number of parameters is within their array.
pub con_write-OnScreen :
    (erase : ℕ) (cs : List ℕ) (s : Screen) → OnScreen s → OnScreen (con_write erase cs s)
unfolding con_write
con_write-OnScreen erase [] s f = f
con_write-OnScreen erase (c ∷ cs) s f =
    con_write-OnScreen erase cs (con_char erase c s) (con_char-OnScreen erase c s f)
