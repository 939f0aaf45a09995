-- ===== src/Console/Safety.antt =====
-- The control sequences of kernel/console.c store into the screen memory only, and con_write as a whole.
use linux_0_1_1_comment.Prelude.{
  ltb, leb, ◌==◌, if◌then◌else◌, if_both, ℕ, zero, suc, ◌-◌, ◌*◌, ◌/◌, ◌≤◌, ◌<◌, ◌≡◌, refl, ◌∙◌,
  false, ◌&&◌, ◌||◌, List, [], ◌∷◌, arith,
}
use linux_0_1_1_comment.Console.{lines, columns, n_par, blank, Screen, gotoxy}
use linux_0_1_1_comment.Console.Bounds.{con_char-OnScreen, con_write-OnScreen}
use linux_0_1_1_comment.Console.Cursor.{OnScreen, scrup-OnScreen, scrdown-OnScreen}
use linux_0_1_1_comment.Console.Edit.{
  csi_J, csi_K, insert_char, delete_char, below_cursor, insert_line, delete_line, times,
}
use linux_0_1_1_comment.Console.Edits.{
  insert_char-OnScreen, delete_char-OnScreen, below_cursor-OnScreen, parse-OnScreen, state-OnScreen,
}
use linux_0_1_1_comment.Console.Memory.{
  fill, KeepsMemory, within, scrup-KeepsMemory, scrdown-KeepsMemory, plain-KeepsMemory,
  escape-KeepsMemory, moves-KeepsMemory,
}
use linux_0_1_1_comment.Console.Scroll.{scrup, scrdown}
use linux_0_1_1_comment.Console.Stores.{insert_loop-Away, delete_loop-Away}
use linux_0_1_1_comment.Console.Write.{
  less_one, whole_screen, final, params, begins, con_char, con_write, power_on, con_init,
}
use linux_0_1_1_comment.Word.{sub}

insert_char-KeepsMemory : (s : Screen) → OnScreen s → KeepsMemory s.vram (insert_char s)
unfolding insert_char
insert_char-KeepsMemory s f a o =
    let cur = f.cursor in
    insert_loop-Away columns s.x s.pos blank a s.vram
      (within a s.pos (2 * (columns - s.x)) (omega arith) (omega arith) o)

delete_char-KeepsMemory : (s : Screen) → OnScreen s → KeepsMemory s.vram (delete_char s)
unfolding delete_char
delete_char-KeepsMemory s f =
    let cur = f.cursor in
    if_both (KeepsMemory s.vram) (leb columns s.x) (λ e a o. refl)
      (λ e a o.
        let lt : s.x < columns = ground (arith, e) in
        delete_loop-Away columns s.x s.pos a s.vram lt
          (within a s.pos (2 * (columns - s.x)) (omega arith) (omega arith) o))

below_cursor-KeepsMemory :
    (g : Screen → Screen) (s : Screen)
    → ((t : Screen) → OnScreen t → KeepsMemory t.vram (g t))
    → OnScreen s
    → KeepsMemory s.vram (below_cursor g s)
below_cursor-KeepsMemory g s keeps f =
    keeps (record s { top = s.y; bottom = lines })
      (record {
        cursor = f.cursor;
        region = (f.cursor.line, omega arith);
        saved = f.saved;
        parse = f.parse;
      })

times-KeepsMemory :
    (n : ℕ) (g : Screen → Screen) (s : Screen)
    → ((t : Screen) → OnScreen t → OnScreen (g t))
    → ((t : Screen) → OnScreen t → KeepsMemory t.vram (g t))
    → OnScreen s
    → KeepsMemory s.vram (times n g s)
unfolding times
times-KeepsMemory zero g s on keeps f a o = refl
times-KeepsMemory (suc n) g s on keeps f a o =
    times-KeepsMemory n g (g s) on keeps (on s f) a o ∙ keeps s f a o

csi_J-KeepsMemory : (n : ℕ) (s : Screen) → OnScreen s → KeepsMemory s.vram (csi_J n s)
unfolding csi_J sub
csi_J-KeepsMemory n s f =
    let cur = f.cursor in
    let P = KeepsMemory s.vram in
    if_both P (n == 0) (λ e. fill s (sub s.scr_end s.pos / 2) s.pos (omega arith) (omega arith))
      (λ e.
        if_both P (n == 1)
          (λ e. fill s (sub s.pos s.origin / 2) s.origin (omega arith) (omega arith))
          (λ e.
            if_both P (n == 2) (λ e. fill s 2000 s.origin (omega arith) (omega arith))
              (λ e a o. refl)))

csi_K-KeepsMemory : (n : ℕ) (s : Screen) → OnScreen s → KeepsMemory s.vram (csi_K n s)
unfolding csi_K sub
csi_K-KeepsMemory n s f =
    let cur = f.cursor in
    let P = KeepsMemory s.vram in
    if_both P (n == 0)
      (λ e.
        if_both P (leb columns s.x) (λ e a o. refl)
          (λ e.
            let lt : s.x < columns = ground (arith, e) in
            fill s (columns - s.x) s.pos (omega arith) (omega arith)))
      (λ e.
        if_both P (n == 1)
          (λ e.
            let few : (if ltb s.x columns then s.x else columns) ≤ s.x = ground arith in
            fill s (if ltb s.x columns then s.x else columns) (sub s.pos (2 * s.x)) (omega arith)
              (omega arith))
          (λ e.
            if_both P (n == 2)
              (λ e. fill s columns (sub s.pos (2 * s.x)) (omega arith) (omega arith))
              (λ e a o. refl)))

final-KeepsMemory : (c : ℕ) (s : Screen) → OnScreen s → KeepsMemory s.vram (final c s)
unfolding final
final-KeepsMemory c s0 f0 =
    let s = record s0 { state = 0 } in
    let f = state-OnScreen s0 0 (omega arith) f0 in
    let P = KeepsMemory s0.vram in
    if_both P (c == 74) (λ e. csi_J-KeepsMemory (s.par 0) s f)
      (λ e.
        if_both P (c == 75) (λ e. csi_K-KeepsMemory (s.par 0) s f)
          (λ e.
            if_both P (c == 76)
              (λ e.
                times-KeepsMemory _ insert_line s
                  (λ t. below_cursor-OnScreen scrdown t scrdown-OnScreen)
                  (λ t. below_cursor-KeepsMemory scrdown t scrdown-KeepsMemory) f)
              (λ e.
                if_both P (c == 77)
                  (λ e.
                    times-KeepsMemory _ delete_line s
                      (λ t. below_cursor-OnScreen scrup t scrup-OnScreen)
                      (λ t. below_cursor-KeepsMemory scrup t scrup-KeepsMemory) f)
                  (λ e.
                    if_both P (c == 80)
                      (λ e.
                        times-KeepsMemory _ delete_char s delete_char-OnScreen
                          delete_char-KeepsMemory f)
                      (λ e.
                        if_both P (c == 64)
                          (λ e.
                            times-KeepsMemory _ insert_char s insert_char-OnScreen
                              insert_char-KeepsMemory f)
                          (λ e.
                            if_both P (c == 109) (λ e a o. refl)
                              (λ e.
                                if_both P (c == 114)
                                  (λ e.
                                    if_both P
                                      (ltb ((whole_screen (less_one 0 s)).par 0)
                                          ((whole_screen (less_one 0 s)).par 1)
                                        && leb ((whole_screen (less_one 0 s)).par 1) lines)
                                      (λ e a o. refl) (λ e a o. refl))
                                  (λ e.
                                    if_both P (c == 115) (λ e a o. refl)
                                      (λ e.
                                        if_both P (c == 117) (λ e a o. refl)
                                          (λ e. moves-KeepsMemory c s))))))))))

params-KeepsMemory : (c : ℕ) (s : Screen) → OnScreen s → KeepsMemory s.vram (params c s)
unfolding params
params-KeepsMemory c s f =
    let P = KeepsMemory s.vram in
    if_both P ((c == 59) && ltb s.npar (n_par - 1)) (λ e a o. refl)
      (λ e. if_both P (leb 48 c && leb c 57) (λ e a o. refl) (λ e. final-KeepsMemory c s f))

begins-KeepsMemory : (c : ℕ) (s : Screen) → OnScreen s → KeepsMemory s.vram (begins c s)
unfolding begins
begins-KeepsMemory c s f =
    let t =
      parse-OnScreen s 3 0 s.attr s.answers (λ i. 0) (c == 63) (omega arith) (omega arith) f in
    if_both (KeepsMemory s.vram) (c == 63) (λ e a o. refl) (λ e. params-KeepsMemory c _ t)

con_char-KeepsMemory :
    (erase c : ℕ) (s : Screen) → OnScreen s → KeepsMemory s.vram (con_char erase c s)
unfolding con_char
con_char-KeepsMemory erase c s f =
    let P = KeepsMemory s.vram in
    if_both P (s.state == 0) (λ e. plain-KeepsMemory erase c s f)
      (λ e.
        if_both P (s.state == 1) (λ e. escape-KeepsMemory c s f)
          (λ e.
            if_both P (s.state == 2) (λ e. begins-KeepsMemory c s f)
              (λ e.
                if_both P (s.state == 3) (λ e. params-KeepsMemory c s f)
                  (λ e. if_both P (s.state == 4) (λ e. final-KeepsMemory c s f) (λ e a o. refl)))))

con_write-KeepsMemory :
    (erase : ℕ) (cs : List ℕ) (s : Screen) → OnScreen s → KeepsMemory s.vram (con_write erase cs s)
unfolding con_write
con_write-KeepsMemory erase [] s f a o = refl
con_write-KeepsMemory erase (c ∷ cs) s f a o =
    con_write-KeepsMemory erase cs (con_char erase c s) (con_char-OnScreen erase c s f) a o
    ∙ con_char-KeepsMemory erase c s f a o

-- What con_write keeps.
pub record Safe (s t : Screen) : Type 0 where
  pub on_screen : OnScreen t
  pub memory : KeepsMemory s.vram t

-- From a screen with the cursor on it, for any characters that are written and any erase character:
-- the cursor is in columns 0 to 80 and lines 0 to 24 and `pos` is its address, the screen of 25
-- lines lies within the screen memory, the scrolling region is not empty and within the screen, the
-- saved place is on the screen, and the number of parameters is within their array; and outside of
-- the screen memory everything is as it was.
pub con_write-Safe :
    (erase : ℕ) (cs : List ℕ) (s : Screen) → OnScreen s → Safe s (con_write erase cs s)
con_write-Safe erase cs s f = record {
  on_screen = con_write-OnScreen erase cs s f;
  memory = con_write-KeepsMemory erase cs s f;
}

-- con_init puts the cursor on the screen.
pub con_init-OnScreen :
    (x y : ℕ) (m : ℕ → ℕ) → x < columns → y < lines → OnScreen (con_init x y (power_on m))
unfolding gotoxy
con_init-OnScreen x y m lx ly =
    let ex : (leb columns x || leb lines y) ≡ false = ground arith in
    rw ex (record {
      cursor = record {
        column = omega arith;
        line = omega arith;
        shown = refl;
        size = refl;
        low = omega arith;
        high = omega arith;
      };
      region = (omega arith, omega arith);
      saved = (omega arith, omega arith);
      parse = (omega arith, omega arith);
    })
