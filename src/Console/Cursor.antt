-- ===== src/Console/Cursor.antt =====
-- Where the cursor of kernel/console.c is, and what moves it.
-- Column 80 is behind the last one: the next character goes to a new line.
use linux_0_1_1_comment.Prelude.{
  ltb, leb, ◌==◌, ◌=/=◌, ltb→lt, if_both, ℕ, ◌+◌, ◌-◌, ◌*◌, ◌%◌, ◌≤◌, ◌<◌, ◌≡◌, refl, true, ◌&&◌,
  ◌||◌, arith,
}
use linux_0_1_1_comment.Console.{screen_start, screen_end, lines, columns, n_par, Screen, gotoxy}
use linux_0_1_1_comment.Console.Scroll.{move_origin, scroll_screen, scrup, scrdown, lf, ri, cr}
use linux_0_1_1_comment.Word.{add, sub}

pub record AtCursor (x y pos origin scr_end : ℕ) : Type 0 where
  pub column : x ≤ columns
  pub line : y < lines
  pub shown : pos ≡ origin + 2 * (y * columns + x)
  pub size : scr_end ≡ origin + 2 * (lines * columns)
  pub low : screen_start ≤ origin
  pub high : scr_end ≤ screen_end

-- The cursor is on the screen, the screen in the screen memory, and the parameters in their array.
pub record OnScreen (s : Screen) : Type 0 where
  pub cursor : AtCursor s.x s.y s.pos s.origin s.scr_end
  pub region : (s.top < s.bottom) × (s.bottom ≤ lines)
  pub saved : (s.saved_x ≤ columns) × (s.saved_y < lines)
  pub parse : (s.state ≤ 3) × (s.npar < n_par)

pub gotoxy-OnScreen : (x y : ℕ) (s : Screen) → OnScreen s → OnScreen (gotoxy x y s)
unfolding gotoxy
gotoxy-OnScreen x y s f =
    if_both OnScreen (leb columns x || leb lines y) (λ e. f)
      (λ e. record {
        cursor = record {
          column = ground arith;
          line = ground arith;
          shown = refl;
          size = f.cursor.size;
          low = f.cursor.low;
          high = f.cursor.high;
        };
        region = f.region;
        saved = f.saved;
        parse = f.parse;
      })

-- what is on the screen does not matter
pub vram-OnScreen : (s : Screen) (m : ℕ → ℕ) → OnScreen s → OnScreen (record s { vram = m })
vram-OnScreen s m f = record {
  cursor = f.cursor;
  region = f.region;
  saved = f.saved;
  parse = f.parse;
}

-- another place on the same screen
pub moved-OnScreen :
    (s : Screen) (x y pos : ℕ)
    → x ≤ columns
    → y < lines
    → pos ≡ s.origin + 2 * (y * columns + x)
    → OnScreen s
    → OnScreen (record s { x = x; y = y; pos = pos })
moved-OnScreen s x y pos column line shown f = record {
  cursor = record {
    column = column;
    line = line;
    shown = shown;
    size = f.cursor.size;
    low = f.cursor.low;
    high = f.cursor.high;
  };
  region = f.region;
  saved = f.saved;
  parse = f.parse;
}

pub scrup-OnScreen : (s : Screen) → OnScreen s → OnScreen (scrup s)
unfolding scrup scroll_screen add sub
scrup-OnScreen s f =
    let c = f.cursor in
    let end' : (s.scr_end + 160) % 4294967296 ≡ s.scr_end + 160 = omega arith in
    let origin' : (s.origin + 160) % 4294967296 ≡ s.origin + 160 = omega arith in
    let pos' : (s.pos + 160) % 4294967296 ≡ s.pos + 160 = omega arith in
    if_both OnScreen ((s.top == 0) && (s.bottom == lines))
      (λ e.
        if_both OnScreen (ltb screen_end ((s.scr_end + 160) % 4294967296))
          (λ over. record {
            cursor = record {
              column = c.column;
              line = c.line;
              shown = omega arith;
              size = omega arith;
              low = omega arith;
              high = omega arith;
            };
            region = f.region;
            saved = f.saved;
            parse = f.parse;
          })
          (λ fits. record {
            cursor = record {
              column = c.column;
              line = c.line;
              shown = omega arith;
              size = omega arith;
              low = omega arith;
              high = ground (arith, fits);
            };
            region = f.region;
            saved = f.saved;
            parse = f.parse;
          }))
      (λ e. vram-OnScreen s _ f)

pub scrdown-OnScreen : (s : Screen) → OnScreen s → OnScreen (scrdown s)
unfolding scrdown
scrdown-OnScreen s f = vram-OnScreen s _ f

pub lf-OnScreen : (s : Screen) → OnScreen s → OnScreen (lf s)
unfolding lf add
lf-OnScreen s f =
    let (_, le) = f.region in
    if_both OnScreen (ltb (s.y + 1) s.bottom)
      (λ e. moved-OnScreen s s.x (s.y + 1) _ f.cursor.column (ground arith) (omega arith) f)
      (λ e. scrup-OnScreen s f)

pub ri-OnScreen : (s : Screen) → OnScreen s → OnScreen (ri s)
unfolding ri sub
ri-OnScreen s f =
    if_both OnScreen (ltb s.top s.y)
      (λ e.
        let lt = ltb→lt s.top s.y e in
        moved-OnScreen s s.x (s.y - 1) _ f.cursor.column (omega arith) (omega arith) f)
      (λ e. scrdown-OnScreen s f)

pub cr-OnScreen : (s : Screen) → OnScreen s → OnScreen (cr s)
unfolding sub
cr-OnScreen s f = moved-OnScreen s 0 s.y _ (omega arith) f.cursor.line (omega arith) f

-- one column to the left
pub left-OnScreen :
    (s : Screen)
    → (s.x =/= 0) ≡ true
    → OnScreen s
    → OnScreen (record s { pos = sub s.pos 2; x = s.x - 1 })
unfolding sub
left-OnScreen s e f =
    let pos : 1 ≤ s.x = ground arith in
    moved-OnScreen s (s.x - 1) s.y _ (omega arith) f.cursor.line (omega arith) f

-- from behind the end of a line to the front of the next one, or as far behind it as the cursor was
pub down-OnScreen :
    (s : Screen) (x pos : ℕ)
    → columns ≤ x
    → x ≤ 2 * columns
    → pos ≡ s.origin + 2 * (s.y * columns + x)
    → OnScreen s
    → OnScreen (lf (record s { x = x - columns; pos = sub pos (2 * columns) }))
unfolding sub
down-OnScreen s x pos lo hi e f =
    lf-OnScreen _ (moved-OnScreen s (x - columns) s.y _ (omega arith) f.cursor.line (omega arith) f)

-- neither changes the column
pub lf_column : (s : Screen) → (lf s).x ≡ s.x
unfolding lf scrup scroll_screen
lf_column s =
    if_both (λ (t : Screen). t.x ≡ s.x) (ltb (s.y + 1) s.bottom) (λ e. refl)
      (λ e.
        if_both (λ (t : Screen). t.x ≡ s.x) ((s.top == 0) && (s.bottom == lines))
          (λ r.
            if_both (λ (t : Screen). t.x ≡ s.x) (ltb screen_end (move_origin s).scr_end) (λ o. refl)
              (λ o. refl))
          (λ r. refl))
