-- ===== src/Console/Scroll.antt =====
-- scrup, scrdown, lf, ri, cr and del of kernel/console.c.
-- (bottom-top-1)*columns>>1
use linux_0_1_1_comment.Prelude.{
  ltb, ◌==◌, ◌=/=◌, if◌then◌else◌, update, ℕ, ◌+◌, ◌-◌, ◌*◌, ◌/◌, ◌&&◌,
}
use linux_0_1_1_comment.Console.{
  screen_start, screen_end, lines, columns, blank, Screen, stosw, stosl, stosw_down, movsl,
  movsl_down,
}
use linux_0_1_1_comment.Word.{add, sub, mul}

abbrev pub region_longs : Screen → ℕ
region_longs s = mul (sub (sub s.bottom s.top) 1) columns / 2

-- the whole screen moves on in the screen memory, or back to its start
abbrev pub move_origin : Screen → Screen
move_origin s = record s {
  origin = add s.origin (2 * columns);
  pos = add s.pos (2 * columns);
  scr_end = add s.scr_end (2 * columns);
}

abbrev pub wrap_origin : Screen → Screen
wrap_origin s =
    let longs = (lines - 1) * columns / 2 in
    let moved = movsl longs screen_start s.origin s.vram in
    record s {
      vram = stosw columns (screen_start + 4 * longs) moved;
      scr_end = sub s.scr_end (sub s.origin screen_start);
      pos = sub s.pos (sub s.origin screen_start);
      origin = screen_start;
    }

abbrev pub clear_last : Screen → Screen
clear_last s = record s { vram = stosl (columns / 2) (sub s.scr_end (2 * columns)) s.vram }

unfoldable pub scroll_screen : Screen → Screen
scroll_screen s = if ltb screen_end s.scr_end then wrap_origin s else clear_last s

-- a region above which, or below which, the screen stays
abbrev pub scroll_region : Screen → Screen
scroll_region s =
    let to = s.origin + 2 * columns * s.top in
    record s {
      vram =
          stosw columns (to + 4 * region_longs s)
            (movsl (region_longs s) to (s.origin + 2 * columns * (s.top + 1)) s.vram);
    }

unfoldable pub scrup : Screen → Screen
scrup s =
    if (s.top == 0) && (s.bottom == lines) then scroll_screen (move_origin s) else scroll_region s

-- %edi ends 4 below the last long that was moved, and 2 is added
unfoldable pub scrdown : Screen → Screen
scrdown s =
    let to = s.origin + 2 * columns * s.bottom - 4 in
    record s {
      vram =
          stosw_down columns (to - 4 * region_longs s + 2)
            (movsl_down (region_longs s) to (s.origin + 2 * columns * (s.bottom - 1) - 4) s.vram);
    }

unfoldable pub lf : Screen → Screen
lf s =
    if ltb (s.y + 1) s.bottom
    then record s { y = s.y + 1; pos = add s.pos (2 * columns) }
    else scrup s

unfoldable pub ri : Screen → Screen
ri s = if ltb s.top s.y then record s { y = s.y - 1; pos = sub s.pos (2 * columns) } else scrdown s

abbrev pub cr : Screen → Screen
cr s = record s { pos = sub s.pos (2 * s.x); x = 0 }

unfoldable pub del : Screen → Screen
del s =
    if s.x =/= 0
    then record s { pos = sub s.pos 2; x = s.x - 1; vram = update s.vram (sub s.pos 2) blank }
    else s
