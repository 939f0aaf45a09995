-- ===== src/Console/Edit.antt =====
-- The control sequences of kernel/console.c that change what is on the screen.
-- csi_J: the start and the count of what is erased
use linux_0_1_1_comment.Prelude.{
  ltb, leb, ◌==◌, if◌then◌else◌, update, ℕ, zero, suc, ◌+◌, ◌-◌, ◌*◌, ◌/◌, ◌||◌,
}
use linux_0_1_1_comment.Console.{lines, columns, blank, Screen, stosw}
use linux_0_1_1_comment.Console.Scroll.{scrup, scrdown}
use linux_0_1_1_comment.Word.{sub}

unfoldable pub csi_J : ℕ → Screen → Screen
csi_J par s =
    if par == 0
    then record s { vram = stosw (sub s.scr_end s.pos / 2) s.pos s.vram }
    else if par == 1
    then record s { vram = stosw (sub s.pos s.origin / 2) s.origin s.vram }
    else if par == 2
    then record s { vram = stosw (columns * lines) s.origin s.vram }
    else s

unfoldable pub csi_K : ℕ → Screen → Screen
csi_K par s =
    let start = sub s.pos (2 * s.x) in
    if par == 0
    then (if leb columns s.x then s else record s { vram = stosw (columns - s.x) s.pos s.vram })
    else if par == 1
    then record s { vram = stosw (if ltb s.x columns then s.x else columns) start s.vram }
    else if par == 2
    then record s { vram = stosw columns start s.vram }
    else s

abbrev pub attr_of : ℕ → ℕ → ℕ
attr_of par attr =
    if par == 0
    then 0x07
    else if (par == 1) || (par == 4)
    then 0x0f
    else if par == 7
    then 0x70
    else if par == 27
    then 0x07
    else attr

-- for (i=0;i<=npar;i++) of csi_m, `n` rounds from `i` on
unfoldable pub attr_loop : ℕ → ℕ → (ℕ → ℕ) → ℕ → ℕ
attr_loop zero i par attr = attr
attr_loop (suc n) i par attr = attr_loop n (i + 1) par (attr_of (par i) attr)

abbrev pub csi_m : Screen → Screen
csi_m s = record s { attr = attr_loop (s.npar + 1) 0 s.par s.attr }

-- while (i++<columns) of insert_char, with `fuel` rounds
unfoldable pub insert_loop : ℕ → ℕ → ℕ → ℕ → (ℕ → ℕ) → ℕ → ℕ
insert_loop zero i p old m = m
insert_loop (suc fuel) i p old m =
    let rest = insert_loop fuel (i + 1) (p + 2) (m p) (update m p old) in
    if ltb i columns then rest else m

unfoldable pub insert_char : Screen → Screen
insert_char s = record s { vram = insert_loop columns s.x s.pos blank s.vram }

-- while (++i < columns) of delete_char, and the store behind it
unfoldable pub delete_loop : ℕ → ℕ → ℕ → (ℕ → ℕ) → ℕ → ℕ
delete_loop zero i p m = update m p blank
delete_loop (suc fuel) i p m =
    let rest = delete_loop fuel (i + 1) (p + 2) (update m p (m (p + 2))) in
    if ltb (i + 1) columns then rest else update m p blank

unfoldable pub delete_char : Screen → Screen
delete_char s =
    if leb columns s.x then s else record s { vram = delete_loop columns s.x s.pos s.vram }

-- from the line of the cursor to the end of the screen
abbrev pub below_cursor : (Screen → Screen) → Screen → Screen
below_cursor scroll s = record (scroll (record s { top = s.y; bottom = lines })) {
  top = s.top;
  bottom = s.bottom;
}

abbrev pub insert_line : Screen → Screen
insert_line s = below_cursor scrdown s

abbrev pub delete_line : Screen → Screen
delete_line s = below_cursor scrup s

-- while (nr--)
unfoldable pub times : ℕ → (Screen → Screen) → Screen → Screen
times zero f s = s
times (suc nr) f s = times nr f (f s)

abbrev pub at_most : ℕ → ℕ → ℕ
at_most limit nr = if ltb limit nr then limit else if nr == 0 then 1 else nr

abbrev pub csi_at : ℕ → Screen → Screen
csi_at nr s = times (at_most columns nr) insert_char s

abbrev pub csi_L : ℕ → Screen → Screen
csi_L nr s = times (at_most lines nr) insert_line s

abbrev pub csi_P : ℕ → Screen → Screen
csi_P nr s = times (at_most columns nr) delete_char s

abbrev pub csi_M : ℕ → Screen → Screen
csi_M nr s = times (at_most lines nr) delete_line s
