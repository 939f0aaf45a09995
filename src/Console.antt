-- ===== src/Console.antt =====
-- kernel/console.c: the screen and its control sequences. The screen memory is a short for each even
-- address. Of `respond` only the number of calls is kept, `answers`, and set_origin and set_cursor,
-- which tell the display controller, are left out.
pub mod Scroll
pub mod Edit
pub mod Write
pub mod Cursor
pub mod Edits
pub mod Bounds
pub mod Stores
pub mod Memory
pub mod Safety
use linux_0_1_1_comment.Prelude.{
  leb, if◌then◌else◌, update, ℕ, zero, suc, ◌+◌, ◌-◌, ◌*◌, Bool, ◌||◌,
}

abbrev pub screen_start : ℕ
screen_start = 0xb8000

abbrev pub screen_end : ℕ
screen_end = 0xc0000

abbrev pub lines : ℕ
lines = 25

abbrev pub columns : ℕ
columns = 80

abbrev pub n_par : ℕ
n_par = 16

-- a space, in the usual colours
abbrev pub blank : ℕ
blank = 0x0720

pub record Screen : Type 0 where
  pub origin : ℕ
  pub scr_end : ℕ
  pub pos : ℕ
  pub x : ℕ
  pub y : ℕ
  pub top : ℕ
  pub bottom : ℕ
  pub state : ℕ
  pub npar : ℕ
  pub par : ℕ → ℕ
  pub ques : Bool
  pub attr : ℕ
  pub saved_x : ℕ
  pub saved_y : ℕ
  pub answers : ℕ
  pub vram : ℕ → ℕ

-- rep; stosw and rep; stosl with 0x07200720
unfoldable pub stosw : ℕ → ℕ → (ℕ → ℕ) → ℕ → ℕ
stosw zero edi m = m
stosw (suc ecx) edi m = stosw ecx (edi + 2) (update m edi blank)

unfoldable pub stosl : ℕ → ℕ → (ℕ → ℕ) → ℕ → ℕ
stosl zero edi m = m
stosl (suc ecx) edi m = stosl ecx (edi + 4) (update (update m edi blank) (edi + 2) blank)

-- the same downwards, with the direction flag set
unfoldable pub stosw_down : ℕ → ℕ → (ℕ → ℕ) → ℕ → ℕ
stosw_down zero edi m = m
stosw_down (suc ecx) edi m = stosw_down ecx (edi - 2) (update m edi blank)

-- one movsl, and rep; movsl with the direction flag clear and set
abbrev pub move_long : ℕ → ℕ → (ℕ → ℕ) → ℕ → ℕ
move_long edi esi m = update (update m edi (m esi)) (edi + 2) (m (esi + 2))

unfoldable pub movsl : ℕ → ℕ → ℕ → (ℕ → ℕ) → ℕ → ℕ
movsl zero edi esi m = m
movsl (suc ecx) edi esi m = movsl ecx (edi + 4) (esi + 4) (move_long edi esi m)

unfoldable pub movsl_down : ℕ → ℕ → ℕ → (ℕ → ℕ) → ℕ → ℕ
movsl_down zero edi esi m = m
movsl_down (suc ecx) edi esi m = movsl_down ecx (edi - 4) (esi - 4) (move_long edi esi m)

unfoldable pub gotoxy : ℕ → ℕ → Screen → Screen
gotoxy new_x new_y s =
    if leb columns new_x || leb lines new_y
    then s
    else record s { x = new_x; y = new_y; pos = s.origin + 2 * (new_y * columns + new_x) }
