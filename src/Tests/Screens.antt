-- ===== src/Tests/Screens.antt =====
-- The screen of the console.
-- a clear screen with the cursor in the first column of line 24
use linux_0_1_1_comment.Prelude.{◌≡◌, refl, [], ◌∷◌, arith}
use linux_0_1_1_comment.Console.{Screen, gotoxy}
use linux_0_1_1_comment.Console.Cursor.{OnScreen}
use linux_0_1_1_comment.Console.Safety.{Safe, con_write-Safe, con_init-OnScreen}
use linux_0_1_1_comment.Console.Write.{
  plain, escape, moves, final, params, begins, con_char, con_write, power_on, con_init,
}
use linux_0_1_1_comment.Word.{add, sub, mul}

abbrev cleared : Screen
cleared = con_init 0 24 (power_on (λ a. 0x0720))

cleared-OnScreen : OnScreen cleared
cleared-OnScreen = con_init-OnScreen 0 24 (λ a. 0x0720) (omega arith) (omega arith)

-- a letter, a new line, and the sequence that leads to line 3, column 7
con_write-Safe_example :
    Safe cleared (con_write 127 (65 ∷ 10 ∷ 27 ∷ 91 ∷ 51 ∷ 59 ∷ 55 ∷ 72 ∷ []) cleared)
con_write-Safe_example =
    con_write-Safe 127 (65 ∷ 10 ∷ 27 ∷ 91 ∷ 51 ∷ 59 ∷ 55 ∷ 72 ∷ []) cleared cleared-OnScreen

con_write_run : (con_write 127 (27 ∷ 91 ∷ 51 ∷ 59 ∷ 55 ∷ 72 ∷ []) cleared).x ≡ 6
unfolding con_write con_char plain escape begins params final moves gotoxy add sub mul
con_write_run = refl

-- Esc 7 in column 0 does not save the place of the cursor.
save_run : (con_write 127 (27 ∷ 55 ∷ []) cleared).saved_y ≡ 0
unfolding con_write con_char plain escape gotoxy
save_run = refl
