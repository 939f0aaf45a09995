-- ===== src/Tests/Bytes.antt =====
-- The string routines, on memory with three strings: "ab" at 1, "abc" at 5 and "b" at 16.
use linux_0_1_1_comment.Prelude.{update, ◌≡◌, refl, some}
use linux_0_1_1_comment.Strings.{Bytes, rep_movsb_down}
use linux_0_1_1_comment.Strings.Comparing.{strcmp}
use linux_0_1_1_comment.Strings.Copying.{memmove}
use linux_0_1_1_comment.Strings.Moves.{moved, memmove-moved}

abbrev bytes : Bytes
bytes = update (update (update (update (update (update (λ a. 0) 1 97) 2 98) 5 97) 6 98) 7 99) 16 98

memmove-moved_example : memmove 2 1 3 bytes 3 ≡ moved 2 1 3 bytes 3
memmove-moved_example = memmove-moved 2 1 3 bytes 3

memmove_run : memmove 2 1 3 bytes 3 ≡ 98
unfolding memmove rep_movsb_down
memmove_run = refl

strcmp_run : strcmp 10 1 5 bytes ≡ some 0xffffffff
unfolding strcmp
strcmp_run = refl
