-- ===== src/Tty/Queues.antt =====
-- A queue of a terminal (include/linux/tty.h) as a list of characters.
use mathlib.Core.Path.{ap₂}
use linux_0_1_1_comment.Prelude.{
  ◌==◌, update, update_self, update_ne, length, ℕ, zero, suc, ◌+◌, ◌-◌, ◌%◌, ◌<◌, ◌≡◌, refl, ap,
  true, false, List, [], ◌∷◌, arith,
}
use linux_0_1_1_comment.Tty.{TtyQueue, inc, dec, is_empty, last_of, is_full, chars_in, getch, putch}
use linux_0_1_1_comment.Word.{modulus}

pub record IsQueue (q : TtyQueue) : Type 0 where
  pub head_small : q.head < 1024
  pub tail_small : q.tail < 1024

-- `n` characters up to `h`, the newest first, and `n` from `t` on, the oldest first
unfoldable pub newest : ℕ → ℕ → (ℕ → ℕ) → List ℕ
newest zero h buf = []
newest (suc n) h buf = buf (dec h) ∷ newest n (dec h) buf

unfoldable pub oldest : ℕ → ℕ → (ℕ → ℕ) → List ℕ
oldest zero t buf = []
oldest (suc n) t buf = buf t ∷ oldest n (inc t) buf

-- What is in a queue, from its head and from its tail.
abbrev pub typed : TtyQueue → List ℕ
typed q = newest (chars_in q) q.head q.buf

abbrev pub waiting : TtyQueue → List ℕ
waiting q = oldest (chars_in q) q.tail q.buf

newest-update :
    (n k h h' c : ℕ) (buf : ℕ → ℕ)
    → k + n < 1024
    → h < 1024
    → h' ≡ (h + 1024 - k) % 1024
    → newest n h' (update buf h c) ≡ newest n h' buf
unfolding newest
newest-update zero k h h' c buf lt small e = refl
newest-update (suc n) k h h' c buf lt small e =
    ap₂ ◌∷◌ (update_ne buf h (dec h') c (omega arith))
      (newest-update n (k + 1) h (dec h') c buf (omega arith) small (omega arith))

dec-inc : (h : ℕ) → h < 1024 → dec (inc h) ≡ h
dec-inc h lt = omega arith

chars_put :
    (h t : ℕ)
    → h < 1024
    → t < 1024
    → ((t + modulus - h + modulus - 1) % 1024 == 0) ≡ false
    → (inc h + modulus - t) % 1024 ≡ suc ((h + modulus - t) % 1024)
chars_put h t l l' room = ground arith

chars_take :
    (h t : ℕ)
    → h < 1024
    → t < 1024
    → (h == t) ≡ false
    → ((h + modulus - t) % 1024 ≡ suc ((h + modulus - inc t) % 1024))
      × ((h + modulus - t) % 1024 ≡ suc ((dec h + modulus - t) % 1024))
chars_take h t l l' filled = ground arith

-- PUTCH on a queue that is not full.
pub typed-putch :
    (q : TtyQueue) (c : ℕ)
    → IsQueue q
    → is_full q ≡ false
    → (typed (putch c q) ≡ c ∷ typed q) × IsQueue (putch c q)
unfolding newest
typed-putch q c v room = (
  rw
      (
        chars_put q.head q.tail v.head_small v.tail_small room,
        dec-inc q.head v.head_small,
        update_self q.buf q.head c,
      )
      (ap (◌∷◌ c) (
        newest-update (chars_in q) 0 q.head q.head c q.buf (omega arith) v.head_small
          (omega arith))),
  record { head_small = omega arith; tail_small = v.tail_small },
)

-- LAST and DEC on a queue that is not empty.
pub typed-last_of :
    (q : TtyQueue)
    → IsQueue q
    → is_empty q ≡ false
    → (typed q ≡ last_of q ∷ typed (record q { head = dec q.head }))
      × IsQueue (record q { head = dec q.head })
unfolding newest
typed-last_of q v filled = (
  rw ((chars_take q.head q.tail v.head_small v.tail_small filled).1) refl,
  record { head_small = omega arith; tail_small = v.tail_small },
)

-- GETCH on a queue that is not empty.
pub waiting-getch :
    (q : TtyQueue)
    → IsQueue q
    → is_empty q ≡ false
    → (waiting q ≡ q.buf q.tail ∷ waiting (getch q))
      × (chars_in q ≡ suc (chars_in (getch q)))
      × IsQueue (getch q)
unfolding oldest
waiting-getch q v filled =
    let less = (chars_take q.head q.tail v.head_small v.tail_small filled).0 in
    (rw less refl, less, record { head_small = v.head_small; tail_small = omega arith })

pub empty-lists : (q : TtyQueue) → IsQueue q → is_empty q ≡ true → (typed q ≡ []) × (waiting q ≡ [])
unfolding newest oldest
empty-lists q v e = let z : chars_in q ≡ 0 = ground (arith, v.head_small) in rw z (refl, refl)

pub none_waiting : (q : TtyQueue) → chars_in q ≡ 0 → waiting q ≡ []
unfolding oldest
none_waiting q z = rw z refl

length-newest : (n h : ℕ) (buf : ℕ → ℕ) → length (newest n h buf) ≡ n
unfolding newest
length-newest zero h buf = refl
length-newest (suc n) h buf = omega (arith, length-newest n (dec h) buf)

pub length-typed : (q : TtyQueue) → length (typed q) < 1024
length-typed q = rw (length-newest (chars_in q) q.head q.buf) (omega arith)

length-oldest : (n t : ℕ) (buf : ℕ → ℕ) → length (oldest n t buf) ≡ n
unfolding oldest
length-oldest zero t buf = refl
length-oldest (suc n) t buf = omega (arith, length-oldest n (inc t) buf)

pub length-waiting : (q : TtyQueue) → length (waiting q) < 1024
length-waiting q = rw (length-oldest (chars_in q) q.tail q.buf) (omega arith)
