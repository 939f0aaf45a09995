-- ===== src/Tty/Sent.antt =====
-- The inner loop of tty_write (kernel/tty_io.c): what it puts in the queue of the output.
use linux_0_1_1_comment.Prelude.{
  ◌==◌, if◌then◌else◌, Bool-cases, length, subst, ℕ, zero, suc, ◌+◌, ◌-◌, ◌*◌, ◌%◌, ◌≤◌, ◌<◌, ◌≡◌,
  refl, sym, ap, ◌∙◌, inl, inr, Bool, true, false, not, ◌&&◌, List, [], ◌∷◌, arith,
}
use linux_0_1_1_comment.Tty.{TtyQueue, inc, room_left, is_full, putch, Termios, toupper}
use linux_0_1_1_comment.Tty.Calls.{Sending, out_char, send_char, send_loop}
use linux_0_1_1_comment.Tty.Queues.{IsQueue, typed, typed-putch}
use linux_0_1_1_comment.Word.{modulus}

-- The characters that a byte becomes, put before `l`, which is the newest first.
abbrev pub sent_byte : (ℕ → Bool) → Termios → ℕ → List ℕ → List ℕ
sent_byte lower t b l =
    let c = out_char t b in
    let shown = if t.opost && t.olcuc then toupper lower c else c in
    if t.opost && (c == 10) && t.onlcr then shown ∷ 13 ∷ l else shown ∷ l

unfoldable pub sent : (ℕ → Bool) → Termios → List ℕ → List ℕ → List ℕ
sent lower t [] l = l
sent lower t (b ∷ bs) l = sent lower t bs (sent_byte lower t b l)

flag_clear : (a b d : Bool) → (a && b && not false && d) ≡ (a && b && d)
flag_clear true true d = refl
flag_clear true false d = refl
flag_clear false b d = refl

flag_set : (a b d : Bool) → (a && b && not true && d) ≡ false
flag_set true true d = refl
flag_set true false d = refl
flag_set false b d = refl

room_put :
    (h t : ℕ)
    → h < 1024
    → t < 1024
    → ((t + modulus - h + modulus - 1) % 1024 == 0) ≡ false
    → (t + modulus - h + modulus - 1) % 1024 ≡ suc ((t + modulus - inc h + modulus - 1) % 1024)
room_put h t l l' room = ground arith

-- PUTCH on a queue with room for `n` more.
putch-room :
    (q : TtyQueue) (c n : ℕ)
    → IsQueue q
    → suc n ≤ room_left q
    → (is_full q ≡ false)
      × (typed (putch c q) ≡ c ∷ typed q)
      × IsQueue (putch c q)
      × (n ≤ room_left (putch c q))
putch-room q c n v le =
    let free : is_full q ≡ false = ground arith in
    let (grown, v') = typed-putch q c v free in
    (free, grown, v', omega (arith, room_put q.head q.tail v.head_small v.tail_small free))

-- All bytes were taken, and the queue holds what they become.
pub record Sent (lower : ℕ → Bool) (t : Termios) (bs : List ℕ) (q : TtyQueue) (s : Sending)
    : Type 0 where
  pub all : s.left_over ≡ []
  pub closed : s.cr_flag ≡ false
  pub output : typed s.queue ≡ sent lower t bs (typed q)

abbrev pub sending : List ℕ → Bool → TtyQueue → Sending
sending bs cr q = record { left_over = bs; cr_flag = cr; queue = q }

module _ (lower : ℕ → Bool) (t : Termios) where
  send_loop-end :
      (fuel : ℕ) (q : TtyQueue) → send_loop lower t fuel (sending [] false q) ≡ sending [] false q
  unfolding send_loop
  send_loop-end zero q = refl
  send_loop-end (suc fuel) q = elim (Bool-cases (is_full q)) [
    | inl e ↦ rw e refl
    | inr e ↦ rw e (send_loop-end fuel q)
  ]

  abbrev shown_as : ℕ → ℕ
  shown_as b = let c = out_char t b in if t.opost && t.olcuc then toupper lower c else c

  abbrev makes_two : ℕ → Bool
  makes_two b = t.opost && (out_char t b == 10) && t.onlcr

  send_loop-next :
      (fuel b : ℕ) (bs : List ℕ) (cr : Bool) (q : TtyQueue)
      → is_full q ≡ false
      → send_loop lower t (suc fuel) (sending (b ∷ bs) cr q)
        ≡ send_loop lower t fuel (send_char lower t b bs (sending (b ∷ bs) cr q))
  unfolding send_loop
  send_loop-next fuel b bs cr q room = rw room refl

  send_char-two :
      (b : ℕ) (bs : List ℕ) (q : TtyQueue)
      → makes_two b ≡ true
      → send_char lower t b bs (sending (b ∷ bs) false q) ≡ sending (b ∷ bs) true (putch 13 q)
  unfolding send_char
  send_char-two b bs q e = rw (flag_clear t.opost (out_char t b == 10) t.onlcr ∙ e) refl

  send_char-one :
      (b : ℕ) (bs : List ℕ) (q : TtyQueue)
      → makes_two b ≡ false
      → send_char lower t b bs (sending (b ∷ bs) false q) ≡ sending bs false (putch (shown_as b) q)
  unfolding send_char
  send_char-one b bs q e = rw (flag_clear t.opost (out_char t b == 10) t.onlcr ∙ e) refl

  send_char-after :
      (b : ℕ) (bs : List ℕ) (q : TtyQueue)
      → send_char lower t b bs (sending (b ∷ bs) true q) ≡ sending bs false (putch (shown_as b) q)
  unfolding send_char
  send_char-after b bs q = rw (flag_set t.opost (out_char t b == 10) t.onlcr) refl

  -- A byte is taken, and the rest of the loop takes the others.
  Sent-byte :
      (b : ℕ) (bs : List ℕ) (q q' : TtyQueue) (s : Sending)
      → typed q' ≡ sent_byte lower t b (typed q)
      → Sent lower t bs q' s
      → Sent lower t (b ∷ bs) q s
  unfolding sent
  Sent-byte b bs q q' s e h = record {
    all = h.all;
    closed = h.closed;
    output = h.output ∙ ap (sent lower t bs) e;
  }

  -- With cr_flag clear, and room and rounds for twice the bytes, the loop of tty_write takes every
  -- byte and leaves cr_flag clear, and the queue has got what `sent` makes of them: with OPOST and
  -- ONLCR a ^M comes before each new line.
  pub send_loop-Sent :
      (bs : List ℕ) (fuel : ℕ) (q : TtyQueue)
      → IsQueue q
      → 2 * length bs ≤ room_left q
      → 2 * length bs ≤ fuel
      → Sent lower t bs q (send_loop lower t fuel (sending bs false q))
  unfolding sent
  send_loop-Sent [] fuel q v room le =
      rw (send_loop-end fuel q) (record { all = refl; closed = refl; output = refl })
  send_loop-Sent (b ∷ bs) zero q v room le = absurd (omega arith)
  send_loop-Sent (b ∷ bs) (suc zero) q v room le = absurd (omega arith)
  send_loop-Sent (b ∷ bs) (suc (suc fuel)) q v room le = elim (Bool-cases (makes_two b)) [
    | inr e ↦
        let (free, grown, v1, room1) = putch-room q (shown_as b) (2 * length bs) v (omega arith) in
        subst (Sent lower t (b ∷ bs) q)
          (sym (
            send_loop-next (suc fuel) b bs false q free
            ∙ ap (send_loop lower t (suc fuel)) (send_char-one b bs q e)))
          (Sent-byte b bs q (putch (shown_as b) q) _ (grown ∙ rw e refl)
            (send_loop-Sent bs (suc fuel) (putch (shown_as b) q) v1 room1 (omega arith)))
    | inl e ↦
        let (free, grown, v1, room1) = putch-room q 13 (suc (2 * length bs)) v (omega arith) in
        let (free1, grown1, v2, room2) =
          putch-room (putch 13 q) (shown_as b) (2 * length bs) v1 room1 in
        subst (Sent lower t (b ∷ bs) q)
          (sym (
            send_loop-next (suc fuel) b bs false q free
            ∙ ap (send_loop lower t (suc fuel)) (send_char-two b bs q e)
            ∙ send_loop-next fuel b bs true (putch 13 q) free1
            ∙ ap (send_loop lower t fuel) (send_char-after b bs (putch 13 q))))
          (Sent-byte b bs q (putch (shown_as b) (putch 13 q)) _
            (grown1 ∙ ap (◌∷◌ (shown_as b)) grown ∙ rw e refl)
            (send_loop-Sent bs fuel (putch (shown_as b) (putch 13 q)) v2 room2 (omega arith)))
  ]
