-- ===== src/Pipe/Fifo.antt =====
-- read_pipe and write_pipe (fs/pipe.c) as operations on a queue.
use mathlib.Core.List.{append-nil, append_assoc}
use linux_0_1_1_comment.Prelude.{
  Bool-cases, ne→=/=, ≡→=/=, length, min, ℕ, zero, suc, ◌+◌, ◌≡◌, refl, sym, ap, ◌∙◌, ◌≢◌, inl, inr,
  false, List, [], ◌∷◌, ◌++◌, arith, ℕ_discrete,
}
use linux_0_1_1_comment.Pipe.{
  Pipe, pipe_size, pipe_empty, pipe_full, get_byte, put_byte, read_loop, ReadResult, read_done,
  read_sleeps, read_pipe, WriteResult, write_done, sigpipe, write_sleeps, write_loop,
}
use linux_0_1_1_comment.Pipe.Ring.{IsValid, contents, contents-put, contents-get, contents-empty}

-- What was taken, with what is left, is what was there; and it is as much as was asked for, or all.
pub record Taken (count : ℕ) (p : Pipe) (bs : List ℕ) (p' : Pipe) : Type 0 where
  pub split : contents p ≡ bs ++ contents p'
  pub amount : length bs ≡ min count (pipe_size p)
  pub still_valid : IsValid p'
  pub same_ends : p'.ends ≡ p.ends

read_loop-Taken :
    (count : ℕ) (p : Pipe) → IsValid p → Taken count p (read_loop count p).0 (read_loop count p).1
unfolding read_loop
read_loop-Taken zero p v = record {
  split = refl;
  amount = omega arith;
  still_valid = v;
  same_ends = refl;
}
read_loop-Taken (suc count) p v = elim (Bool-cases (pipe_empty p)) [
  | inl none_left ↦ rw none_left (record {
    split = refl;
    amount = ground (arith, v.head_small);
    still_valid = v;
    same_ends = refl;
  })
  | inr filled ↦
      let (first, v', less) = contents-get p v filled in
      let t = read_loop-Taken count (get_byte p) v' in
      rw filled (record {
        split = first ∙ ap (◌∷◌ (p.page p.tail)) t.split;
        amount = omega (arith, t.amount);
        still_valid = t.still_valid;
        same_ends = t.same_ends;
      })
]

-- What read_pipe does. A read from an empty pipe sleeps while there are writers, and else is the
-- end of the file.
pub data Reads (count : ℕ) (p : Pipe) : ReadResult → Type 0 where
  got :
      {bs : List ℕ} {p' : Pipe}
      → contents p ≢ []
      → Taken count p bs p'
      → Reads count p (read_done bs p')
  end_of_file : contents p ≡ [] → p.ends ≢ 2 → Reads count p (read_done [] p)
  waits : contents p ≡ [] → p.ends ≡ 2 → Reads count p (read_sleeps p)

filled_ne : (p : Pipe) → IsValid p → pipe_empty p ≡ false → contents p ≢ []
filled_ne p v filled e = cc ((contents-get p v filled).0)

-- On a valid pipe read_pipe takes from the front of the contents as many bytes as were asked for,
-- or all; when there are none it sleeps while there are writers, and else reports the end of the
-- file.
pub read_pipe-Reads : (count : ℕ) (p : Pipe) → IsValid p → Reads count p (read_pipe count p)
unfolding read_pipe
read_pipe-Reads count p v = elim (Bool-cases (pipe_empty p)) [
  | inl none_left ↦ rw none_left (elim (ℕ_discrete p.ends 2) [
    | yes both ↦ rw (≡→=/= p.ends 2 both) (waits (contents-empty p v none_left) both)
    | no one ↦ rw (ne→=/= p.ends 2 one) (end_of_file (contents-empty p v none_left) one)
  ])
  | inr filled ↦ rw filled (got (filled_ne p v filled) (read_loop-Taken count p v))
]

-- What write_pipe has done where it stops: `front` of the bytes stand behind the contents. It
-- stops early only on a full pipe.
pub data Wrote (p : Pipe) (buf : List ℕ) (start : ℕ) : WriteResult → Type 0 where
  all :
      {n : ℕ} {p' : Pipe}
      → n ≡ start + length buf
      → IsValid p'
      → contents p' ≡ contents p ++ buf
      → p'.ends ≡ p.ends
      → Wrote p buf start (write_done n p')
  no_reader :
      {n : ℕ} {p' : Pipe} (front back : List ℕ)
      → buf ≡ front ++ back
      → n ≡ start + length front
      → IsValid p'
      → contents p' ≡ contents p ++ front
      → p'.ends ≡ p.ends
      → p.ends ≢ 2
      → Wrote p buf start (sigpipe n p')
  pipe_is_full :
      {n : ℕ} {p' : Pipe} (front back : List ℕ)
      → buf ≡ front ++ back
      → n ≡ start + length front
      → IsValid p'
      → contents p' ≡ contents p ++ front
      → p'.ends ≡ p.ends
      → pipe_size p' ≡ 4095
      → p.ends ≡ 2
      → Wrote p buf start (write_sleeps n p')

Wrote-cons :
    (p q : Pipe) (b : ℕ) (buf : List ℕ) (start : ℕ) (r : WriteResult)
    → contents q ≡ contents p ++ b ∷ []
    → q.ends ≡ p.ends
    → Wrote q buf (start + 1) r
    → Wrote p (b ∷ buf) start r
Wrote-cons p q b buf start r e s (all en v ec es) =
    all (omega arith) v (ec ∙ ap (λ x. x ++ buf) e ∙ append_assoc (contents p) (b ∷ []) buf)
      (es ∙ s)
Wrote-cons p q b buf start r e s (no_reader front back eb en v ec es ne) =
    no_reader (b ∷ front) back (ap (◌∷◌ b) eb) (omega arith) v
      (ec ∙ ap (λ x. x ++ front) e ∙ append_assoc (contents p) (b ∷ []) front) (es ∙ s) (rw s at ne)
Wrote-cons p q b buf start r e s (pipe_is_full front back eb en v ec es full two) =
    pipe_is_full (b ∷ front) back (ap (◌∷◌ b) eb) (omega arith) v
      (ec ∙ ap (λ x. x ++ front) e ∙ append_assoc (contents p) (b ∷ []) front) (es ∙ s) full
      (rw s at two)

-- On a valid pipe the loop of write_pipe puts the bytes behind the contents in order; it stops
-- before the last one only on a full pipe, to sleep while there are readers, and with SIGPIPE when
-- there are none.
pub write_loop-Wrote :
    (buf : List ℕ) (start : ℕ) (p : Pipe) → IsValid p → Wrote p buf start (write_loop buf start p)
unfolding write_loop
write_loop-Wrote [] start p v = all (omega arith) v (sym (append-nil (contents p))) refl
write_loop-Wrote (b ∷ buf) start p v = elim (Bool-cases (pipe_full p)) [
  | inl full ↦ rw full (elim (ℕ_discrete p.ends 2) [
    | yes both ↦ rw (≡→=/= p.ends 2 both) (
        pipe_is_full [] (b ∷ buf) refl (omega arith) v (sym (append-nil (contents p))) refl
          (ground arith) both)
    | no one ↦
        rw (ne→=/= p.ends 2 one)
          (no_reader [] (b ∷ buf) refl (omega arith) v (sym (append-nil (contents p))) refl one)
  ])
  | inr room ↦
      let (behind, v', _) = contents-put p b v room in
      rw room (
        Wrote-cons p (put_byte p b) b buf start _ behind refl
          (write_loop-Wrote buf (start + 1) (put_byte p b) v'))
]
