-- ===== src/Tty/Rounds.antt =====
-- The loop of copy_to_cooked of kernel/tty_io.c.
use linux_0_1_1_comment.Prelude.{
  if◌then◌else◌, Bool-cases, subst, ℕ, zero, suc, ◌≤◌, ◌≡◌, refl, sym, ap, ◌∙◌, ◌⊎◌, inl, inr, Bool,
  true, false, Option, none, some, List, [], ◌∷◌, ◌++◌, arith,
}
use linux_0_1_1_comment.Tty.{TtyQueue, is_empty, is_full, chars_in, getch, Termios, Tty, tolower}
use linux_0_1_1_comment.Tty.Cooking.{cr_or_nl, cook_mapped, cook_next, cook_loop, copy_to_cooked}
use linux_0_1_1_comment.Tty.Keys.{cook_char-Shows}
use linux_0_1_1_comment.Tty.Lines.{Line, line_mapped, line_all, Shows}
use linux_0_1_1_comment.Tty.Queues.{IsQueue, waiting, waiting-getch, empty-lists, none_waiting}

module _ (write : TtyQueue → TtyQueue) (upper : ℕ → Bool) where
  cook_mapped-Shows :
      (r : TtyQueue) (o : Option ℕ) (l : Line) (tty : Tty)
      → Shows tty.termios r l tty
      → is_full tty.secondary ≡ false
      → Shows tty.termios r (line_mapped upper tty.termios o l) (cook_mapped write upper o tty)
  cook_mapped-Shows r none l tty s room = s
  cook_mapped-Shows r (some c) l tty s room =
      cook_char-Shows write r (if tty.termios.iuclc then tolower upper c else c) l tty s room

  cook_next_here :
      (l : Line) (tty : Tty)
      → Shows tty.termios tty.read_q l tty
      → is_full tty.secondary ≡ false
      → Shows tty.termios
          (getch tty.read_q)
          (line_mapped upper tty.termios (cr_or_nl tty.termios (tty.read_q.buf tty.read_q.tail)) l)
          (cook_next write upper tty)
  unfolding cook_next
  cook_next_here l tty s room =
      cook_mapped-Shows (getch tty.read_q) (cr_or_nl tty.termios (tty.read_q.buf tty.read_q.tail)) l
        (record tty { read_q = getch tty.read_q })
        (record {
          settings = refl;
          ring = s.ring;
          shown = s.shown;
          counted = s.counted;
          flag = s.flag;
          input = refl;
        })
        room

  cook_next-Shows :
      (t : Termios) (r : TtyQueue) (l : Line) (tty : Tty)
      → Shows t r l tty
      → is_full tty.secondary ≡ false
      → Shows t
          (getch r)
          (line_mapped upper t (cr_or_nl t (r.buf r.tail)) l)
          (cook_next write upper tty)
  cook_next-Shows t r l tty s room =
      let here =
        subst (λ t. Shows t tty.read_q l tty) (sym s.settings)
          (subst (λ r. Shows t r l tty) (sym s.input) s) in
      subst
        (λ r.
          Shows t (getch r) (line_mapped upper t (cr_or_nl t (r.buf r.tail)) l)
            (cook_next write upper tty))
        s.input
        (subst
          (λ t.
            Shows t (getch tty.read_q)
              (line_mapped upper t (cr_or_nl t (tty.read_q.buf tty.read_q.tail)) l)
              (cook_next write upper tty))
          s.settings (cook_next_here l tty here room))

-- Some characters were taken from the input `r`, all of them or until the secondary queue was full;
-- it holds the line that they make of the line before.
pub record Cooked (upper : ℕ → Bool) (t : Termios) (r : TtyQueue) (l : Line) (tty : Tty)
    : Type 0 where
  pub taken : List ℕ
  pub left : List ℕ
  pub split : waiting r ≡ taken ++ left
  pub in_queue : waiting tty.read_q ≡ left
  pub shows : Shows t tty.read_q (line_all upper t taken l) tty
  pub stops : (left ≡ []) ⊎ (is_full tty.secondary ≡ true)

module _ (write : TtyQueue → TtyQueue) (upper : ℕ → Bool) (t : Termios) where
  -- Nothing is taken.
  rests-Cooked :
      (r : TtyQueue) (l : Line) (tty : Tty)
      → Shows t r l tty
      → (waiting r ≡ []) ⊎ (is_full tty.secondary ≡ true)
      → Cooked upper t r l tty
  unfolding line_all
  rests-Cooked r l tty s stop = record {
    taken = [];
    left = waiting r;
    split = refl;
    in_queue = ap waiting s.input;
    shows = subst (λ r. Shows t r l tty) (sym s.input) s;
    stops = stop;
  }

  next-Cooked :
      (r : TtyQueue) (l : Line) (tty : Tty)
      → waiting r ≡ r.buf r.tail ∷ waiting (getch r)
      → Cooked upper t (getch r) (line_mapped upper t (cr_or_nl t (r.buf r.tail)) l) tty
      → Cooked upper t r l tty
  unfolding line_all
  next-Cooked r l tty first c = record {
    taken = r.buf r.tail ∷ c.taken;
    left = c.left;
    split = first ∙ ap (◌∷◌ (r.buf r.tail)) c.split;
    in_queue = c.in_queue;
    shows = c.shows;
    stops = c.stops;
  }

  cook_loop-Cooked :
      (fuel : ℕ) (r : TtyQueue) (l : Line) (tty : Tty)
      → IsQueue r
      → chars_in r ≤ fuel
      → Shows t r l tty
      → Cooked upper t r l (cook_loop write upper fuel tty)
  unfolding cook_loop
  cook_loop-Cooked zero r l tty q le s = rests-Cooked r l tty s (inl (none_waiting r (omega arith)))
  cook_loop-Cooked (suc fuel) r l tty q le s = elim (Bool-cases (is_empty r)) [
    | inl e ↦ rw (ap is_empty s.input ∙ e) (rests-Cooked r l tty s (inl (empty-lists r q e).1))
    | inr e ↦ elim (Bool-cases (is_full tty.secondary)) [
      | inl full ↦ rw (ap is_empty s.input ∙ e, full) (rests-Cooked r l tty s (inr full))
      | inr room ↦
          let (first, fewer, q') = waiting-getch r q e in
          rw (ap is_empty s.input ∙ e, room)
            (next-Cooked r l (cook_loop write upper fuel (cook_next write upper tty)) first (
              cook_loop-Cooked fuel (getch r) (line_mapped upper t (cr_or_nl t (r.buf r.tail)) l)
                (cook_next write upper tty) q' (omega arith)
                (cook_next-Shows write upper t r l tty s room)))
    ]
  ]

  -- Where the input is a queue, and the secondary queue holds the line `l` and counts its ends:
  -- copy_to_cooked takes characters from the front of the input until none is left or the secondary
  -- queue is full, and the secondary queue then holds, and counts the ends of, the line that
  -- `line_all` makes of `l` with the characters taken; the stop flag follows too. Whatever
  -- tty->write does to the queue of the output, and whatever isupper finds beyond its table.
  pub copy_to_cooked-Cooked :
      (l : Line) (tty : Tty)
      → IsQueue tty.read_q
      → Shows t tty.read_q l tty
      → Cooked upper t tty.read_q l (copy_to_cooked write upper tty)
  unfolding copy_to_cooked
  copy_to_cooked-Cooked l tty q s =
      cook_loop-Cooked (chars_in tty.read_q) tty.read_q l tty q (omega arith) s
