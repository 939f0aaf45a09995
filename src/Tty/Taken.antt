-- ===== src/Tty/Taken.antt =====
-- The inner loop of tty_read (kernel/tty_io.c): what it takes from the secondary queue.
use linux_0_1_1_comment.Prelude.{
  if◌then◌else◌, ne→==, if_both, ◌∈◌, length, subst, ℕ, zero, suc, ◌+◌, ◌-◌, ◌%◌, ◌≤◌, ◌<◌, ◌≡◌,
  refl, sym, ap, ◌∙◌, ◌⊎◌, inl, inr, Bool, true, false, ◌&&◌, List, [], ◌∷◌, ◌++◌, arith,
  ℕ_discrete,
}
use linux_0_1_1_comment.Tty.{
  TtyQueue, inc, dec, is_empty, chars_in, getch, Termios, veof, is_cc, Tty,
}
use linux_0_1_1_comment.Tty.Calls.{Taken, count_off, take_loop}
use linux_0_1_1_comment.Tty.Cooking.{ends_line}
use linux_0_1_1_comment.Tty.Keys.{count_ends_few}
use linux_0_1_1_comment.Tty.Lines.{Line, count_ends, Shows}
use linux_0_1_1_comment.Tty.Queues.{
  IsQueue, newest, oldest, waiting, waiting-getch, empty-lists, length-waiting,
}
use linux_0_1_1_comment.Word.{modulus, sub}

-- `line_count` is the number of ends among the characters of the queue.
pub record Exact (t : Termios) (q : TtyQueue) : Type 0 where
  pub ring : IsQueue q
  pub exact : q.line_count ≡ count_ends t (waiting q)

-- A line ends at an end of file only under ICANON.
abbrev pub IsEnd : Termios → ℕ → Type 0
IsEnd t c = (is_cc t veof c ≡ true) × (t.icanon ≡ true)

-- The bytes came from the front, and no end of file is among them: up to the first one, which is
-- lost, to `nr` of them or to the last.
pub record TakesLine (t : Termios) (nr : ℕ) (q : TtyQueue) (r : Taken) : Type 0 where
  pub still : Exact t r.queue
  pub few : length r.bytes ≤ nr
  pub before : (c : ℕ) → c ∈ r.bytes → IsEnd t c → ⊥
  pub ended :
      ((r.at_eof ≡ true) × (c : ℕ) × IsEnd t c × (waiting q ≡ r.bytes ++ c ∷ waiting r.queue))
      ⊎ ((r.at_eof ≡ false)
          × (waiting q ≡ r.bytes ++ waiting r.queue)
          × ((length r.bytes ≡ nr) ⊎ (waiting r.queue ≡ [])))

count_off-Exact :
    (t : Termios) (q : TtyQueue)
    → Exact t q
    → is_empty q ≡ false
    → Exact t (count_off t (q.buf q.tail) (getch q))
      × (waiting q ≡ q.buf q.tail ∷ waiting (count_off t (q.buf q.tail) (getch q)))
unfolding count_ends sub
count_off-Exact t q x filled =
    let c = q.buf q.tail in
    let (split, less, ring) = waiting-getch q x.ring filled in
    let all : q.line_count ≡ count_ends t (c ∷ waiting (getch q)) =
      x.exact ∙ ap (count_ends t) split in
    if_both {A = TtyQueue} (λ r. Exact t r × (waiting q ≡ c ∷ waiting r)) (ends_line t c)
      (λ e. (
        record {
          ring = record { head_small = ring.head_small; tail_small = ring.tail_small };
          exact =
              let more : q.line_count ≡ count_ends t (waiting (getch q)) + 1 = all ∙ rw e refl in
              let few = count_ends_few t (waiting (getch q)) in
              let short = length-waiting (getch q) in omega arith;
        },
        split,
      ))
      (λ e. (record { ring = ring; exact = all ∙ rw e refl }, split))

and_both : (a b : Bool) → (a && b) ≡ true → (a ≡ true) × (b ≡ true)
and_both true b e = (refl, e)
and_both false b e = absurd (ground arith)

not_end : (t : Termios) (c : ℕ) → (is_cc t veof c && t.icanon) ≡ false → IsEnd t c → ⊥
not_end t c e (is, line) =
    let both : (is_cc t veof c && t.icanon) ≡ true = rw (is, line) refl in ground arith

-- One more byte in front, which is no end of file.
before_more :
    (t : Termios) (c : ℕ) (cs : List ℕ)
    → (is_cc t veof c && t.icanon) ≡ false
    → ((d : ℕ) → d ∈ cs → IsEnd t d → ⊥)
    → (d : ℕ) → d ∈ (c ∷ cs)
    → IsEnd t d
    → ⊥
before_more t c cs e none_yet d i end = elim (ℕ_discrete d c) [
  | yes same ↦ not_end t c e (subst (IsEnd t) same end)
  | no ne ↦ none_yet d (ground (arith, ne→== d c ne)) end
]

-- A byte in front of those that are taken next.
TakesLine-byte :
    (t : Termios) (nr c : ℕ) (q q' : TtyQueue) (r : Taken)
    → waiting q ≡ c ∷ waiting q'
    → (is_cc t veof c && t.icanon) ≡ false
    → TakesLine t nr q' r
    → TakesLine t (suc nr) q (record r { bytes = c ∷ r.bytes })
TakesLine-byte t nr c q q' r split plain h = record {
  still = h.still;
  few = omega (arith, h.few);
  before = before_more t c r.bytes plain h.before;
  ended = elim h.ended [
    | inl (eof, d, is, e) ↦ inl (eof, d, is, split ∙ ap (◌∷◌ c) e)
    | inr (eof_not, e, stop) ↦
        inr (eof_not, split ∙ ap (◌∷◌ c) e, elim stop [ inl n ↦ inl (ap suc n) | inr n ↦ inr n ])
  ];
}

-- From a queue that is not empty and whose count is that of the ends in it, the loop of tty_read
-- takes bytes from the front, at most `nr`, and under ICANON none of them is an end of file; it
-- stops behind the first end of file under ICANON, which is lost, or after `nr` bytes, or when none
-- is left; and the count is again that of the ends in the queue.
pub take_loop-TakesLine :
    (nr : ℕ) (t : Termios) (q : TtyQueue)
    → Exact t q
    → is_empty q ≡ false
    → TakesLine t nr q (take_loop nr t q)
unfolding take_loop
take_loop-TakesLine zero t q x filled = record {
  still = x;
  few = omega arith;
  before = λ c i. absurd (ground arith);
  ended = inr (refl, refl, inl refl);
}
take_loop-TakesLine (suc nr) t q x filled =
    let c = q.buf q.tail in
    let q' = count_off t c (getch q) in
    let (x', split) = count_off-Exact t q x filled in
    if_both {A = Taken} (TakesLine t (suc nr) q) (is_cc t veof c && t.icanon)
      (λ e. record {
        still = x';
        few = omega arith;
        before = λ d i. absurd (ground arith);
        ended = inl (refl, c, and_both (is_cc t veof c) t.icanon e, split);
      })
      (λ e.
        if_both {A = Taken} (TakesLine t (suc nr) q) (is_empty q')
          (λ nothing. record {
            still = x';
            few = omega arith;
            before = before_more t c [] e (λ d i. absurd (ground arith));
            ended = inr (refl, split, inr (empty-lists q' x'.ring nothing).1);
          })
          (λ more.
            TakesLine-byte t nr c q q' (take_loop nr t q') split e
              (take_loop-TakesLine nr t q' x' more)))

swap_ends :
    (a b : Bool) (n : ℕ)
    → (if a then (if b then n + 1 else n) + 1 else (if b then n + 1 else n))
      ≡ (if b then (if a then n + 1 else n) + 1 else (if a then n + 1 else n))
swap_ends true true n = refl
swap_ends true false n = refl
swap_ends false b n = refl

-- One more at the far end.
count_ends-oldest :
    (s : Termios) (n t h : ℕ) (buf : ℕ → ℕ)
    → t < 1024
    → h ≡ (t + n) % 1024
    → count_ends s (oldest (suc n) t buf) ≡ (
        if ends_line s (buf h)
        then count_ends s (oldest n t buf) + 1
        else count_ends s (oldest n t buf))
unfolding oldest count_ends
count_ends-oldest s zero t h buf small e = let same : h ≡ t = omega arith in rw same refl
count_ends-oldest s (suc n) t h buf small e =
    let ih = count_ends-oldest s n (inc t) h buf (omega arith) (omega arith) in
    rw ih
      (swap_ends (ends_line s (buf t)) (ends_line s (buf h)) (count_ends s (oldest n (inc t) buf)))

at_head : (h t : ℕ) → h < 1024 → t < 1024 → h ≡ (t + (h + modulus - t) % 1024) % 1024
at_head h t l l' = omega arith

newest-oldest :
    (s : Termios) (n t h : ℕ) (buf : ℕ → ℕ)
    → t < 1024
    → n < 1024
    → h ≡ (t + n) % 1024
    → count_ends s (newest n h buf) ≡ count_ends s (oldest n t buf)
unfolding newest oldest count_ends
newest-oldest s zero t h buf small few e = refl
newest-oldest s (suc n) t h buf small few e =
    let ih = newest-oldest s n t (dec h) buf small (omega arith) (omega arith) in
    let far = count_ends-oldest s n t (dec h) buf small (omega arith) in rw ih (sym far)

-- The queue that copy_to_cooked leaves is one that tty_read can start from.
pub Shows-Exact :
    (t : Termios) (r : TtyQueue) (l : Line) (tty : Tty) → Shows t r l tty → Exact t tty.secondary
Shows-Exact t r l tty s = record {
  ring = s.ring;
  exact =
      let q = tty.secondary in
      s.counted
      ∙ ap (count_ends t) (sym s.shown)
      ∙ newest-oldest t (chars_in q) q.tail q.head q.buf s.ring.tail_small (omega arith)
          (at_head q.head q.tail s.ring.head_small s.ring.tail_small);
}
