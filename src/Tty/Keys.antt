-- ===== src/Tty/Keys.antt =====
-- One character in copy_to_cooked of kernel/tty_io.c, and what it does to the line.
use linux_0_1_1_comment.Prelude.{
  if◌then◌else◌, Bool-cases, if_both, length, subst, ℕ, ◌≤◌, ◌≡◌, refl, sym, ap, ◌∙◌, inl, inr,
  Bool, true, false, not, ◌&&◌, ◌||◌, List, [], ◌∷◌, arith,
}
use linux_0_1_1_comment.Tty.{
  TtyQueue, is_empty, last_of, is_full, Termios, vintr, verase, vstart, vstop, is_cc, Tty,
}
use linux_0_1_1_comment.Tty.Cooking.{
  ends_line, drop_last, count_end, put_secondary, echo_erase, erase, echo_char, accept, cook_char,
}
use linux_0_1_1_comment.Tty.Lines.{Line, count_ends, erased, line_char, Shows}
use linux_0_1_1_comment.Tty.Queues.{
  IsQueue, typed, typed-putch, typed-last_of, empty-lists, length-typed,
}
use linux_0_1_1_comment.Word.{add, add_small}

pub count_ends_few : (t : Termios) (cs : List ℕ) → count_ends t cs ≤ length cs
unfolding count_ends
count_ends_few t [] = omega arith
count_ends_few t (c ∷ cs) = let ih = count_ends_few t cs in ground arith

-- The queue before PUTCH: the new character is counted, and there is room.
record Counts (t : Termios) (r : TtyQueue) (c : ℕ) (l : Line) (tty : Tty) : Type 0 where
  settings : tty.termios ≡ t
  ring : IsQueue tty.secondary
  room : is_full tty.secondary ≡ false
  shown : typed tty.secondary ≡ l.text
  counted : tty.secondary.line_count ≡ count_ends t (c ∷ l.text)
  flag : tty.stopped ≡ l.held
  input : tty.read_q ≡ r

or_left : (a b : Bool) → (a || b) ≡ false → a ≡ false
or_left true b e = e
or_left false b e = refl

cons_nil : {c : ℕ} {cs : List ℕ} → (c ∷ cs) ≡ [] → ⊥
cons_nil e = cc (e)

same_cons : {c d : ℕ} {cs ds : List ℕ} → (c ∷ cs) ≡ (d ∷ ds) → (c ≡ d) × (cs ≡ ds)
same_cons e = (cc (e), cc (e))

-- Both branches of the same test on two sides.
if_sides {ℓ μ κ} :
    {A : Type ℓ} {B : Type μ} (P : A → B → Type κ) (b : Bool) {x y : A} {x' y' : B}
    → P x x'
    → (b ≡ false → P y y')
    → P (if b then x else y) (if b then x' else y')
if_sides P true f g = f
if_sides P false f g = g refl

count_end-Counts :
    (t : Termios) (r : TtyQueue) (c : ℕ) (l : Line) (tty : Tty)
    → Shows t r l tty
    → is_full tty.secondary ≡ false
    → Counts t r c l (count_end c tty)
unfolding count_ends
count_end-Counts t r c l tty s room =
    if_both (Counts t r c l) (ends_line tty.termios c)
      (λ e. record {
        settings = s.settings;
        ring = record { head_small = s.ring.head_small; tail_small = s.ring.tail_small };
        room = room;
        shown = s.shown;
        counted =
            let e' : ends_line t c ≡ true = subst (λ t. ends_line t c ≡ true) s.settings e in
            let few = count_ends_few t l.text in
            let short = length-typed tty.secondary in
            let same : length (typed tty.secondary) ≡ length l.text = ap length s.shown in
            rw e' (ap (λ n. add n 1) s.counted ∙ add_small (count_ends t l.text) 1 (omega arith));
        flag = s.flag;
        input = s.input;
      })
      (λ e. record {
        settings = s.settings;
        ring = s.ring;
        room = room;
        shown = s.shown;
        counted =
            let e' : ends_line t c ≡ false = subst (λ t. ends_line t c ≡ false) s.settings e in
            rw e' s.counted;
        flag = s.flag;
        input = s.input;
      })

module _ (write : TtyQueue → TtyQueue) where
  echo_char-Counts :
      (t : Termios) (r : TtyQueue) (c : ℕ) (l : Line) (tty : Tty)
      → Counts t r c l tty
      → Counts t r c l (echo_char write c tty)
  echo_char-Counts t r c l tty s =
      if_both (Counts t r c l) tty.termios.echo
        (λ e. record {
          settings = s.settings;
          ring = s.ring;
          room = s.room;
          shown = s.shown;
          counted = s.counted;
          flag = s.flag;
          input = s.input;
        })
        (λ e. s)

  put_secondary-Shows :
      (t : Termios) (r : TtyQueue) (c : ℕ) (l : Line) (tty : Tty)
      → Counts t r c l tty
      → Shows t r (record l { text = c ∷ l.text }) (put_secondary c tty)
  put_secondary-Shows t r c l tty s =
      let (shown, ring) = typed-putch tty.secondary c s.ring s.room in
      record {
        settings = s.settings;
        ring = ring;
        shown = shown ∙ ap (◌∷◌ c) s.shown;
        counted = s.counted;
        flag = s.flag;
        input = s.input;
      }

  accept-Shows :
      (t : Termios) (r : TtyQueue) (c : ℕ) (l : Line) (tty : Tty)
      → Shows t r l tty
      → is_full tty.secondary ≡ false
      → Shows t r (record l { text = c ∷ l.text }) (accept write c tty)
  unfolding accept
  accept-Shows t r c l tty s room =
      put_secondary-Shows t r c l (echo_char write c (count_end c tty))
        (echo_char-Counts t r c l (count_end c tty) (count_end-Counts t r c l tty s room))

  echo_erase-Shows :
      (t : Termios) (r : TtyQueue) (c : ℕ) (l : Line) (tty : Tty)
      → Shows t r l tty
      → Shows t r l (echo_erase write c tty)
  echo_erase-Shows t r c l tty s =
      if_both (Shows t r l) tty.termios.echo
        (λ e. record {
          settings = s.settings;
          ring = s.ring;
          shown = s.shown;
          counted = s.counted;
          flag = s.flag;
          input = s.input;
        })
        (λ e. s)

  -- DEC of a queue whose last character ends no line.
  drop_last-Shows :
      (t : Termios) (r : TtyQueue) (c : ℕ) (cs : List ℕ) (held : Bool) (tty : Tty)
      → Shows t r (record { text = c ∷ cs; held = held }) tty
      → is_empty tty.secondary ≡ false
      → ends_line t c ≡ false
      → Shows t r (record { text = cs; held = held }) (drop_last tty)
  unfolding count_ends
  drop_last-Shows t r c cs held tty s filled inner =
      let (split, ring) = typed-last_of tty.secondary s.ring filled in
      let ends : count_ends t (c ∷ cs) ≡ count_ends t cs = rw inner refl in
      record {
        settings = s.settings;
        ring = ring;
        shown = (same_cons (sym split ∙ s.shown)).1;
        counted = s.counted ∙ ends;
        flag = s.flag;
        input = s.input;
      }

  echo_erase-secondary : (c : ℕ) (tty : Tty) → (echo_erase write c tty).secondary ≡ tty.secondary
  echo_erase-secondary c tty =
      if_both {A = Tty} (λ x. x.secondary ≡ tty.secondary) tty.termios.echo (λ e. refl) (λ e. refl)

  -- Where the last character is `c`.
  erase_last :
      (r : TtyQueue) (c : ℕ) (cs : List ℕ) (held : Bool) (tty : Tty)
      → Shows tty.termios r (record { text = c ∷ cs; held = held }) tty
      → is_empty tty.secondary ≡ false
      → Shows tty.termios r
          (record { text = erased tty.termios (c ∷ cs); held = held })
          (if ends_line tty.termios c then tty else drop_last (echo_erase write c tty))
  unfolding erased
  erase_last r c cs held tty s filled =
      let t = tty.termios in
      if_sides (λ text tty. Shows t r (record { text = text; held = held }) tty) (ends_line t c) s
        (λ inner.
          drop_last-Shows t r c cs held (echo_erase write c tty)
            (echo_erase-Shows t r c (record { text = c ∷ cs; held = held }) tty s)
            (ap is_empty (echo_erase-secondary c tty) ∙ filled) inner)

  erase_text :
      (r : TtyQueue) (text : List ℕ) (held : Bool) (tty : Tty)
      → Shows tty.termios r (record { text = text; held = held }) tty
      → Shows tty.termios r
          (record { text = erased tty.termios text; held = held })
          (erase write tty)
  unfolding erase erased
  erase_text r [] held tty s =
      if_both (Shows tty.termios r (record { text = []; held = held }))
        (is_empty tty.secondary || ends_line tty.termios (last_of tty.secondary)) (λ e. s)
        (λ e.
          absurd (cons_nil (sym (typed-last_of tty.secondary s.ring (or_left _ _ e)).0 ∙ s.shown)))
  erase_text r (c ∷ cs) held tty s = elim (Bool-cases (is_empty tty.secondary)) [
    | inl e ↦ absurd (cons_nil (sym s.shown ∙ (empty-lists tty.secondary s.ring e).0))
    | inr e ↦
        let split = (typed-last_of tty.secondary s.ring e).0 in
        let last : last_of tty.secondary ≡ c = (same_cons (sym split ∙ s.shown)).0 in
        rw (e, last) (erase_last r c cs held tty s e)
  ]

  -- The erase character.
  erase-Shows :
      (r : TtyQueue) (l : Line) (tty : Tty)
      → Shows tty.termios r l tty
      → Shows tty.termios r (record l { text = erased tty.termios l.text }) (erase write tty)
  unfolding erase erased
  erase-Shows r l tty s = erase_text r l.text l.held tty s

  -- One round on a character that is mapped.
  pub cook_char-Shows :
      (r : TtyQueue) (c : ℕ) (l : Line) (tty : Tty)
      → Shows tty.termios r l tty
      → is_full tty.secondary ≡ false
      → Shows tty.termios r (line_char tty.termios c l) (cook_char write c tty)
  unfolding cook_char line_char
  cook_char-Shows r c l tty s room =
      let t = tty.termios in
      let flagged : (b : Bool) → Shows t r (record l { held = b }) (record tty { stopped = b }) =
        λ b. record {
          settings = refl;
          ring = s.ring;
          shown = s.shown;
          counted = s.counted;
          flag = refl;
          input = s.input;
        } in
      if_sides (Shows t r) (t.icanon && is_cc t verase c) (erase-Shows r l tty s) (λ e.
        if_sides (Shows t r) (t.icanon && is_cc t vstop c) (flagged true) (λ e.
          if_sides (Shows t r) (t.icanon && is_cc t vstart c) (flagged false) (λ e.
            if_sides (Shows t r) (not t.isig && is_cc t vintr c)
              (record {
                settings = refl;
                ring = s.ring;
                shown = s.shown;
                counted = s.counted;
                flag = s.flag;
                input = s.input;
              })
              (λ e. accept-Shows t r c l tty s room))))
