-- ===== src/Console/Memory.antt =====
-- Scrolling and the plain characters of kernel/console.c store into the screen memory only.
-- Outside of the screen memory everything is as it was.
use linux_0_1_1_comment.Prelude.{
  ltb, leb, ◌==◌, ◌=/=◌, ltb→lt, ltb→ge, if_both, update, update_ne, ℕ, ◌+◌, ◌-◌, ◌*◌, ◌%◌, ◌≤◌,
  ◌<◌, ◌≡◌, refl, ◌∙◌, ◌⊎◌, inl, inr, ◌&&◌, ◌||◌, arith,
}
use linux_0_1_1_comment.Console.{
  screen_start, screen_end, lines, columns, blank, Screen, stosw, gotoxy,
}
use linux_0_1_1_comment.Console.Cursor.{OnScreen, moved-OnScreen}
use linux_0_1_1_comment.Console.Edits.{state-OnScreen, wrap_line-OnScreen}
use linux_0_1_1_comment.Console.Scroll.{region_longs, scroll_screen, scrup, scrdown, lf, ri, del}
use linux_0_1_1_comment.Console.Stores.{
  Away, stosw-Away, stosl-Away, movsl-Away, stosw_down_away, movsl_down_away,
}
use linux_0_1_1_comment.Console.Write.{wrap_line, put_char, tab, plain, escape, moves}
use linux_0_1_1_comment.Word.{add, sub, mul}

abbrev pub KeepsMemory : (ℕ → ℕ) → Screen → Type 0
KeepsMemory m t = (a : ℕ) → (a < screen_start) ⊎ (screen_end ≤ a) → t.vram a ≡ m a

pub within :
    (a start n : ℕ)
    → screen_start ≤ start
    → start + n ≤ screen_end
    → (a < screen_start) ⊎ (screen_end ≤ a)
    → Away a start n
within a start n lo hi (inl l) = inl (omega arith)
within a start n lo hi (inr r) = inr (omega arith)

region_longs_is : (s : Screen) → OnScreen s → region_longs s ≡ 40 * (s.bottom - s.top - 1)
unfolding mul sub
region_longs_is s f = let (lt, le) = f.region in omega arith

pub fill :
    (s : Screen) (n start : ℕ)
    → screen_start ≤ start
    → start + 2 * n ≤ screen_end
    → KeepsMemory s.vram (record s { vram = stosw n start s.vram })
fill s n start lo hi a o = stosw-Away n start a s.vram (within a start (2 * n) lo hi o)

pub scrup-KeepsMemory : (s : Screen) → OnScreen s → KeepsMemory s.vram (scrup s)
unfolding scrup scroll_screen add sub
scrup-KeepsMemory s f a o =
    let c = f.cursor in
    let (lt, le) = f.region in
    let longs = region_longs_is s f in
    if_both (λ (t : Screen). t.vram a ≡ s.vram a) ((s.top == 0) && (s.bottom == lines))
      (λ e.
        if_both (λ (t : Screen). t.vram a ≡ s.vram a)
          (ltb screen_end ((s.scr_end + 160) % 4294967296))
          (λ over.
            stosw-Away 80 757504 a _ (within a 757504 160 (omega arith) (omega arith) o)
            ∙ movsl-Away 960 753664 ((s.origin + 160) % 4294967296) a s.vram
                (within a 753664 3840 (omega arith) (omega arith) o))
          (λ fits.
            let small = ltb→ge screen_end ((s.scr_end + 160) % 4294967296) fits in
            stosl-Away 40 (((s.scr_end + 160) % 4294967296 + 4294967296 - 160) % 4294967296) a
              s.vram (within a _ 160 (omega arith) (omega arith) o)))
      (λ e.
        stosw-Away 80 _ a _
          (within a (s.origin + 160 * s.top + 4 * region_longs s) 160 (omega arith) (omega arith) o)
        ∙ movsl-Away (region_longs s) _ _ a s.vram
            (within a (s.origin + 160 * s.top) (4 * region_longs s) (omega arith) (omega arith) o))

pub scrdown-KeepsMemory : (s : Screen) → OnScreen s → KeepsMemory s.vram (scrdown s)
unfolding scrdown
scrdown-KeepsMemory s f a o =
    let c = f.cursor in
    let (lt, le) = f.region in
    let longs = region_longs_is s f in
    stosw_down_away 80 _ a _ (omega arith)
      (elim o [ inl l ↦ inr (omega arith) | inr r ↦ inl (omega arith) ])
    ∙ movsl_down_away (region_longs s) _ _ a s.vram (omega arith)
        (elim o [ inl l ↦ inr (omega arith) | inr r ↦ inl (omega arith) ])

lf-KeepsMemory : (s : Screen) → OnScreen s → KeepsMemory s.vram (lf s)
unfolding lf
lf-KeepsMemory s f =
    if_both (KeepsMemory s.vram) (ltb (s.y + 1) s.bottom) (λ e a o. refl)
      (λ e. scrup-KeepsMemory s f)

ri-KeepsMemory : (s : Screen) → OnScreen s → KeepsMemory s.vram (ri s)
unfolding ri
ri-KeepsMemory s f =
    if_both (KeepsMemory s.vram) (ltb s.top s.y) (λ e a o. refl) (λ e. scrdown-KeepsMemory s f)

-- from behind the end of a line
down-KeepsMemory :
    (s : Screen) (x pos : ℕ)
    → columns ≤ x
    → x ≤ 2 * columns
    → pos ≡ s.origin + 2 * (s.y * columns + x)
    → OnScreen s
    → KeepsMemory s.vram (lf (record s { x = x - columns; pos = sub pos (2 * columns) }))
unfolding sub
down-KeepsMemory s x pos lo hi e f =
    lf-KeepsMemory _
      (moved-OnScreen s (x - columns) s.y _ (omega arith) f.cursor.line (omega arith) f)

one_store :
    (s : Screen) (at v : ℕ)
    → screen_start ≤ at
    → at < screen_end
    → KeepsMemory s.vram (record s { vram = update s.vram at v })
one_store s at v lo hi a o =
    update_ne s.vram at a v
      (λ e. elim o [ inl l ↦ absurd (omega arith) | inr r ↦ absurd (omega arith) ])

wrap_line-KeepsMemory : (s : Screen) → OnScreen s → KeepsMemory s.vram (wrap_line s)
wrap_line-KeepsMemory s f =
    if_both (KeepsMemory s.vram) (leb columns s.x)
      (λ e. down-KeepsMemory s s.x s.pos (ground arith) (omega arith) f.cursor.shown f)
      (λ e a o. refl)

put_char-KeepsMemory :
    (c : ℕ) (s : Screen) → s.x < columns → OnScreen s → KeepsMemory s.vram (put_char c s)
put_char-KeepsMemory c s lt f =
    let cur = f.cursor in one_store s s.pos (c + 256 * s.attr) (omega arith) (omega arith)

tab-KeepsMemory : (s : Screen) → OnScreen s → KeepsMemory s.vram (tab s)
unfolding add
tab-KeepsMemory s f =
    let c = 8 - s.x % 8 in
    let cur = f.cursor in
    if_both (KeepsMemory s.vram) (ltb columns (s.x + c))
      (λ e.
        let lt = ltb→lt columns (s.x + c) e in
        down-KeepsMemory s (s.x + c) (add s.pos (2 * c)) (omega arith) (omega arith) (omega arith)
          f)
      (λ e a o. refl)

del-KeepsMemory : (s : Screen) → OnScreen s → KeepsMemory s.vram (del s)
unfolding del sub
del-KeepsMemory s f =
    let cur = f.cursor in
    if_both (KeepsMemory s.vram) (s.x =/= 0)
      (λ e.
        let pos : 1 ≤ s.x = ground arith in
        one_store s (sub s.pos 2) blank (omega arith) (omega arith))
      (λ e a o. refl)

pub plain-KeepsMemory :
    (erase c : ℕ) (s : Screen) → OnScreen s → KeepsMemory s.vram (plain erase c s)
unfolding plain
plain-KeepsMemory erase c s f =
    let (w, lt) = wrap_line-OnScreen s f in
    let P = KeepsMemory s.vram in
    if_both P (ltb 31 c && ltb c 127)
      (λ e a o. put_char-KeepsMemory c (wrap_line s) lt w a o ∙ wrap_line-KeepsMemory s f a o)
      (λ e.
        if_both P (c == 27) (λ e a o. refl)
          (λ e.
            if_both P ((c == 10) || (c == 11) || (c == 12)) (λ e. lf-KeepsMemory s f)
              (λ e.
                if_both P (c == 13) (λ e a o. refl)
                  (λ e.
                    if_both P (ltb c 128 && (c == erase)) (λ e. del-KeepsMemory s f)
                      (λ e.
                        if_both P (c == 8)
                          (λ e. if_both P (s.x =/= 0) (λ e a o. refl) (λ e a o. refl))
                          (λ e. if_both P (c == 9) (λ e. tab-KeepsMemory s f) (λ e a o. refl)))))))

gotoxy-KeepsMemory :
    (m : ℕ → ℕ) (x y : ℕ) (s : Screen) → KeepsMemory m s → KeepsMemory m (gotoxy x y s)
unfolding gotoxy
gotoxy-KeepsMemory m x y s k =
    if_both (KeepsMemory m) (leb columns x || leb lines y) (λ e. k) (λ e. k)

pub escape-KeepsMemory : (c : ℕ) (s : Screen) → OnScreen s → KeepsMemory s.vram (escape c s)
unfolding escape
escape-KeepsMemory c s0 f0 =
    let s = record s0 { state = 0 } in
    let f = state-OnScreen s0 0 (omega arith) f0 in
    let P = KeepsMemory s0.vram in
    if_both P (c == 91) (λ e a o. refl)
      (λ e.
        if_both P (c == 69) (λ e. gotoxy-KeepsMemory _ 0 (s.y + 1) s (λ a o. refl))
          (λ e.
            if_both P (c == 77) (λ e. ri-KeepsMemory s f)
              (λ e.
                if_both P (c == 68) (λ e. lf-KeepsMemory s f)
                  (λ e.
                    if_both P (c == 90) (λ e a o. refl)
                      (λ e.
                        if_both P (s.x == 55) (λ e a o. refl)
                          (λ e. if_both P (s.x == 56) (λ e a o. refl) (λ e a o. refl)))))))

pub moves-KeepsMemory : (c : ℕ) (s : Screen) → KeepsMemory s.vram (moves c s)
unfolding moves
moves-KeepsMemory c s =
    let P = KeepsMemory s.vram in
    if_both P ((c == 71) || (c == 96)) (λ e. gotoxy-KeepsMemory _ _ _ _ (λ a o. refl))
      (λ e.
        if_both P (c == 65) (λ e. gotoxy-KeepsMemory _ _ _ _ (λ a o. refl))
          (λ e.
            if_both P ((c == 66) || (c == 101)) (λ e. gotoxy-KeepsMemory _ _ _ _ (λ a o. refl))
              (λ e.
                if_both P ((c == 67) || (c == 97)) (λ e. gotoxy-KeepsMemory _ _ _ _ (λ a o. refl))
                  (λ e.
                    if_both P (c == 68) (λ e. gotoxy-KeepsMemory _ _ _ _ (λ a o. refl))
                      (λ e.
                        if_both P (c == 69) (λ e. gotoxy-KeepsMemory _ _ _ _ (λ a o. refl))
                          (λ e.
                            if_both P (c == 70) (λ e. gotoxy-KeepsMemory _ _ _ _ (λ a o. refl))
                              (λ e.
                                if_both P (c == 100) (λ e. gotoxy-KeepsMemory _ _ _ _ (λ a o. refl))
                                  (λ e.
                                    if_both P ((c == 72) || (c == 102))
                                      (λ e. gotoxy-KeepsMemory _ _ _ _ (λ a o. refl))
                                      (λ e a o. refl)))))))))
