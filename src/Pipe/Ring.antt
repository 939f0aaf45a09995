-- ===== src/Pipe/Ring.antt =====
-- The ring of a pipe (fs/pipe.c) as a queue of bytes.
use mathlib.Core.Path.{ap₂}
use linux_0_1_1_comment.Prelude.{
  ◌==◌, update, update_ne, length, ℕ, zero, suc, ◌+◌, ◌-◌, ◌%◌, ◌<◌, ◌≡◌, refl, true, false, List,
  [], ◌∷◌, ◌++◌, arith,
}
use linux_0_1_1_comment.Pipe.{Pipe, pipe_size, pipe_empty, pipe_full, inc_pipe, get_byte, put_byte}
use linux_0_1_1_comment.Word.{modulus}

pub record IsValid (p : Pipe) : Type 0 where
  pub head_small : p.head < 4096
  pub tail_small : p.tail < 4096

-- `n` bytes of the page from `t` on, round the end
unfoldable pub bytes : ℕ → ℕ → (ℕ → ℕ) → List ℕ
bytes zero t page = []
bytes (suc n) t page = page t ∷ bytes n (inc_pipe t) page

-- Oldest first.
abbrev pub contents : Pipe → List ℕ
contents p = bytes (pipe_size p) p.tail p.page

pub length-bytes : (n t : ℕ) (page : ℕ → ℕ) → length (bytes n t page) ≡ n
unfolding bytes
length-bytes zero t page = refl
length-bytes (suc n) t page = omega (arith, length-bytes n (inc_pipe t) page)

-- A byte put behind `n` others, on a page that they do not fill.
bytes-put :
    (n t h : ℕ) (page : ℕ → ℕ) (b : ℕ)
    → n < 4096
    → t < 4096
    → h ≡ (t + n) % 4096
    → bytes (suc n) t (update page h b) ≡ bytes n t page ++ b ∷ []
unfolding bytes
bytes-put zero t h page b l t' e = ground arith
bytes-put (suc n) t h page b l t' e =
    ap₂ ◌∷◌ (update_ne page h t b (omega arith))
      (bytes-put n (inc_pipe t) h page b (omega arith) (omega arith) (omega arith))

size_put :
    (h t : ℕ)
    → h < 4096
    → t < 4096
    → ((h + modulus - t) % 4096 == 4095) ≡ false
    → ((inc_pipe h + modulus - t) % 4096 ≡ suc ((h + modulus - t) % 4096))
      × (h ≡ (t + (h + modulus - t) % 4096) % 4096)
size_put h t l l' e = ground arith

size_get :
    (h t : ℕ)
    → h < 4096
    → t < 4096
    → (h == t) ≡ false
    → suc ((h + modulus - inc_pipe t) % 4096) ≡ (h + modulus - t) % 4096
size_get h t l l' e = ground arith

-- Behind a byte that is put in.
pub contents-put :
    (p : Pipe) (b : ℕ)
    → IsValid p
    → pipe_full p ≡ false
    → (contents (put_byte p b) ≡ contents p ++ b ∷ [])
      × IsValid (put_byte p b)
      × (pipe_size (put_byte p b) ≡ suc (pipe_size p))
contents-put p b v room =
    let (grown, at) = size_put p.head p.tail v.head_small v.tail_small room in
    (
      rw grown (bytes-put (pipe_size p) p.tail p.head p.page b (omega arith) v.tail_small at),
      record { head_small = omega arith; tail_small = v.tail_small },
      grown,
    )

-- Behind the byte that is taken out.
pub contents-get :
    (p : Pipe)
    → IsValid p
    → pipe_empty p ≡ false
    → (contents p ≡ p.page p.tail ∷ contents (get_byte p))
      × IsValid (get_byte p)
      × (suc (pipe_size (get_byte p)) ≡ pipe_size p)
unfolding bytes
contents-get p v filled =
    let less = size_get p.head p.tail v.head_small v.tail_small filled in
    (rw (← less) refl, record { head_small = v.head_small; tail_small = omega arith }, less)

pub contents-empty : (p : Pipe) → IsValid p → pipe_empty p ≡ true → contents p ≡ []
unfolding bytes
contents-empty p v e = let z : pipe_size p ≡ 0 = ground (arith, v.head_small) in rw z
