-- ===== src/Buffer/Start.antt =====
-- buffer_init of fs/buffer.c makes a sound cache.
-- what a round leaves of buffer head `a`
use linux_0_1_1_comment.Prelude.{
  leb, ◌==◌, if◌then◌else◌, if_both, ◌∈◌, ◌∉◌, Distinct, update_self, update_ne, length, subst, ℕ,
  zero, suc, ◌+◌, ◌-◌, ◌*◌, ◌≤◌, ◌<◌, ◌≡◌, refl, sym, ap, ◌∙◌, true, List, [], ◌∷◌, arith,
  ℕ_discrete,
}
use linux_0_1_1_comment.Buffer.{Cache}
use linux_0_1_1_comment.Buffer.Init.{init_buffer, init_loop, close_list, buffer_init}
use linux_0_1_1_comment.Buffer.Queues.{IsCache}
use linux_0_1_1_comment.Buffer.Ring.{Seg}

pub record Ready (s : Cache) (a : ℕ) : Type 0 where
  pub no_dev : s.b_dev a ≡ 0
  pub no_user : s.b_count a ≡ 0
  pub no_next : s.b_next a ≡ 0
  pub no_prev : s.b_prev a ≡ 0
  pub next_head : s.b_next_free a ≡ a + 1
  pub prev_head : s.b_prev_free a ≡ a - 1

-- the buffer heads `i` to `i + n - 1`
abbrev pub heads : ℕ → ℕ → List ℕ
heads i zero = []
heads i (suc n) = i ∷ heads (i + 1) n

abbrev pub AllReady : Cache → Type 0
AllReady s = (a : ℕ) → 1 ≤ a → a ≤ s.nr_buffers → Ready s a

pub init_buffer-AllReady :
    (i : ℕ) (s : Cache) → i ≡ s.nr_buffers + 1 → AllReady s → AllReady (init_buffer i s)
init_buffer-AllReady i s e r a lo hi = elim (ℕ_discrete a i) [
  | yes p ↦ rw p (record {
    no_dev = update_self s.b_dev i 0;
    no_user = update_self s.b_count i 0;
    no_next = update_self s.b_next i 0;
    no_prev = update_self s.b_prev i 0;
    next_head = update_self s.b_next_free i (i + 1);
    prev_head = update_self s.b_prev_free i (i - 1);
  })
  | no ne ↦
      let f = r a lo (omega arith) in
      record {
        no_dev = update_ne s.b_dev i a 0 ne ∙ f.no_dev;
        no_user = update_ne s.b_count i a 0 ne ∙ f.no_user;
        no_next = update_ne s.b_next i a 0 ne ∙ f.no_next;
        no_prev = update_ne s.b_prev i a 0 ne ∙ f.no_prev;
        next_head = update_ne s.b_next_free i a (i + 1) ne ∙ f.next_head;
        prev_head = update_ne s.b_prev_free i a (i - 1) ne ∙ f.prev_head;
      }
]

pub init_loop-AllReady :
    (fuel end b i : ℕ) (s : Cache)
    → i ≡ s.nr_buffers + 1
    → AllReady s
    → AllReady (init_loop fuel end b i s) × (s.nr_buffers ≤ (init_loop fuel end b i s).nr_buffers)
unfolding init_loop
init_loop-AllReady zero end b i s e r = (r, ground arith)
init_loop-AllReady (suc fuel) end b i s e r =
    let (ih, le) =
      init_loop-AllReady fuel end (if b - 1024 == 1048576 then 655360 else b - 1024) (i + 1)
        (init_buffer i s) (omega arith) (init_buffer-AllReady i s e r) in
    if_both (λ t. AllReady t × (s.nr_buffers ≤ t.nr_buffers)) (leb (end + 32 * i) (b - 1024))
      (λ _. (ih, omega arith)) (λ _. (r, ground arith))

-- The loop goes twice at least.
two_heads :
    (n end : ℕ) (s : Cache)
    → end ≤ 655360
    → AllReady s
    → s.nr_buffers ≡ 0
    → 2 ≤ (init_loop (suc (suc n)) end 2097152 1 s).nr_buffers
unfolding init_loop
two_heads n end s le r z =
    let t = init_buffer 2 (init_buffer 1 s) in
    let r1 = init_buffer-AllReady 1 s (omega arith) r in
    let r2 = init_buffer-AllReady 2 (init_buffer 1 s) (omega arith) r1 in
    let (_, more) = init_loop-AllReady n end 2095104 3 t (omega arith) r2 in
    let a : leb (end + 32) 2096128 ≡ true = ground arith in
    let b : leb (end + 64) 2095104 ≡ true = ground arith in rw (a, b) (omega arith)

module _ (next prev : ℕ → ℕ) where
  heads-Seg :
      (i n y last : ℕ)
      → last ≡ i + n
      → ((a : ℕ) → i ≤ a → a < last → next a ≡ a + 1)
      → ((a : ℕ) → i < a → a ≤ last → prev a ≡ a - 1)
      → next last ≡ y
      → prev y ≡ last
      → Seg next prev i (heads (i + 1) n) y
  heads-Seg i zero y last l f g e p =
      let same : last ≡ i = omega arith in (subst (λ j. next j ≡ y) same e, p ∙ same)
  heads-Seg i (suc n) y last l f g e p = (
    f i (omega arith) (omega arith),
    g (i + 1) (omega arith) (omega arith) ∙ omega arith,
    heads-Seg (i + 1) n y last (omega arith) (λ a lo hi. f a (omega arith) hi)
        (λ a lo hi. g a (omega arith) hi) e p,
  )

has-heads : (a i n : ℕ) → a ∈ heads i n → (i ≤ a) × (a < i + n)
has-heads a i zero j = absurd (ground arith)
has-heads a i (suc n) j = let ih = has-heads a (i + 1) n in ground (arith, ih)

heads_out : (a i n : ℕ) → a < i → a ∉ heads i n
heads_out a i zero lt = refl
heads_out a i (suc n) lt = let ih = heads_out a (i + 1) n (omega arith) in ground arith

heads-Distinct : (i n : ℕ) → Distinct (heads i n)
heads-Distinct i zero = tt
heads-Distinct i (suc n) = (heads_out i (i + 1) n (omega arith), heads-Distinct (i + 1) n)

length-heads : (i n : ℕ) → length (heads i n) ≡ n
length-heads i zero = refl
length-heads i (suc n) = ap suc (length-heads (i + 1) n)

ready-IsCache :
    (t : Cache) (n : ℕ)
    → t.nr_buffers ≡ suc n
    → AllReady t
    → IsCache (close_list t) (heads 1 (suc n)) (λ k. [])
ready-IsCache t n e r =
    let at = λ (a : ℕ) (i : a ∈ heads 1 (suc n)).
      let (lo, hi) = has-heads a 1 (suc n) i in r a lo (omega arith) in
    record {
      free = record {
        ring =
            heads-Seg (close_list t).b_next_free (close_list t).b_prev_free 1 n 1 t.nr_buffers
              (omega arith)
              (λ a lo hi.
                update_ne t.b_next_free t.nr_buffers a 1 (λ p. absurd (omega arith))
                ∙ (r a lo (omega arith)).next_head)
              (λ a lo hi.
                update_ne t.b_prev_free 1 a t.nr_buffers (λ p. absurd (omega arith))
                ∙ (r a (omega arith) (omega arith)).prev_head)
              (update_self t.b_next_free t.nr_buffers 1) (update_self t.b_prev_free 1 t.nr_buffers);
        distinct = heads-Distinct 1 (suc n);
        no_null = heads_out 0 1 (suc n) (omega arith);
        starts = (heads 2 n, refl);
      };
      queue = λ k. refl;
      distinct = λ k. tt;
      hashed = λ k a i. absurd (ground arith);
      queued = λ a i d. absurd (d (at a i).no_dev);
      loose = λ a i z. ((at a i).no_next, (at a i).no_prev);
      one = λ a c i j d. absurd (d (at a i).no_dev);
      enough = (let m = length-heads 1 (suc n) in omega arith);
    }

pub AllReady-IsCache :
    (t : Cache)
    → AllReady t
    → 2 ≤ t.nr_buffers
    → IsCache (close_list t) (heads 1 t.nr_buffers) (λ k. [])
AllReady-IsCache t r two =
    let e : t.nr_buffers ≡ suc (t.nr_buffers - 1) = omega arith in
    subst (λ n. IsCache (close_list t) (heads 1 n) (λ k. [])) (sym e)
      (ready-IsCache t (t.nr_buffers - 1) e r)

-- For a kernel that ends below 640 kB, and no buffers yet, buffer_init makes two buffers at least,
-- and a sound cache of them: the free list is all buffers in order, and the queues are empty.
pub buffer_init-IsCache :
    (end : ℕ) (s : Cache)
    → end ≤ 655360
    → s.nr_buffers ≡ 0
    → IsCache (buffer_init end s) (heads 1 (buffer_init end s).nr_buffers) (λ k. [])
      × (2 ≤ (buffer_init end s).nr_buffers)
unfolding buffer_init
buffer_init-IsCache end s le z =
    let ready : AllReady s = λ a lo hi. absurd (omega arith) in
    let (r, _) = init_loop-AllReady 2048 end 2097152 1 s (omega arith) ready in
    let two = two_heads 2046 end s le ready z in
    (AllReady-IsCache (init_loop 2048 end 2097152 1 s) r two, two)
