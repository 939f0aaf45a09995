-- ===== src/Buffer/Held.antt =====
-- The buffer that getblk (fs/buffer.c) has given.
use linux_0_1_1_comment.Prelude.{
  ◌∈◌, has-append, update_self, update_ne, length, length-append, ℕ, ◌+◌, ◌%◌, ◌≡◌, refl, sym, ap,
  ◌∙◌, ◌≢◌, List, [], ◌∷◌, ◌++◌, arith,
}
use linux_0_1_1_comment.Buffer.{Cache}
use linux_0_1_1_comment.Buffer.Calls.{got}
use linux_0_1_1_comment.Buffer.Getblk.{Block, cached, evicted}
use linux_0_1_1_comment.Buffer.Queues.{IsCache}
use linux_0_1_1_comment.Buffer.Reuse.{count_buffer-IsCache}
use linux_0_1_1_comment.Buffer.Scan.{SameBlocks, SameLinks-IsCache}

-- A buffer that the caller holds now, once more than in `s`.
pub record Held (s t : Cache) (l : List ℕ) (dev block b : ℕ) : Type 0 where
  pub list : List ℕ
  pub queues : ℕ → List ℕ
  pub ready : IsCache t list queues
  pub there : b ∈ list
  pub same_length : length list ≡ length l
  pub for_dev : t.b_dev b ≡ dev
  pub for_block : t.b_blocknr b ≡ block
  pub count : t.b_count b ≡ (s.b_count b + 1) % 256
  pub others : (a : ℕ) → a ≢ b → t.b_count a ≡ s.b_count a

length_turn : (us vs : List ℕ) (b : ℕ) → length ((us ++ vs) ++ b ∷ []) ≡ length (us ++ b ∷ vs)
length_turn us vs b =
    let m = length-append (us ++ vs) (b ∷ []) in
    let n = length-append us vs in let o = length-append us (b ∷ vs) in omega arith

pub Block-Held :
    (s : Cache) (b : ℕ) (t : Cache) (l : List ℕ) (q : ℕ → List ℕ) (dev block : ℕ)
    → IsCache s l q
    → Block s l dev block (got b t)
    → Held s t l dev block b
Block-Held s b t l q dev block f (cached b' i d e) = record {
  list = l;
  queues = q;
  ready = count_buffer-IsCache b s l q f;
  there = i;
  same_length = refl;
  for_dev = d;
  for_block = e;
  count = update_self s.b_count b _;
  others = λ a ne. update_ne s.b_count b a _ ne;
}
Block-Held s b t l q dev block f (evicted us vs b' t' q' e all z fresh c) = record {
  list = (us ++ vs) ++ b ∷ [];
  queues = q';
  ready = c;
  there = has-append b (us ++ vs) (b ∷ []) ∙ ground arith;
  same_length = length_turn us vs b ∙ ap length (sym e);
  for_dev = fresh.for_dev;
  for_block = fresh.for_block;
  count = fresh.counted ∙ ap (λ n. (n + 1) % 256) (sym z);
  others = λ a ne. (fresh.others a ne).2;
}

-- A sound cache of as many buffers.
abbrev pub Sound : List ℕ → Cache → Type 0
Sound l t =
    (list : List ℕ) × (queues : ℕ → List ℕ) × IsCache t list queues × (length list ≡ length l)

pub SameBlocks-Sound : (l : List ℕ) (s t : Cache) → SameBlocks s t → Sound l s → Sound l t
SameBlocks-Sound l s t same (list, queues, f, e) = (
  list,
  queues,
  SameLinks-IsCache s t list queues same.links
      (λ a i. (ap (λ g. g a) same.dev, ap (λ g. g a) same.blocknr)) f,
  e,
)

-- Counts of users do not matter.
pub count-Sound :
    (l : List ℕ) (s : Cache) (count : ℕ → ℕ) → Sound l s → Sound l (record s { b_count = count })
count-Sound l s count (list, queues, f, e) = (
  list,
  queues,
  SameLinks-IsCache s (record s { b_count = count }) list queues
      (record {
        next = refl;
        prev = refl;
        next_free = refl;
        prev_free = refl;
        table = refl;
        first = refl;
        nr = refl;
      })
      (λ a i. (refl, refl)) f,
  e,
)
