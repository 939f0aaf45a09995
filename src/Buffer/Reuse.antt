-- ===== src/Buffer/Reuse.antt =====
-- The end of getblk (fs/buffer.c): the block of a buffer changes, and it is put back.
-- find_buffer for a block that no buffer is for.
use linux_0_1_1_comment.Prelude.{
  ◌∈◌, ◌∉◌, apart, update_ne, length, ℕ, suc, ◌%◌, ◌≤◌, ◌≡◌, refl, sym, ap, ◌∙◌, ◌≢◌, List, [], ◌∷◌,
  ◌++◌,
}
use linux_0_1_1_comment.Buffer.{Cache}
use linux_0_1_1_comment.Buffer.Calls.{got, count_buffer, claim, place_buffer}
use linux_0_1_1_comment.Buffer.Enqueue.{insert_into_queues-IsCache}
use linux_0_1_1_comment.Buffer.Find.{Cached, hit, miss, find_buffer-Cached}
use linux_0_1_1_comment.Buffer.Queues.{IsCache, Relinked}
use linux_0_1_1_comment.Buffer.Scan.{SameBlocks, SameLinks-IsCache}

no_buffer :
    (s : Cache) (l : List ℕ) (dev block r : ℕ)
    → ((a : ℕ) → a ∈ l → s.b_dev a ≡ dev → s.b_blocknr a ≡ block → ⊥)
    → Cached s l dev block r
    → r ≡ 0
no_buffer s l dev block r f (hit b i d e) = absurd (f b i d e)
no_buffer s l dev block r f (miss g) = refl

-- The end of getblk: nobody has added the block.
pub place_buffer_fresh :
    (dev block b : ℕ) (s : Cache) (l : List ℕ) (q : ℕ → List ℕ)
    → IsCache s l q
    → b ∉ l
    → b ≢ 0
    → dev ≢ 0
    → s.b_dev b ≡ dev
    → s.b_blocknr b ≡ block
    → suc (length l) ≤ s.nr_buffers
    → ((a : ℕ) → a ∈ l → s.b_dev a ≡ dev → s.b_blocknr a ≡ block → ⊥)
    → (t : Cache) × (q' : ℕ → List ℕ) × (place_buffer dev block b s ≡ got b t)
      × IsCache t (l ++ b ∷ []) q'
      × Relinked s t
unfolding place_buffer
place_buffer_fresh dev block b s l q f o ne dev_ne d g room alone =
    let none_found =
      no_buffer s l dev block _ alone (find_buffer-Cached s l q f dev block dev_ne) in
    let (t, e, c, r) =
      insert_into_queues-IsCache b s l q f o ne (λ z. dev_ne (sym d ∙ z))
        (λ a i p p'. alone a i (p ∙ d) (p' ∙ g)) room in
    (t, _, rw (none_found, e) refl, c, r)

-- Giving `b` another block leaves the buffers of `l` as they are.
pub claim-IsCache :
    (dev block b : ℕ) (s t : Cache) (l : List ℕ) (q : ℕ → List ℕ)
    → SameBlocks s t
    → b ∉ l
    → IsCache s l q
    → IsCache (claim dev block b t) l q
claim-IsCache dev block b s t l q k o f =
    let links = k.links in
    SameLinks-IsCache s (claim dev block b t) l q
      (record {
        next = links.next;
        prev = links.prev;
        next_free = links.next_free;
        prev_free = links.prev_free;
        table = links.table;
        first = links.first;
        nr = links.nr;
      })
      (λ a i.
        let ne = apart a b l i o in
        (
          update_ne t.b_dev b a (dev % 65536) ne ∙ ap (λ g. g a) k.dev,
          update_ne t.b_blocknr b a (block % 65536) ne ∙ ap (λ g. g a) k.blocknr,
        ))
      f

pub count_buffer-IsCache :
    (b : ℕ) (s : Cache) (l : List ℕ) (q : ℕ → List ℕ)
    → IsCache s l q
    → IsCache (count_buffer b s) l q
count_buffer-IsCache b s l q f =
    SameLinks-IsCache s (count_buffer b s) l q
      (record {
        next = refl;
        prev = refl;
        next_free = refl;
        prev_free = refl;
        table = refl;
        first = refl;
        nr = refl;
      })
      (λ a i. (refl, refl)) f
