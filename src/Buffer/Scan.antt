-- ===== src/Buffer/Scan.antt =====
-- The search of getblk (fs/buffer.c) for a buffer that nobody uses, and what leaves the links alone.
use mathlib.Core.Path.{ap₂}
use linux_0_1_1_comment.Prelude.{
  ◌==◌, ◌=/=◌, if◌then◌else◌, ==_refl, ne→==, if_both, ◌∈◌, ◌∉◌, apart, length, subst, ℕ, zero, suc,
  ◌+◌, ◌≤◌, ◌≡◌, refl, sym, ◌∙◌, ◌≢◌, false, List, [], ◌∷◌, ◌++◌, arith, ℕ_discrete,
}
use linux_0_1_1_comment.Buffer.{Cache, hashfn}
use linux_0_1_1_comment.Buffer.Calls.{scan_free_list, sync_from, sync_dev, write_out}
use linux_0_1_1_comment.Buffer.Queues.{key, IsCache}
use linux_0_1_1_comment.Buffer.Ring.{Seg}

abbrev pub AllUsed : Cache → List ℕ → Type 0
AllUsed s xs = (a : ℕ) → a ∈ xs → s.b_count a ≢ 0

-- The first buffer of the list that is not used, or NULL.
pub data Unused (s : Cache) : List ℕ → ℕ → Type 0 where
  unused : (us vs : List ℕ) (b : ℕ) → AllUsed s us → s.b_count b ≡ 0 → Unused s (us ++ b ∷ vs) b
  all_used : (xs : List ℕ) → AllUsed s xs → Unused s xs 0

all_more : (s : Cache) (x : ℕ) (xs : List ℕ) → s.b_count x ≢ 0 → AllUsed s xs → AllUsed s (x ∷ xs)
all_more s x xs ne all a i z = elim (ℕ_discrete a x) [
  | yes e ↦ ne (subst (λ c. s.b_count c ≡ 0) e z)
  | no ne_a ↦ all a (ground (arith, ne→== a x ne_a)) z
]

used_more :
    (s : Cache) (x r : ℕ) (xs : List ℕ) → s.b_count x ≢ 0 → Unused s xs r → Unused s (x ∷ xs) r
used_more s x r xs ne (unused us vs b all z) = unused (x ∷ us) vs b (all_more s x us ne all) z
used_more s x r xs ne (all_used ys all) = all_used (x ∷ ys) (all_more s x xs ne all)

scan_free_list-Seg :
    (s : Cache) (n x : ℕ) (xs : List ℕ)
    → Seg s.b_next_free s.b_prev_free x xs s.free_list
    → s.free_list ∉ xs
    → suc (length xs) ≤ n
    → Unused s (x ∷ xs) (scan_free_list n x s)
unfolding scan_free_list
scan_free_list-Seg s zero x xs g o le = absurd (ground arith)
scan_free_list-Seg s (suc n) x [] (e, p) o le = elim (ℕ_discrete (s.b_count x) 0) [
  | yes z ↦ rw z (unused [] [] x (λ a i. absurd (ground arith)) z)
  | no ne ↦
      rw (ne→== (s.b_count x) 0 ne, e, ==_refl s.free_list)
        (all_used (x ∷ []) (all_more s x [] ne (λ a i. absurd (ground arith))))
]
scan_free_list-Seg s (suc n) x (z ∷ zs) (e, p, g) o le = elim (ℕ_discrete (s.b_count x) 0) [
  | yes c ↦ rw c (unused [] (z ∷ zs) x (λ a i. absurd (ground arith)) c)
  | no ne ↦
      let z_ne : (z == s.free_list) ≡ false =
        ne→== z s.free_list (apart z s.free_list (z ∷ zs) (ground arith) o) in
      let ih = scan_free_list-Seg s n z zs g (ground arith) (ground arith) in
      rw (ne→== (s.b_count x) 0 ne, e, z_ne) (used_more s x _ (z ∷ zs) ne ih)
]

-- The loop of getblk stops, at the first buffer of the free list that nobody uses.
pub scan_free_list-Unused :
    (s : Cache) (l : List ℕ) (q : ℕ → List ℕ)
    → IsCache s l q
    → Unused s l (scan_free_list s.nr_buffers s.free_list s)
scan_free_list-Unused s [] q f = absurd (f.free.ring)
scan_free_list-Unused s (h ∷ t) q f =
    let (rest, e) = f.free.starts in
    let same : h ≡ s.free_list = cc (e) in
    let g = subst (λ y. Seg s.b_next_free s.b_prev_free h t y) same f.free.ring in
    let o = subst (λ y. y ∉ t) same (f.free.distinct.0) in
    subst (λ y. Unused s (h ∷ t) (scan_free_list s.nr_buffers y s)) same
      (scan_free_list-Seg s s.nr_buffers h t g o f.enough)

-- The same links, in both lists.
pub record SameLinks (s t : Cache) : Type 0 where
  pub next : t.b_next ≡ s.b_next
  pub prev : t.b_prev ≡ s.b_prev
  pub next_free : t.b_next_free ≡ s.b_next_free
  pub prev_free : t.b_prev_free ≡ s.b_prev_free
  pub table : t.hash_table ≡ s.hash_table
  pub first : t.free_list ≡ s.free_list
  pub nr : t.nr_buffers ≡ s.nr_buffers

-- Only b_uptodate, b_dirt and the contents may differ: what ll_rw_block does to the cache.
pub record SameBlocks (s t : Cache) : Type 0 where
  pub links : SameLinks s t
  pub dev : t.b_dev ≡ s.b_dev
  pub blocknr : t.b_blocknr ≡ s.b_blocknr
  pub count : t.b_count ≡ s.b_count

pub SameLinks-IsCache :
    (s t : Cache) (l : List ℕ) (q : ℕ → List ℕ)
    → SameLinks s t
    → ((a : ℕ) → a ∈ l → (t.b_dev a ≡ s.b_dev a) × (t.b_blocknr a ≡ s.b_blocknr a))
    → IsCache s l q
    → IsCache t l q
SameLinks-IsCache s t l q k same f =
    let key_same : (a : ℕ) → a ∈ l → key t a ≡ key s a =
      λ a i. ap₂ hashfn ((same a i).0) ((same a i).1) in
    let had : (a : ℕ) → a ∈ l → t.b_dev a ≢ 0 → s.b_dev a ≢ 0 = λ a i d e. d ((same a i).0 ∙ e) in
    record {
      free = rw (k.next_free, k.prev_free, k.first) f.free;
      queue = λ j. rw (k.next, k.prev, k.table) (f.queue j);
      distinct = f.distinct;
      hashed = λ j a i.
          let (m, d, e) = f.hashed j a i in
          (m, (λ z. d (sym ((same a m).0) ∙ z)), key_same a m ∙ e);
      queued = λ a i d. subst (λ j. a ∈ q j) (sym (key_same a i)) (f.queued a i (had a i d));
      loose = λ a i z. rw (k.next, k.prev) (f.loose a i (sym ((same a i).0) ∙ z));
      one = λ a c i j d e g.
          f.one a c i j (had a i d) (sym ((same a i).0) ∙ e ∙ (same c j).0)
            (sym ((same a i).1) ∙ g ∙ (same c j).1);
      enough = rw k.nr f.enough;
    }

pub SameBlocks-refl : (s : Cache) → SameBlocks s s
SameBlocks-refl s = record {
  links = record {
    next = refl;
    prev = refl;
    next_free = refl;
    prev_free = refl;
    table = refl;
    first = refl;
    nr = refl;
  };
  dev = refl;
  blocknr = refl;
  count = refl;
}

SameBlocks-trans : (s t u : Cache) → SameBlocks s t → SameBlocks t u → SameBlocks s u
SameBlocks-trans s t u f g = record {
  links = record {
    next = g.links.next ∙ f.links.next;
    prev = g.links.prev ∙ f.links.prev;
    next_free = g.links.next_free ∙ f.links.next_free;
    prev_free = g.links.prev_free ∙ f.links.prev_free;
    table = g.links.table ∙ f.links.table;
    first = g.links.first ∙ f.links.first;
    nr = g.links.nr ∙ f.links.nr;
  };
  dev = g.dev ∙ f.dev;
  blocknr = g.blocknr ∙ f.blocknr;
  count = g.count ∙ f.count;
}

module _ (write_block : ℕ → Cache → Cache)
    (writes : (b : ℕ) (s : Cache) → SameBlocks s (write_block b s)) where
  sync_from-SameBlocks : (n b dev : ℕ) (s : Cache) → SameBlocks s (sync_from write_block n b dev s)
  unfolding sync_from
  sync_from-SameBlocks zero b dev s = SameBlocks-refl s
  sync_from-SameBlocks (suc n) b dev s =
      let t = (if s.b_dev b =/= dev then s else if s.b_dirt b then write_block b s else s) in
      let one : SameBlocks s t =
        if_both (SameBlocks s) (s.b_dev b =/= dev) (λ e. SameBlocks-refl s)
          (λ e. if_both (SameBlocks s) (s.b_dirt b) (λ d. writes b s) (λ d. SameBlocks-refl s)) in
      SameBlocks-trans s t _ one (sync_from-SameBlocks n (b + 1) dev t)

  pub write_out-SameBlocks : (b : ℕ) (s : Cache) → SameBlocks s (write_out write_block b s)
  unfolding sync_dev
  write_out-SameBlocks b s =
      if_both (SameBlocks s) (s.b_dirt b) (λ d. sync_from-SameBlocks s.nr_buffers 1 (s.b_dev b) s)
        (λ d. SameBlocks-refl s)
