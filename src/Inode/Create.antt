-- ===== src/Inode/Create.antt =====
-- create_block of fs/inode.c: what it maps, and what it keeps.
use linux_0_1_1_comment.Prelude.{
  ◌==◌, ◌=/=◌, ==_iff, Bool-cases, ≡→=/=, update, update_self, update_ne, ℕ, ◌≡◌, refl, sym, ap,
  ◌∙◌, ◌≢◌, ◌⊎◌, inl, inr, true, false, arith, ℕ_discrete,
}
use linux_0_1_1_comment.Inode.{ok, Fs, FileInode, word_at, put_word, hold, release, alloc}
use linux_0_1_1_comment.Inode.Bmap.{set_entry, entry_or_new, entry_below}
use linux_0_1_1_comment.Inode.Fresh.{Cleared, Allocated, alloc-Allocated}
use linux_0_1_1_comment.Inode.Grow.{
  Used, NoneOrUsed, Sound, hold-Sound, release-Sound, Grows, Grows-refl, next_entry, Leaves,
  Leaves-bind,
}
use linux_0_1_1_comment.Inode.Lookup.{entry, word_at-put_word, word_at-put_word_other}

-- The index blocks of a file are in use.
pub record Indexed (inode : FileInode) (fs : Fs) : Type 0 where
  pub single : NoneOrUsed fs (inode.i_zone 7)
  pub double : NoneOrUsed fs (inode.i_zone 8)
  pub second : (k : ℕ) → NoneOrUsed fs (entry fs (inode.i_zone 8) k)

pub entry-Grows :
    (fs fs' : Fs) (b k : ℕ)
    → Grows fs fs'
    → NoneOrUsed fs b
    → entry fs b k ≢ 0
    → entry fs' b k ≡ entry fs b k
entry-Grows fs fs' b k g (inl z) ne = absurd (ne (rw z refl))
entry-Grows fs fs' b k g (inr u) ne = elim (Bool-cases (b == 0)) [
  | inl z ↦ absurd (ne (rw z refl))
  | inr nz ↦ elim (Bool-cases (fs.readable b)) [
    | inr r ↦ absurd (ne (rw (nz, r) refl))
    | inl r ↦
        let here : entry fs b k ≡ word_at (fs.b_data b) k = rw (nz, r) refl in
        let there : entry fs' b k ≡ word_at (fs'.b_data b) k =
          rw (nz, g.same_readable b u, r) refl in
        there ∙ g.entries b k u (λ z. ne (here ∙ z)) ∙ sym here
  ]
]

pub entry-NoneOrUsed :
    (fs fs' : Fs) (b k : ℕ)
    → Grows fs fs'
    → NoneOrUsed fs b
    → NoneOrUsed fs (entry fs b k)
    → NoneOrUsed fs' (entry fs' b k)
entry-NoneOrUsed fs fs' b k g (inl z) = λ e. inl (rw z refl)
entry-NoneOrUsed fs fs' b k g (inr u) = elim (Bool-cases (b == 0)) [
  | inl z ↦ λ e. inl (rw z refl)
  | inr nz ↦ elim (Bool-cases (fs.readable b)) [
    | inr r ↦ rw (nz, g.same_readable b u, r) (λ e. inl refl)
    | inl r ↦ rw (nz, g.same_readable b u, r) (next_entry fs fs' b k g u)
  ]
]

-- An entry was read, or made: the entry is `n` now, and where it is new its block is in use.
pub record EntryMade (b k : ℕ) (fs : Fs) (n : ℕ) (fs' : Fs) : Type 0 where
  pub sound : Sound fs'
  pub grows : Grows fs fs'
  pub made : entry fs' b k ≡ n
  pub untouched : b ≡ 0 → fs' ≡ fs
  pub next : NoneOrUsed fs' n ⊎ ((n ≡ entry fs b k) × (fs' ≡ fs))

-- The store of a new entry, and the brelse of its block.
module _ (b k n : ℕ) (fs fs1 : Fs) (nz : (b == 0) ≡ false) (r : fs.readable b ≡ true)
    (u : Used fs b) (z : word_at (fs.b_data b) k ≡ 0) (a : Allocated (hold b fs) n fs1) where
  none-EntryMade : n ≡ 0 → EntryMade b k fs n (release b (set_entry b k n fs1))
  none-EntryMade none_new = rw (≡→=/= n 0 none_new) (record {
    sound = release-Sound b fs1 fs1.b_data (a.grows.still_used b u) a.sound;
    grows = record {
      still_used = a.grows.still_used;
      entries = a.grows.entries;
      new_entries = a.grows.new_entries;
      same_readable = a.grows.same_readable;
    };
    made = rw (nz, a.grows.same_readable b u, r, a.contents b u) (z ∙ sym none_new);
    untouched = λ e. absurd (ground arith);
    next = inl (inl none_new);
  })

  stored : ℕ → ℕ → ℕ
  stored = update fs1.b_data b (put_word (fs1.b_data b) k n)

  stored_elsewhere :
      (c k' : ℕ) → (c ≢ b) ⊎ (k' ≢ k) → word_at (stored c) k' ≡ word_at (fs1.b_data c) k'
  unfolding stored
  stored_elsewhere c k' (inl d) =
      ap (λ d. word_at d k') (update_ne fs1.b_data b c (put_word (fs1.b_data b) k n) d)
  stored_elsewhere c k' (inr f) = elim (ℕ_discrete c b) [
    | no d ↦ ap (λ d. word_at d k') (update_ne fs1.b_data b c (put_word (fs1.b_data b) k n) d)
    | yes e ↦ rw e (
        ap (λ d. word_at d k') (update_self fs1.b_data b (put_word (fs1.b_data b) k n))
        ∙ word_at-put_word_other (fs1.b_data b) k k' n f)
  ]

  stored_other :
      (c k' : ℕ) → word_at (fs1.b_data c) k' ≢ 0 → word_at (stored c) k' ≡ word_at (fs1.b_data c) k'
  unfolding stored
  stored_other c k' ne = elim (ℕ_discrete c b) [
    | no d ↦ stored_elsewhere c k' (inl d)
    | yes e ↦
        stored_elsewhere c k'
          (inr (λ f. ne (rw (e, f) (ap (λ d. word_at d k) (a.contents b u) ∙ z))))
  ]

  stored_self : word_at (stored b) k ≡ n
  unfolding stored
  stored_self =
      ap (λ d. word_at d k) (update_self fs1.b_data b (put_word (fs1.b_data b) k n))
      ∙ word_at-put_word (fs1.b_data b) k n a.fits

  stored_Used :
      (c k' : ℕ)
      → Used fs1 n
      → NoneOrUsed fs1 (word_at (fs1.b_data c) k')
      → NoneOrUsed fs1 (word_at (stored c) k')
  unfolding stored
  stored_Used c k' now used = elim (ℕ_discrete c b) [
    | yes e ↦ elim (ℕ_discrete k' k) [
      | yes f ↦ rw (e, f) (rw stored_self (inr now))
      | no f ↦ rw (stored_elsewhere c k' (inr f)) used
    ]
    | no d ↦ rw (stored_elsewhere c k' (inl d)) used
  ]

  new-EntryMade :
      Cleared (hold b fs) n fs1
      → (n =/= 0) ≡ true
      → EntryMade b k fs n (release b (set_entry b k n fs1))
  unfolding stored
  new-EntryMade c some_new = rw some_new (record {
    sound = release-Sound b fs1 stored (a.grows.still_used b u) a.sound;
    grows = record {
      still_used = a.grows.still_used;
      entries = λ c k' v ne.
          let e = a.grows.entries c k' v ne in stored_other c k' (λ w. ne (sym e ∙ w)) ∙ e;
      new_entries = λ c' k' v w. stored_Used c' k' c.now_used (a.grows.new_entries c' k' v w);
      same_readable = a.grows.same_readable;
    };
    made = rw (nz, a.grows.same_readable b u, r) stored_self;
    untouched = λ e. absurd (ground arith);
    next = inl (inr c.now_used);
  })

  set_entry-EntryMade : EntryMade b k fs n (release b (set_entry b k n fs1))
  set_entry-EntryMade = elim a.fresh [
    | inl none_new ↦ none-EntryMade none_new
    | inr c ↦ elim (Bool-cases (n =/= 0)) [
      | inl some_new ↦ new-EntryMade c some_new
      | inr none_new ↦ none-EntryMade (ground arith)
    ]
  ]

-- Nothing was done: the entry is what it was.
old-EntryMade : (b k n : ℕ) (fs : Fs) → Sound fs → entry fs b k ≡ n → EntryMade b k fs n fs
old-EntryMade b k n fs sound e = record {
  sound = sound;
  grows = Grows-refl fs;
  made = e;
  untouched = λ z. refl;
  next = inr (sym e, refl);
}

entry_or_new-EntryMade :
    (b k : ℕ) (fs : Fs)
    → Sound fs
    → (b == 0) ≡ false
    → Used fs b
    → Leaves (EntryMade b k fs) (entry_or_new true b k fs)
unfolding entry_or_new
entry_or_new-EntryMade b k fs sound nz u = elim (Bool-cases (fs.readable b)) [
  | inr r ↦ rw r (old-EntryMade b k 0 fs sound (rw (nz, r) refl))
  | inl r ↦ elim (Bool-cases (word_at (fs.b_data b) k == 0)) [
    | inr there ↦
        rw (r, there) (old-EntryMade b k (word_at (fs.b_data b) k) fs sound (rw (nz, r) refl))
    | inl none_there ↦
        rw (r, none_there)
          (Leaves-bind (Allocated (hold b fs)) (EntryMade b k fs) (alloc (hold b fs))
            (λ n fs1. ok n (release b (set_entry b k n fs1)))
            (alloc-Allocated (hold b fs) (hold-Sound b fs u sound))
            (λ n fs1 a. set_entry-EntryMade b k n fs fs1 nz r u ((==_iff _ 0).0 none_there) a))
  ]
]

pub entry_below-EntryMade :
    (b k : ℕ) (fs : Fs)
    → Sound fs
    → NoneOrUsed fs b
    → Leaves (EntryMade b k fs) (entry_below true b k fs)
entry_below-EntryMade b k fs sound used = elim (Bool-cases (b == 0)) [
  | inl z ↦ rw z (old-EntryMade b k 0 fs sound (rw z refl))
  | inr nz ↦ elim used [
    | inl e ↦ absurd (ground arith)
    | inr u ↦ rw nz (entry_or_new-EntryMade b k fs sound nz u)
  ]
]
