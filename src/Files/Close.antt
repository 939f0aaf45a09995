-- ===== src/Files/Close.antt =====
-- sys_close (fs/open.c) and sys_dup2 (fs/fcntl.c).
use linux_0_1_1_comment.Prelude.{
  leb, Bool-cases, Option-cases, ne→==, ne→=/=, ≡→=/=, update, update_self, update_ne, ℕ, ◌+◌, ◌≤◌,
  ◌<◌, ◌≡◌, refl, sym, ap, ◌∙◌, ◌≢◌, ◌⊎◌, inl, inr, false, none, some, arith, ℕ_discrete,
}
use linux_0_1_1_comment.Files.{
  without_bit, nr_open, ebadf, Files, f_count_down, dupfd, Closed, bad, close_panic, still_open,
  last_one, drop_file, sys_close, closed_files, then_dupfd, sys_dup2,
}
use linux_0_1_1_comment.Files.Refs.{names, refs, Counted, refs_le, refs-update, refs_pos}

-- The state after descriptor `fd` let go of file `f`.
pub record Dropped (fd f : ℕ) (others : ℕ → ℕ) (s t : Files) : Type 0 where
  pub shut : t.filp fd ≡ none
  pub kept : (i : ℕ) → i ≢ fd → t.filp i ≡ s.filp i
  pub one_less : t.count f + 1 ≡ s.count f
  pub counted : Counted t others

-- What sys_close does where the counts are exact: no panic; the file goes when no descriptor of
-- this process or of another one names it any more.
pub data Closes (fd : ℕ) (others : ℕ → ℕ) (s : Files) : Closed → Type 0 where
  not_open :
      {t : Files}
      → (nr_open ≤ fd) ⊎ (s.filp fd ≡ none)
      → t.filp ≡ s.filp
      → t.count ≡ s.count
      → Closes fd others s (bad t)
  others_left :
      {f : ℕ} {t : Files}
      → s.filp fd ≡ some f
      → Dropped fd f others s t
      → 1 ≤ refs nr_open t.filp f + others f
      → Closes fd others s (still_open t)
  none_left :
      {f : ℕ} {t : Files}
      → s.filp fd ≡ some f
      → Dropped fd f others s t
      → refs nr_open t.filp f + others f ≡ 0
      → Closes fd others s (last_one f t)

f_count_down-exact :
    (f g before after rest : ℕ) (count : ℕ → ℕ)
    → count g ≡ before + rest
    → before ≤ 20
    → rest ≤ 1260
    → after + names (some f) g ≡ before + 0
    → f_count_down f count g ≡ after + rest
f_count_down-exact f g before after rest count e few many moved = elim (ℕ_discrete f g) [
  | yes same ↦ let here : count f ≡ before + rest = ap count same ∙ e in ground arith
  | no other ↦ ground arith
]

module _ (fd f : ℕ) (others : ℕ → ℕ) (s : Files) (inside : fd < nr_open)
    (opened : s.filp fd ≡ some f) (c : Counted s others) (word : ℕ) where
  after-exact :
      (g : ℕ) → f_count_down f s.count g ≡ refs nr_open (update s.filp fd none) g + others g
  after-exact g =
      let moved = refs-update nr_open s.filp fd g none inside in
      let named : names (s.filp fd) g ≡ names (some f) g = ap (λ o. names o g) opened in
      let from : refs nr_open (update s.filp fd none) g + names (some f) g
          ≡ refs nr_open s.filp g + 0 =
        ap (λ k. refs nr_open (update s.filp fd none) g + k) (sym named) ∙ moved in
      f_count_down-exact f g (refs nr_open s.filp g) (refs nr_open (update s.filp fd none) g)
        (others g) s.count (c.exact g) (refs_le nr_open s.filp g) (c.few g) from

  busy : 1 ≤ s.count f
  busy = let pos = refs_pos nr_open s.filp fd f inside opened in let e = c.exact f in omega arith

  drop_file-Dropped : Dropped fd f others s (record {
    filp = update s.filp fd none;
    close_on_exec = word;
    count = f_count_down f s.count;
  })
  drop_file-Dropped = record {
    shut = update_self s.filp fd none;
    kept = λ i ne. update_ne s.filp fd i none ne;
    one_less =
        (let b = busy in
          let e = c.exact f in
          let le = refs_le nr_open s.filp f in let few = c.few f in ground arith);
    counted = record { exact = after-exact; few = c.few };
  }

  drop_file-Closes :
      Closes fd others s (
        drop_file f
          (record { filp = update s.filp fd none; close_on_exec = word; count = s.count }))
  unfolding drop_file
  drop_file-Closes =
      let d = drop_file-Dropped in
      let e = after-exact f in
      rw (ne→== (s.count f) 0 (λ z. absurd (omega (arith, busy))))
        (elim (ℕ_discrete (f_count_down f s.count f) 0) [
          | yes zero_left ↦
              rw (≡→=/= (f_count_down f s.count f) 0 zero_left) (none_left opened d (omega arith))
          | no some_left ↦
              rw (ne→=/= (f_count_down f s.count f) 0 some_left)
                (others_left opened d (omega arith))
        ])

-- sys_close, where the counts are exact: it never panics; of a descriptor that is not open it
-- changes nothing but the close-on-exec bit; else the descriptor becomes free, no other changes,
-- the counts are exact, and the file is released exactly when no descriptor here or elsewhere names
-- it any more.
pub sys_close-Closes :
    (fd : ℕ) (others : ℕ → ℕ) (s : Files) → Counted s others → Closes fd others s (sys_close fd s)
unfolding sys_close
sys_close-Closes fd others s c = elim (Bool-cases (leb nr_open fd)) [
  | inl past ↦ rw past (not_open (inl (ground arith)) refl refl)
  | inr inside ↦ rw inside (elim (Option-cases (s.filp fd)) [
    | inl closed ↦ rw closed (not_open (inr closed) refl refl)
    | inr (f, opened) ↦
        rw opened
          (drop_file-Closes fd f others s (ground arith) opened c (without_bit s.close_on_exec fd))
  ])
]

closed_files-Closes :
    (fd f : ℕ) (others : ℕ → ℕ) (s : Files) (x : Closed)
    → s.filp fd ≡ some f
    → fd < nr_open
    → Closes fd others s x
    → (t : Files) × (closed_files x ≡ some t) × (t.filp fd ≡ none)
closed_files-Closes fd f others s (bad t) opened inside (not_open (inl past) e e') =
    absurd (omega arith)
closed_files-Closes fd f others s (bad t) opened inside (not_open (inr none_there) e e') =
    absurd (cc (opened, none_there))
closed_files-Closes fd f others s close_panic opened inside x = elim x [ ]
closed_files-Closes fd f others s (still_open t) opened inside (others_left o d p) =
    (t, refl, d.shut)
closed_files-Closes fd f others s (last_one g t) opened inside (none_left o d p) = (t, refl, d.shut)

dupfd_shut :
    (fd arg : ℕ) (t : Files) → fd < nr_open → t.filp fd ≡ none → dupfd fd arg t ≡ (ebadf, t)
unfolding dupfd
dupfd_shut fd arg t inside shut =
    let near : leb nr_open fd ≡ false = ground arith in rw (near, shut) refl

-- Where the counts are exact, sys_dup2 of an open descriptor onto itself closes it and fails with
-- EBADF.
pub sys_dup2_onto_itself :
    (fd f : ℕ) (others : ℕ → ℕ) (s : Files)
    → Counted s others
    → s.filp fd ≡ some f
    → fd < nr_open
    → (t : Files) × (sys_dup2 fd fd s ≡ some (ebadf, t)) × (t.filp fd ≡ none)
unfolding sys_dup2
sys_dup2_onto_itself fd f others s c opened inside =
    let (t, done, shut) =
      closed_files-Closes fd f others s (sys_close fd s) opened inside
        (sys_close-Closes fd others s c) in
    (t, ap (then_dupfd fd fd) done ∙ ap some (dupfd_shut fd fd t inside shut), shut)
