-- ===== src/Files/Dup.antt =====
-- dupfd (fs/fcntl.c), and the files of a child (copy_process of kernel/fork.c).
use linux_0_1_1_comment.Prelude.{
  ltb, Bool-cases, Option-cases, ℕ, zero, suc, ◌+◌, ◌≤◌, ◌<◌, ◌≡◌, sym, ap, ◌∙◌, ◌≢◌, ◌⊎◌, inl, inr,
  Option, none, some, arith, ℕ_discrete,
}
use linux_0_1_1_comment.Files.{
  nr_open, ebadf, einval, emfile, Files, first_free, share_file, share_files,
}
use linux_0_1_1_comment.Files.Refs.{names, refs, Counted, refs_le}

-- `arg` is the first free descriptor from `from` on.
pub record Lowest (from arg : ℕ) (filp : ℕ → Option ℕ) : Type 0 where
  pub above : from ≤ arg
  pub bounded : arg ≤ nr_open
  pub taken : (k : ℕ) → from ≤ k → k < arg → filp k ≢ none
  pub free : arg < nr_open → filp arg ≡ none

pub first_free-Lowest :
    (rounds arg : ℕ) (filp : ℕ → Option ℕ)
    → arg ≤ nr_open
    → nr_open ≤ arg + rounds
    → Lowest arg (first_free rounds arg filp) filp
unfolding first_free
first_free-Lowest zero arg filp le enough = record {
  above = omega arith;
  bounded = le;
  taken = λ k lo hi. absurd (omega arith);
  free = λ lt. absurd (omega arith);
}
first_free-Lowest (suc rounds) arg filp le enough = elim (Bool-cases (ltb arg nr_open)) [
  | inr past ↦ rw past (record {
    above = omega arith;
    bounded = le;
    taken = λ k lo hi. absurd (omega arith);
    free = λ lt. absurd (ground arith);
  })
  | inl inside ↦
      let ih = first_free-Lowest rounds (arg + 1) filp (ground arith) (omega arith) in
      rw inside (elim (Option-cases (filp arg)) [
        | inl empty ↦ rw empty (record {
          above = omega arith;
          bounded = le;
          taken = λ k lo hi. absurd (omega arith);
          free = λ lt. empty;
        })
        | inr (f, here) ↦ rw here (record {
          above = omega (arith, ih.above);
          bounded = ih.bounded;
          taken = λ k lo hi. elim (ℕ_discrete k arg) [
            | yes e ↦ rw (e, here) (λ h. cc h)
            | no ne ↦ ih.taken k (omega arith) hi
          ];
          free = ih.free;
        })
      ])
]

-- The state after descriptor `r` was made to name file `f` as well.
pub record DupAt (arg f : ℕ) (others : ℕ → ℕ) (s : Files) (r : ℕ) (t : Files) : Type 0 where
  pub lowest : Lowest arg r s.filp
  pub in_range : r < nr_open
  pub same_file : t.filp r ≡ some f
  pub kept : (i : ℕ) → i ≢ r → t.filp i ≡ s.filp i
  pub one_more : t.count f ≡ s.count f + 1
  pub counted : Counted t others

-- What dupfd does: four refusals that change nothing, or a new name of the file.
pub data Dups (fd arg : ℕ) (others : ℕ → ℕ) (s : Files) : ℕ × Files → Type 0 where
  not_open : (nr_open ≤ fd) ⊎ (s.filp fd ≡ none) → Dups fd arg others s (ebadf, s)
  bad_arg : {f : ℕ} → s.filp fd ≡ some f → nr_open ≤ arg → Dups fd arg others s (einval, s)
  all_taken :
      {f : ℕ}
      → s.filp fd ≡ some f
      → ((k : ℕ) → arg ≤ k → k < nr_open → s.filp k ≢ none)
      → Dups fd arg others s (emfile, s)
  dupped :
      {f r : ℕ} {t : Files}
      → s.filp fd ≡ some f
      → DupAt arg f others s r t
      → Dups fd arg others s (r, t)

share_file_lem :
    (o : Option ℕ) (f some_refs : ℕ) (rest : ℕ → ℕ) (before : ℕ)
    → rest f ≡ before + some_refs
    → before + some_refs < 65535
    → share_file o rest f ≡ before + (names o f + some_refs)
unfolding share_file
share_file_lem none f some_refs rest before e room = omega (arith, e)
share_file_lem (some g) f some_refs rest before e room = elim (ℕ_discrete f g) [
  | yes same ↦ let e' : rest g ≡ before + some_refs = ap rest (sym same) ∙ e in ground arith
  | no other ↦ ground arith
]

-- After the loop of copy_process the count of a file has grown by the number of the first `n`
-- descriptors that name it, while the count has room for `n` more.
pub share_files-refs :
    (n : ℕ) (filp : ℕ → Option ℕ) (count : ℕ → ℕ) (f : ℕ)
    → count f + n < 65536
    → share_files n filp count f ≡ count f + refs n filp f
unfolding share_files refs
share_files-refs zero filp count f room = omega arith
share_files-refs (suc n) filp count f room =
    let ih = share_files-refs n filp count f (omega arith) in
    let few = refs_le n filp f in
    share_file_lem (filp n) f (refs n filp f) (share_files n filp count) (count f) ih (omega arith)
