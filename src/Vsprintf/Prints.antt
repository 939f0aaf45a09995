-- ===== src/Vsprintf/Prints.antt =====
-- The rounds of the loop of vsprintf (kernel/vsprintf.c), without a bound on them.
use linux_0_1_1_comment.Prelude.{
  ◌=/=◌, Option-cases, ne→==, length, subst, ℕ, zero, suc, ◌≤◌, ◌≡◌, ◌≢◌, inl, inr, true, Option,
  none, some, List, [], ◌∷◌, ◌++◌, arith, ℕ_discrete,
}
use linux_0_1_1_comment.Vsprintf.Convert.{directive, or_stop, format_loop, vsprintf}
use linux_0_1_1_comment.Vsprintf.Format.{Arg, Printing}
use linux_0_1_1_comment.Vsprintf.Rounds.{Short, directive-Short}

-- The text and the numbers of %n; or none, at an argument that is missing or of the wrong kind.
abbrev pub Result : Type 0
Result = Option (List ℕ × List (ℕ × ℕ))

-- A run of the loop to its result, a constructor for each kind of round. It has no other way to
-- stop: a loop that goes on for ever has no run.
pub data Prints : Printing → Result → Type 0 where
  ended :
      (out : List ℕ) (args : List Arg) (stored : List (ℕ × ℕ))
      → Prints (record { out = out; args = args; fmt = []; stored = stored }) (some (out, stored))
  copied :
      (c : ℕ) (s out : List ℕ) (args : List Arg) (stored : List (ℕ × ℕ)) (r : Result)
      → c ≢ b'%'
      → Prints (record { out = out ++ c ∷ []; args = args; fmt = s; stored = stored }) r
      → Prints (record { out = out; args = args; fmt = c ∷ s; stored = stored }) r
  converted :
      (s out : List ℕ) (args : List Arg) (stored : List (ℕ × ℕ)) (q : Printing) (r : Result)
      → directive (record { out = out; args = args; fmt = s; stored = stored }) ≡ some q
      → length q.fmt ≤ length s
      → Prints q r
      → Prints (record { out = out; args = args; fmt = b'%' ∷ s; stored = stored }) r
  stopped :
      (s out : List ℕ) (args : List Arg) (stored : List (ℕ × ℕ))
      → directive (record { out = out; args = args; fmt = s; stored = stored }) ≡ none
      → Prints (record { out = out; args = args; fmt = b'%' ∷ s; stored = stored }) none

-- Behind a %, with the rounds that are left.
convert-Prints :
    (s out : List ℕ) (args : List Arg) (stored : List (ℕ × ℕ)) (next : Printing → Result)
    → ((q : Printing) → length q.fmt ≤ length s → Prints q (next q))
    → Prints
        (record { out = out; args = args; fmt = b'%' ∷ s; stored = stored })
        (or_stop (directive (record { out = out; args = args; fmt = s; stored = stored })) next)
convert-Prints s out args stored next h =
    let p : Printing = record { out = out; args = args; fmt = s; stored = stored } in
    elim (Option-cases (directive p)) [
      | inl e ↦ rw e (stopped s out args stored e)
      | inr (q, e) ↦
          let le : length q.fmt ≤ length s =
            subst (Short (λ p. p.fmt) (length s)) e (directive-Short p) in
          rw e (converted s out args stored q (next q) e le (h q le))
    ]

format_loop-Prints :
    (fuel : ℕ) (s out : List ℕ) (args : List Arg) (stored : List (ℕ × ℕ))
    → length s ≤ fuel
    → Prints
        (record { out = out; args = args; fmt = s; stored = stored })
        (format_loop fuel s out args stored)
unfolding format_loop
format_loop-Prints fuel [] out args stored le = ended out args stored
format_loop-Prints zero (c ∷ s) out args stored le = absurd (omega arith)
format_loop-Prints (suc fuel) (c ∷ s) out args stored le = elim (ℕ_discrete c b'%') [
  | yes percent ↦
      let run =
        convert-Prints s out args stored (λ p. format_loop fuel p.fmt p.out p.args p.stored)
          (λ q lt. format_loop-Prints fuel q.fmt q.out q.args q.stored (omega arith)) in
      rw percent run
  | no plain ↦
      let other : (c =/= b'%') ≡ true = ground (arith, ne→== c b'%' plain) in
      rw other (
        copied c s out args stored _ plain
          (format_loop-Prints fuel s (out ++ c ∷ []) args stored (omega arith)))
]

-- For every format and arguments the loop of vsprintf ends, without a bound on its rounds, and its
-- result is that of vsprintf: a round copies a character that is not a %, or does the directive
-- behind a %, which leaves no more of the format than stood behind the %; it ends with the format,
-- or at a directive that has no result for its arguments.
pub vsprintf-Prints :
    (fmt : List ℕ) (args : List Arg)
    → Prints (record { out = []; args = args; fmt = fmt; stored = [] }) (vsprintf fmt args)
unfolding vsprintf
vsprintf-Prints fmt args = format_loop-Prints (length fmt) fmt [] args [] (omega arith)
