-- ===== src/Pipe/History.antt =====
-- Any history of reads and writes of a pipe, in the order in which they run.
use mathlib.Core.List.{append_assoc, append-nil}
use native.Mathlib.Nat.{zero-add}
use linux_0_1_1_comment.Prelude.{
  ◌=/=◌, Bool-cases, take, take-length_append, take-length, ℕ, ◌≡◌, sym, ap, ◌∙◌, inl, inr, List,
  [], ◌∷◌, ◌++◌,
}
use linux_0_1_1_comment.Pipe.{
  Pipe, ReadResult, read_done, read_sleeps, read_pipe, WriteResult, write_done, sigpipe,
  write_sleeps, write_pipe,
}
use linux_0_1_1_comment.Pipe.Fifo.{
  Reads, got, end_of_file, waits, read_pipe-Reads, Wrote, all, no_reader, pipe_is_full,
  write_loop-Wrote,
}
use linux_0_1_1_comment.Pipe.Ring.{IsValid, contents}

pub data Event : Type 0 where
  reads : ℕ → Event
  writes : List ℕ → Event

-- What one call read and wrote, and the pipe where it ends or goes to sleep.
pub record Outcome : Type 0 where
  pub read : List ℕ
  pub written : List ℕ
  pub pipe : Pipe

after_read : ReadResult → Outcome
after_read (read_done bs p) = record { read = bs; written = []; pipe = p }
after_read (read_sleeps p) = record { read = []; written = []; pipe = p }

after_write : List ℕ → WriteResult → Outcome
after_write buf (write_done n p) = record { read = []; written = take n buf; pipe = p }
after_write buf (sigpipe n p) = record { read = []; written = take n buf; pipe = p }
after_write buf (write_sleeps n p) = record { read = []; written = take n buf; pipe = p }

pub step : Event → Pipe → Outcome
unfolding after_read after_write
step (reads count) p = after_read (read_pipe count p)
step (writes buf) p = after_write buf (write_pipe buf p)

pub run : List Event → Pipe → Outcome
run [] p = record { read = []; written = []; pipe = p }
run (e ∷ es) p =
    let o = step e p in
    let r = run es o.pipe in
    record { read = o.read ++ r.read; written = o.written ++ r.written; pipe = r.pipe }

-- Nothing is lost, made up or reordered between `p` and the outcome.
pub record Fifo (p : Pipe) (o : Outcome) : Type 0 where
  pub in_order : contents p ++ o.written ≡ o.read ++ contents o.pipe
  pub still_valid : IsValid o.pipe

read-Fifo :
    {count : ℕ} {p : Pipe} {r : ReadResult} → IsValid p → Reads count p r → Fifo p (after_read r)
unfolding after_read
read-Fifo v (got ne t) = record { in_order = append-nil _ ∙ t.split; still_valid = t.still_valid }
read-Fifo v (end_of_file e one) = record { in_order = append-nil _; still_valid = v }
read-Fifo v (waits e two) = record { in_order = append-nil _; still_valid = v }

write-Fifo :
    {p : Pipe} {buf : List ℕ} {r : WriteResult} → Wrote p buf 0 r → Fifo p (after_write buf r)
unfolding after_write
write-Fifo {buf} (all en v ec es) = record {
  in_order = rw (en, zero-add, take-length buf) (sym ec);
  still_valid = v;
}
write-Fifo (no_reader front back eb en v ec es ne) = record {
  in_order = rw (eb, en, zero-add, take-length_append front back) (sym ec);
  still_valid = v;
}
write-Fifo (pipe_is_full front back eb en v ec es full two) = record {
  in_order = rw (eb, en, zero-add, take-length_append front back) (sym ec);
  still_valid = v;
}

no_bytes : (p : Pipe) (buf : List ℕ) → IsValid p → Fifo p (after_write buf (sigpipe 0 p))
unfolding after_write
no_bytes p buf v = record { in_order = append-nil _; still_valid = v }

step-Fifo : (e : Event) (p : Pipe) → IsValid p → Fifo p (step e p)
unfolding step write_pipe
step-Fifo (reads count) p v = read-Fifo v (read_pipe-Reads count p v)
step-Fifo (writes buf) p v = elim (Bool-cases (p.ends =/= 2)) [
  | inl broken ↦ rw broken (no_bytes p buf v)
  | inr both ↦ rw both (write-Fifo (write_loop-Wrote buf 0 p v))
]

-- From a valid pipe, over any history of calls, the bytes that were in the pipe followed by those
-- written are the bytes read followed by those still in the pipe.
pub run-Fifo : (es : List Event) (p : Pipe) → IsValid p → Fifo p (run es p)
unfolding run
run-Fifo [] p v = record { in_order = append-nil _; still_valid = v }
run-Fifo (e ∷ es) p v =
    let f = step-Fifo e p v in
    let g = run-Fifo es (step e p).pipe f.still_valid in
    record {
      in_order =
          sym (append_assoc (contents p) (step e p).written _)
          ∙ ap (λ x. x ++ (run es (step e p).pipe).written) f.in_order
          ∙ append_assoc (step e p).read (contents (step e p).pipe) _
          ∙ ap (λ x. (step e p).read ++ x) g.in_order
          ∙ sym (append_assoc (step e p).read (run es (step e p).pipe).read _);
      still_valid = g.still_valid;
    }
