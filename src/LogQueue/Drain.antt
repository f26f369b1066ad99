-- ===== src/LogQueue/Drain.antt =====
-- The thread that writes empties the queue into the output.
use mathlib.Core.List.{append_assoc, append-nil}
use spot_exchange.Prelude.{
  subst, if◌then◌else◌, ℕ, zero, suc, ◌+◌, ◌≤◌, ◌≡◌, refl, sym, ap, ◌∙◌, inl, inr, Option-cases,
  none, some, List, [], ◌∷◌, ◌++◌, arith, length, length-append,
}
use spot_exchange.ClientInput.{Str}
use spot_exchange.LogQueue.{Queue, front, pop}
use spot_exchange.LogQueue.Steps.{System, consumes, consuming, Reachable, goes}
use spot_exchange.LogQueue.Order.{queue-ordered}
use spot_exchange.LogQueue.Progress.{queue-progress}
use spot_exchange.LogQueue.Writer.{
  LogEntry, format, Outputs, write_text, format_log_entry, write_from_queue,
}

-- Every argument is followed by a space (32), and the line ends with a newline (10).
abbrev pub spaced : List Str → Str
spaced [] = []
spaced (t ∷ arguments) = t ++ 32 ∷ spaced arguments

abbrev pub lines : List LogEntry → Str
lines [] = []
lines (entry ∷ rest) = spaced entry.arguments ++ 10 ∷ lines rest

format-spaced :
    (arguments : List Str) (rest : Str) → format arguments ++ rest ≡ spaced arguments ++ 10 ∷ rest
format-spaced [] rest = refl
format-spaced (t ∷ arguments) rest =
    append_assoc t (32 ∷ format arguments) rest
    ∙ ap (λ l. t ++ 32 ∷ l) (format-spaced arguments rest)
    ∙ sym (append_assoc t (32 ∷ spaced arguments) (10 ∷ rest))

-- The text has gone to the file if there is one, else to the standard output if that is in use, and
-- nothing else has changed.
abbrev pub Written : Str → Outputs → Outputs → Type 0
Written text o o' =
    (o'.output ≡ o.output)
    × (o'.use_std_out ≡ o.use_std_out)
    × (o'.file ≡ elim o.output [ none ↦ o.file | some filename ↦ o.file ++ text ])
    × (o'.std_out ≡ elim o.output [
      | none ↦ if o.use_std_out then o.std_out ++ text else o.std_out
      | some filename ↦ o.std_out
    ])

write_text-Written : (text : Str) (o : Outputs) → Written text o (write_text text o)
unfolding write_text
write_text-Written text o = (ground arith, ground arith, ground arith, ground arith)

write_text-nil : (o : Outputs) → write_text [] o ≡ o
unfolding write_text
write_text-nil o = ground (arith, append-nil o.file, append-nil o.std_out)

write_text-append :
    (a b : Str) (o : Outputs) → write_text b (write_text a o) ≡ write_text (a ++ b) o
unfolding write_text
write_text-append a b o = ground (arith, append_assoc o.file a b, append_assoc o.std_out a b)

-- With nothing at the front and no producer at work, nothing is left.
empty-consumed :
    {E : Type 0} (s : System E)
    → Reachable s
    → s.waiting ≡ []
    → front s.queue ≡ none
    → s.claimed ≡ s.consumed
empty-consumed {E} s r w e = let (rest, split, few, next) = queue-ordered s r in nothing rest split
  where
    nothing : (rest : List E) → s.claimed ≡ s.consumed ++ rest → s.claimed ≡ s.consumed
    nothing [] split = split ∙ append-nil s.consumed
    nothing (x ∷ rest) split =
        elim (queue-progress s r (λ same.
          omega (arith, ap length (sym same ∙ split), length-append s.consumed (x ∷ rest)))) [
            | inl (v, found) ↦ cc
            | inr (t, v, others, q, waits, made, found) ↦ cc
          ]

write_from_queue-none :
    (k : ℕ) (q : Queue LogEntry) (o : Outputs) → front q ≡ none → write_from_queue k q o ≡ (q, o)
unfolding write_from_queue
write_from_queue-none zero q o e = refl
write_from_queue-none (suc k) q o e = ground (arith, e, write_from_queue-none k q o e)

-- As many entries consumed as claimed: nothing is left.
none_left :
    {E : Type 0} (s : System E)
    → Reachable s
    → length s.claimed ≤ length s.consumed
    → (s.claimed ≡ s.consumed) × (front s.queue ≡ none)
none_left {E} s r few =
    let (rest, split, bound, next) = queue-ordered s r in nothing rest split next
  where
    nothing :
        (rest : List E)
        → s.claimed ≡ s.consumed ++ rest
        → ((v : E) → front s.queue ≡ some v → (later : List E) × (rest ≡ v ∷ later))
        → (s.claimed ≡ s.consumed) × (front s.queue ≡ none)
    nothing [] split next = (
      split ∙ append-nil s.consumed,
      elim (Option-cases (front s.queue)) [
        | inl e ↦ e
        | inr (v, e) ↦ let (later, wrong) = next v e in cc
      ],
    )
    nothing (x ∷ rest) split next =
        absurd (omega (arith, few, ap length split, length-append s.consumed (x ∷ rest)))

-- After `k` rounds the lines of the outstanding entries are written, and the queue is empty.
abbrev Drained : ℕ → System LogEntry → Outputs → Type 0
Drained k s o =
    (rest : List LogEntry) × (s.claimed ≡ s.consumed ++ rest)
    × ((write_from_queue k s.queue o).1 ≡ write_text (lines rest) o)
    × (front (write_from_queue k s.queue o).0 ≡ none)

empty-Drained :
    (k : ℕ) (s : System LogEntry) (o : Outputs)
    → s.claimed ≡ s.consumed
    → front s.queue ≡ none
    → Drained k s o
empty-Drained k s o same e =
    let idle = write_from_queue-none k s.queue o e in
    (
      [],
      same ∙ sym (append-nil s.consumed),
      ap (λ p. p.1) idle ∙ sym (write_text-nil o),
      ap (λ p. front p.0) idle ∙ e,
    )

-- A round that writes an entry.
write-Drained :
    (k : ℕ) (s : System LogEntry) (o : Outputs) (entry : LogEntry)
    → front s.queue ≡ some entry
    → Drained k (consumes entry s) (format_log_entry entry o)
    → Drained (suc k) s o
unfolding write_from_queue
write-Drained k s o entry e (rest, split, written, empty) =
    let round : write_from_queue (suc k) s.queue o
        ≡ write_from_queue k (pop s.queue) (format_log_entry entry o) =
      ground (arith, e) in
    (
      entry ∷ rest,
      split ∙ append_assoc s.consumed (entry ∷ []) rest,
      ap (λ p. p.1) round
          ∙ written
          ∙ write_text-append (format entry.arguments) (lines rest) o
          ∙ ap (λ text. write_text text o) (format-spaced entry.arguments (lines rest)),
      ap (λ p. front p.0) round ∙ empty,
    )

drains :
    (k : ℕ) (s : System LogEntry) (o : Outputs)
    → Reachable s
    → s.waiting ≡ []
    → length s.claimed ≤ length s.consumed + k
    → Drained k s o
drains zero s o r w enough =
    let (same, e) = none_left s r (omega (arith, enough)) in empty-Drained zero s o same e
drains (suc k) s o r w enough = elim (Option-cases (front s.queue)) [
  | inl e ↦ empty-Drained (suc k) s o (empty-consumed s r w e) e
  | inr (entry, e) ↦ write-Drained k s o entry e (
      drains k (consumes entry s) (format_log_entry entry o) (goes _ _ r (consuming s entry e)) w
        (omega (arith, enough, length-append s.consumed (entry ∷ []))))
]

-- If each producer has claimed its ticket while fewer than 1024 entries were outstanding (which
-- `Reachable` requires and `emplace` does not ensure), and no producer is at work any more, then as
-- many rounds as entries are outstanding leave the queue empty and append a line for each of these
-- entries, in the order of their tickets: every argument and a space, then a newline. The lines go to
-- the file, or without one to the standard output if that is in use; nothing else changes there.
pub write_from_queue-drains :
    (k : ℕ) (s : System LogEntry) (o : Outputs)
    → Reachable s
    → s.waiting ≡ []
    → length s.claimed ≤ length s.consumed + k
    → (rest : List LogEntry) × (s.claimed ≡ s.consumed ++ rest)
      × Written (lines rest) o (write_from_queue k s.queue o).1
      × (front (write_from_queue k s.queue o).0 ≡ none)
write_from_queue-drains k s o r w enough =
    let (rest, split, written, empty) = drains k s o r w enough in
    (
      rest,
      split,
      subst (Written (lines rest) o) (sym written) (write_text-Written (lines rest) o),
      empty,
    )
