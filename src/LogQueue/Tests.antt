-- ===== src/LogQueue/Tests.antt =====
-- The queue of the logger on concrete entries.
use spot_exchange.Prelude.{
  none, ℕ, zero, suc, ◌≤◌, ◌≡◌, refl, ap, some, List, [], ◌∷◌, ◌++◌, arith, length, length-append,
}
use spot_exchange.LogQueue.{Queue, put, claim, spins, construct, front, pop}
use spot_exchange.LogQueue.Steps.{
  System, start, claims, constructs, consumes, claiming, constructing, consuming, Reachable, begins,
  goes,
}
use spot_exchange.ClientInput.{codes}
use spot_exchange.LogQueue.Writer.{
  LogEntry, info, log_entry, Outputs, new_outputs, set_output_file, write_from_queue, write_text,
}
use spot_exchange.LogQueue.Drain.{Written, lines, write_from_queue-drains}
use spot_exchange.LogQueue.Order.{queue-ordered}
use spot_exchange.LogQueue.Progress.{Moves, queue-progress, full_queue-overwrites}

-- Two producers claim, the second constructs first.
abbrev claimed_two : System ℕ
unfolding claim
claimed_two = claims 8 (claims 7 start)

abbrev second_built : System ℕ
second_built =
    constructs (record claimed_two.queue { slots = put 1 (some 8) claimed_two.queue.slots })
      ((0, 7) ∷ []) claimed_two

abbrev both_built : System ℕ
both_built =
    constructs (record second_built.queue { slots = put 0 (some 7) second_built.queue.slots }) []
      second_built

abbrev one_consumed : System ℕ
unfolding pop
one_consumed = consumes 7 both_built

second_built-Reachable : Reachable second_built
unfolding claim construct spins
second_built-Reachable =
    goes _ _
      (goes _ _ (goes _ _ begins (claiming start 7 (omega arith)))
        (claiming (claims 7 start) 8 (omega arith)))
      (constructing claimed_two ((0, 7) ∷ []) [] 1 8 _ refl refl)

one_consumed-Reachable : Reachable one_consumed
unfolding claim construct spins front pop
one_consumed-Reachable =
    goes _ _ (goes _ _ second_built-Reachable (constructing second_built [] [] 0 7 _ refl refl))
      (consuming both_built 7 refl)

-- The entry 7 comes first, though 8 was constructed first.
one_consumed-front : front one_consumed.queue ≡ some 8
unfolding front pop claim
one_consumed-front = refl

queue-ordered_example :
    (rest : List ℕ) × (one_consumed.claimed ≡ one_consumed.consumed ++ rest)
    × (length rest ≤ 1024)
    × ((v : ℕ) → front one_consumed.queue ≡ some v → (later : List ℕ) × (rest ≡ v ∷ later))
queue-ordered_example = queue-ordered one_consumed one_consumed-Reachable

queue-progress_example : Moves second_built
unfolding claim
queue-progress_example =
    queue-progress second_built second_built-Reachable (λ e. omega (arith, ap length e))

-- Producers that only claim.
filled : ℕ → System ℕ
filled zero = start
filled (suc k) = claims k (filled k)

filled-consumed : (k : ℕ) → (filled k).consumed ≡ []
unfolding filled
filled-consumed zero = refl
filled-consumed (suc k) = filled-consumed k

filled-claimed : (k : ℕ) → length (filled k).claimed ≡ k
unfolding filled
filled-claimed zero = refl
filled-claimed (suc k) = omega (arith, length-append (filled k).claimed (k ∷ []), filled-claimed k)

filled-Reachable : (k : ℕ) → k ≤ 1024 → Reachable (filled k)
unfolding filled
filled-Reachable zero h = begins
filled-Reachable (suc k) h =
    goes _ _ (filled-Reachable k (omega arith))
      (claiming (filled k) k (omega (arith, filled-claimed k, ap length (filled-consumed k), h)))

full_queue-overwrites_example :
    (q : Queue ℕ) × (construct (claim (filled 1024).queue).0 5 (claim (filled 1024).queue).1
      ≡ some q)
    × (front q ≡ some 5)
full_queue-overwrites_example =
    full_queue-overwrites (filled 1024) 5 (filled-Reachable 1024 (omega arith))
      (omega (arith, filled-claimed 1024, ap length (filled-consumed 1024)))

-- One log line.
abbrev listening : LogEntry
listening = log_entry info (codes "Server" ∷ codes "up" ∷ [])

abbrev logged : System LogEntry
unfolding claim
logged =
    constructs
      (record (claims listening start).queue { slots = put 0 (some listening) (λ i. none) }) []
      (claims listening start)

logged-Reachable : Reachable logged
unfolding claim construct spins
logged-Reachable =
    goes _ _ (goes _ _ begins (claiming start listening (omega arith)))
      (constructing (claims listening start) [] [] 0 listening _ refl refl)

to_file : Outputs
to_file = set_output_file (codes "log") new_outputs

logged-text : (write_from_queue 3 logged.queue to_file).1.file ≡ codes "[INFO] Server up \n"
unfolding claim to_file set_output_file write_from_queue front pop write_text
logged-text = refl

write_from_queue-drains_example :
    (rest : List LogEntry) × (logged.claimed ≡ logged.consumed ++ rest)
    × Written (lines rest) to_file (write_from_queue 1 logged.queue to_file).1
    × (front (write_from_queue 1 logged.queue to_file).0 ≡ none)
unfolding claim
write_from_queue-drains_example =
    write_from_queue-drains 1 logged to_file logged-Reachable refl (omega arith)
