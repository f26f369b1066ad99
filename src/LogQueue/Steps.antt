-- ===== src/LogQueue/Steps.antt =====
-- Producers and the consumer of the queue at work, one step at a time, in any order.
use spot_exchange.Prelude.{ℕ, ◌+◌, ◌<◌, ◌≡◌, some, List, [], ◌∷◌, ◌++◌, length}
use spot_exchange.LogQueue.{Queue, empty_queue, claim, construct, front, pop}

-- `waiting` are the tickets that are claimed and not constructed; `claimed` and `consumed` are all the
-- entries so far, in the order of their tickets and of their consumption.
pub record System (E : Type 0) : Type 0 where
  pub queue : Queue E
  pub waiting : List (ℕ × E)
  pub claimed : List E
  pub consumed : List E

module _ {E : Type 0} where
  abbrev pub start : System E
  start = record { queue = empty_queue; waiting = []; claimed = []; consumed = [] }

  -- An entry is claimed while fewer than 1024 are between the two ends.
  abbrev pub Room : System E → Type 0
  Room s = length s.claimed < length s.consumed + 1024

  abbrev pub claims : E → System E → System E
  claims v s = record {
    queue = (claim s.queue).1;
    waiting = s.waiting ++ ((claim s.queue).0, v) ∷ [];
    claimed = s.claimed ++ v ∷ [];
    consumed = s.consumed;
  }

  abbrev pub constructs : Queue E → List (ℕ × E) → System E → System E
  constructs q waiting s = record s { queue = q; waiting = waiting }

  abbrev pub consumes : E → System E → System E
  consumes v s = record s { queue = pop s.queue; consumed = s.consumed ++ v ∷ [] }

  pub data Step : System E → System E → Type 0 where
    claiming : (s : System E) (v : E) → Room s → Step s (claims v s)
    constructing :
        (s : System E) (xs ys : List (ℕ × E)) (t : ℕ) (v : E) (q : Queue E)
        → s.waiting ≡ xs ++ (t, v) ∷ ys
        → construct t v s.queue ≡ some q
        → Step s (constructs q (xs ++ ys) s)
    consuming : (s : System E) (v : E) → front s.queue ≡ some v → Step s (consumes v s)

  -- What can be reached from the start.
  pub data Reachable : System E → Type 0 where
    begins : Reachable start
    goes : (s s' : System E) → Reachable s → Step s s' → Reachable s'
