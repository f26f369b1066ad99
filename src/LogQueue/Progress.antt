-- ===== src/LogQueue/Progress.antt =====
-- Producers and the consumer of the queue do not wait for each other for ever; a full queue.
use mathlib.Core.List.{append-nil}
use spot_exchange.Prelude.{
  ℕ, ◌+◌, ◌%◌, ◌^◌, ◌≡◌, ◌≢◌, refl, ap, ◌∙◌, inl, inr, ◌⊎◌, Bool, true, false, some, List, [], ◌∷◌,
  arith, length, length-append,
}
use spot_exchange.LogQueue.{Queue, put, claim, spins, construct, front}
use spot_exchange.LogQueue.Cells.{slot_of, waiting_of, values}
use spot_exchange.LogQueue.Steps.{System, Reachable}
use spot_exchange.LogQueue.Order.{Holds, cells, values-length}

module _ {E : Type 0} where
  -- A producer whose slot is the consumer's next does not wait.
  construct-tail :
      (t : ℕ) (v : E) (q : Queue E)
      → t % 1024 ≡ q.tail
      → (q' : Queue E) × (construct t v q ≡ some q') × (front q' ≡ some v)
  unfolding construct spins front
  construct-tail t v q e =
      let free : spins t q ≡ false = ground arith in
      (record q { slots = put (t % 1024) (some v) q.slots }, rw free refl, ground arith)

  -- The consumer finds an entry, or the producer with the oldest ticket can give it one.
  abbrev pub Moves : System E → Type 0
  Moves s =
      ((v : E) × (front s.queue ≡ some v))
      ⊎ ((t : ℕ) × (v : E) × (others : List (ℕ × E)) × (q : Queue E) × (s.waiting ≡ (t, v) ∷ others)
          × (construct t v s.queue ≡ some q)
          × (front q ≡ some v))

  oldest-Moves :
      (s : System E) (n : ℕ) (cs : List (E × Bool))
      → Holds n cs s
      → s.claimed ≢ s.consumed
      → Moves s
  unfolding front slot_of waiting_of
  oldest-Moves s n [] h left = absurd (left (h.claimed ∙ append-nil s.consumed))
  oldest-Moves s n ((v, true) ∷ cs) h left = inl (v, ground (arith, h.slots s.queue.tail, h.tail))
  oldest-Moves s n ((v, false) ∷ cs) h left =
      let (q, made, found) = construct-tail (n % 2 ^ 64) v s.queue (omega (arith, h.tail)) in
      inr (n % 2 ^ 64, v, waiting_of (n + 1) cs, q, h.waiting, made, found)

  -- If each producer has claimed its ticket while fewer than 1024 entries were outstanding, which
  -- `Reachable` requires and `emplace` does not ensure: while entries are outstanding,
  -- `front` finds one, or the producer that has waited longest can construct at once and `front` finds
  -- its entry.
  pub queue-progress : (s : System E) → Reachable s → s.claimed ≢ s.consumed → Moves s
  queue-progress s r left = let (n, cs, h) = cells s r in oldest-Moves s n cs h left

  -- When 1024 entries are outstanding, the next producer does not wait: its entry takes the place of the
  -- oldest one, and `front` finds it.
  pub full_queue-overwrites :
      (s : System E) (v : E)
      → Reachable s
      → length s.claimed ≡ length s.consumed + 1024
      → (q : Queue E) × (construct (claim s.queue).0 v (claim s.queue).1 ≡ some q)
        × (front q ≡ some v)
  unfolding claim
  full_queue-overwrites s v r full =
      let (n, cs, h) = cells s r in
      construct-tail s.queue.head v (claim s.queue).1 (
        omega (
          arith,
          h.head,
          h.tail,
          h.count,
          ap length h.claimed,
          length-append s.consumed (values cs),
          values-length cs,
          full,
        ))
