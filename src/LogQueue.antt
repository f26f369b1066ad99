-- ===== src/LogQueue.antt =====
-- include/server/logger.hpp: `Queue`, the queue of many producers and one consumer behind `Logger`.
--
-- `size_` is the 1024 of `Logger`, so that `& (size_ - 1)` is `% 1024`. Each atomic access, with the
-- writes that it publishes, is a step: `emplace` is a claim (`fetch_add`) and a construction, which
-- waits while `spins` holds; `front` and `pop` of the one consumer are a step together. The memory that
-- `malloc` gives is taken to be zero, as the code does.
pub mod Cells
pub mod Steps
pub mod Order
pub mod Progress
pub mod Writer
pub mod Drain
mod Tests
use spot_exchange.Prelude.{
  ℕ, ◌+◌, ◌-◌, ◌%◌, ◌^◌, Bool, true, false, Option, none, some, List, [], ◌∷◌, leb, ◌==◌,
  if◌then◌else◌,
}

-- A slot is `some` where `is_constructed` holds.
pub record Queue (Entry : Type 0) : Type 0 where
  pub slots : ℕ → Option Entry
  pub head : ℕ
  pub tail : ℕ

module _ {E : Type 0} where
  abbrev pub empty_queue : Queue E
  empty_queue = record { slots = λ i. none; head = 0; tail = 0 }

  -- The slot `i` gets the value `x`.
  abbrev pub put : ℕ → Option E → (ℕ → Option E) → ℕ → Option E
  put i x slots j = if j == i then x else slots j

  -- `head_.fetch_add(1)`.
  unfoldable pub claim : Queue E → ℕ × Queue E
  claim q = (q.head, record q { head = (q.head + 1) % 2 ^ 64 })

  -- The condition of the loop that waits, in the arithmetic of `std::size_t`.
  unfoldable pub spins : ℕ → Queue E → Bool
  spins head q = leb 1024 ((head % 1024 + 2 ^ 64 - q.tail) % 2 ^ 64)

  -- The rest of `emplace`, `none` as long as it waits.
  unfoldable pub construct : ℕ → E → Queue E → Option (Queue E)
  unfolding spins
  construct head entry q =
      if spins head q
      then none
      else some (record q { slots = put (head % 1024) (some entry) q.slots })

  -- `front`.
  unfoldable pub front : Queue E → Option E
  front q = q.slots q.tail

  -- `pop` of the entry that `front` found.
  unfoldable pub pop : Queue E → Queue E
  pop q = record q { slots = put q.tail none q.slots; tail = (q.tail + 1) % 1024 }
