-- ===== src/WriteQueue.antt =====
-- The queue of messages in front of a gRPC stream that takes one write at a time: the lists and the
-- flag `write_in_progress_` of `MarketDataDispatcher` (src/server/rpc/marketdatadispatcher.cpp) and
-- of `OrderEntryStreamConnection` (src/server/rpc/orderentrystreamconnection.cpp).
--
-- `stream` is what has been handed to the `Write` of the stream, in order. A call holds the mutex
-- from beginning to end, so calls do not interleave. `pop_front` of an empty list is a fault.
pub mod InOrder
pub mod Tests
use spot_exchange.Prelude.{
  ℕ, Bool, true, false, List, [], ◌∷◌, ◌++◌, ◌==◌, if◌then◌else◌, Option, none, some,
}
use spot_exchange.Prelude.Run.{Run, ok, fault}
use spot_exchange.Messages.{MarketData, add}

pub record Writer {ℓ} (A : Type ℓ) : Type ℓ where
  pub queue : List A
  pub write_in_progress : Bool
  pub stream : List A

module _ {ℓ} {A : Type ℓ} where
  abbrev pub idle : Writer A
  idle = record { queue = []; write_in_progress = false; stream = [] }

  -- The end of `writeMarketData` and, but for the count of operations, `writeToClient`.
  unfoldable pub push : A → Writer A → Writer A
  push message w =
      if w.write_in_progress then record w { queue = w.queue ++ message ∷ [] } else record {
        queue = w.queue ++ message ∷ [];
        write_in_progress = true;
        stream = w.stream ++ message ∷ [];
      }

  -- `writeToMDPlatform`, the callback of a write, and `sendResponseFromQueue` likewise.
  unfoldable pub written : Bool → Writer A → Run (Writer A)
  written success w = elim w.queue [
    | [] ↦ fault
    | message ∷ [] ↦ ok (record w { queue = []; write_in_progress = false })
    | message ∷ next ∷ rest ↦
        if success
        then ok (record w { queue = next ∷ rest; stream = w.stream ++ next ∷ [] })
        else ok (record w { queue = next ∷ rest; write_in_progress = false })
  ]

-- `marketdata->add().order_id()`: 0 for a message that is not an `add`.
abbrev pub add_order_id : MarketData → ℕ
add_order_id (add o) = o.order_id
add_order_id m = 0

-- `writeMarketData`: `none` is the `exit(0)` of its benchmark.
unfoldable pub write_market_data : MarketData → Writer MarketData → Option (Writer MarketData)
unfolding push
write_market_data m w = if add_order_id m == 356198 then none else some (push m w)
