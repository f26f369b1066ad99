-- ===== src/BookState.antt =====
-- include/server/order/orderbook.hpp: the state of an `OrderBook`, the test for a match, and what the
-- book sends to the connections and to the market data dispatcher.
use spot_exchange.Prelude.{ℕ, ◌+◌, Bool, true, false, List, [], ◌∷◌, ltb, leb, not, ◌&&◌, length}
use spot_exchange.Prelude.Run.{Run}
use spot_exchange.Info.{Order, OrderCommon, ModifyOrder, CancelOrder, Fill}
use spot_exchange.Messages.{
  OrderEntryFill, add, modified, cancel, fill, Effect, write_fill, write_market_data,
}
use spot_exchange.Limits.{Side, ask, bid, Level, Limits, Book}

pub record OrderBook : Type 0 where
  pub ticker : ℕ
  pub asks : Book
  pub bids : Book
  pub limitorders : Limits

-- What a read of the element at `end()` of an `std::map` gives.
pub record Junk : Type 0 where
  pub price : ℕ
  pub level : Level

abbrev pub empty_book : OrderBook
empty_book = record { ticker = 0; asks = []; bids = []; limitorders = [] }

abbrev pub Result : Type 0
Result = Run (OrderBook × List Effect)

abbrev pub book_of : Side → OrderBook → Book
book_of ask b = b.asks
book_of bid b = b.bids

abbrev pub with_book : Side → Book → OrderBook → OrderBook
with_book ask levels b = record b { asks = levels }
with_book bid levels b = record b { bids = levels }

-- The order of the two maps: `std::less` and `std::greater`.
abbrev pub before : Side → ℕ → ℕ → Bool
before ask p q = ltb p q
before bid p q = ltb q p

-- `numOrders` and `numLevels`.
unfoldable pub num_orders : OrderBook → ℕ
num_orders b = length b.limitorders

unfoldable pub num_levels : OrderBook → ℕ
num_levels b = length b.asks + length b.bids

abbrev pub begin_price : ℕ → Book → ℕ
begin_price junk [] = junk
begin_price junk ((p, level) ∷ levels) = p

abbrev pub is_empty : Book → Bool
is_empty [] = true
is_empty (level ∷ levels) = false

-- Both `possibleMatches`: the price is read before the book is known to have a level.
unfoldable pub possible_matches : Side → ℕ → Book → Order → Bool
possible_matches ask junk levels order =
    leb (begin_price junk levels) order.price && not (is_empty levels)
possible_matches bid junk levels order =
    leb order.price (begin_price junk levels) && not (is_empty levels)

abbrev pub order_common : Order → OrderCommon
order_common order = record {
  order_id = order.order_id;
  user_id = order.user_id;
  ticker = order.ticker;
}

abbrev pub fill_message : Order → Fill → OrderEntryFill
fill_message order f = record {
  timestamp = f.timestamp;
  status_common = order_common order;
  complete_fill = f.full_fill;
  fill_quantity = f.fill_qty;
  fill_id = 0;
}

-- `communicateMatchResults`.
unfoldable pub communicate_match_results : List Fill → Order → List Effect
communicate_match_results [] order = []
communicate_match_results (f ∷ fs) order =
    write_fill f.connection (fill_message order f)
    ∷ write_market_data (fill (fill_message order f))
    ∷ communicate_match_results fs order

-- `sendOrderAddedToDispatcher`, `sendOrderCancelledToDispatcher` and `sendOrderModifiedToDispatcher`.
abbrev pub order_added : ℕ → Order → Effect
order_added now order = write_market_data (
    add (record {
      timestamp = now;
      order_id = order.order_id;
      ticker = order.ticker;
      price = order.price;
      quantity = order.current_quantity;
      is_buy_side = order.is_buy_side;
    }))

abbrev pub order_cancelled : ℕ → CancelOrder → Effect
order_cancelled now c =
    write_market_data (cancel (record { timestamp = now; order_id = c.order_id }))

abbrev pub order_modified : ModifyOrder → Effect
order_modified m =
    write_market_data
      (modified (record { timestamp = 0; order_id = m.order_id; quantity = m.quantity }))
