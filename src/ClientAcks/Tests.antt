-- ===== src/ClientAcks/Tests.antt =====
-- A client whose order is filled at once, at the small book of the order book's tests.
use spot_exchange.Prelude.{◌≡◌, refl, none, List, [], ◌∷◌, arith, find}
use spot_exchange.Prelude.Run.{ok, fault}
use spot_exchange.Messages.{OrderEntryFill, Effect, write_fill}
use spot_exchange.Limits.{bid}
use spot_exchange.Limits.Replace.{with_qty}
use spot_exchange.Matching.{no_matching_level}
use spot_exchange.Matching.Fifo.{left_qty}
use spot_exchange.Connection.{fill_response}
use spot_exchange.OrderBook.{OrderBook, add_order}
use spot_exchange.OrderBook.Add.{crosses}
use spot_exchange.OrderBook.Walk.{rest_of}
use spot_exchange.OrderBook.Tests.{book, view, book-IsRep, junk}
use spot_exchange.OrderBook.Tests.Walks.{o₁₁, walks_can}
use spot_exchange.Util.{convert_eight_bytes_to_string, c_string}
use spot_exchange.ClientFeed.Tests.{client}
use spot_exchange.ClientInput.Console.{Client}
use spot_exchange.ClientAcks.{interpret_response_type}
use spot_exchange.ClientAcks.Fills.{add_order-null}

abbrev buyer : Client
buyer = record { feedhandler = client; subscription = none; user_id = 11 }

add_order-null_example :
    (b' : OrderBook) × (f : OrderEntryFill) × (sent : List Effect) × (add_order junk 9 o₁₁ book
      ≡ ok (b', with_qty 0 o₁₁, write_fill 1 f ∷ sent))
    × (interpret_response_type (fill_response f) buyer ≡ fault)
unfolding rest_of crosses no_matching_level left_qty find convert_eight_bytes_to_string c_string
add_order-null_example =
    add_order-null junk 9 bid o₁₁ book view buyer (3 ∷ []) book-IsRep walks_can refl
      (omega arith, (omega arith, tt)) refl refl refl refl
