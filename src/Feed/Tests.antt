-- ===== src/Feed/Tests.antt =====
-- Announced to a client: an order that rests in an empty book; and, in vain, an order that trades at
-- the small book of the order book's tests.
use spot_exchange.Prelude.{some, ◌∷◌, negsuc, ℕ, ◌≡◌, refl, List, [], arith, find}
use spot_exchange.Prelude.Run.{ok}
use spot_exchange.Messages.{Effect}
use spot_exchange.Limits.{ask, bid}
use spot_exchange.Limits.Replace.{with_qty}
use spot_exchange.Matching.{no_matching_level}
use spot_exchange.Matching.Fifo.{left_qty}
use spot_exchange.OrderBook.{OrderBook, empty_book, add_order, order_added}
use spot_exchange.OrderBook.View.{View, IsRep, with_orders, put_order}
use spot_exchange.OrderBook.Rest.{CanRest}
use spot_exchange.OrderBook.Add.{crosses}
use spot_exchange.OrderBook.Walk.{rest_of, side_left, healed}
use spot_exchange.OrderBook.Tests.{book, view, book-IsRep, junk}
use spot_exchange.OrderBook.Tests.Walks.{o₁₁, walks_can}
use spot_exchange.ClientFeed.{Handler, FeedOrder, empty_handler, get_order}
use spot_exchange.Info.{Order, new_order}
use spot_exchange.Feed.Negative.{TooLarge, add_order-negative}
use spot_exchange.ClientFeed.Held.{Held}
use spot_exchange.ClientFeed.Stream.{empty-Held}
use spot_exchange.ClientFeed.Tests.{client}
use spot_exchange.Feed.{deliver}
use spot_exchange.Feed.Unseen.{add_order-unseen}

abbrev empty_view : View
empty_view = record { asks = []; bids = [] }

empty-IsRep : IsRep empty_book empty_view
unfolding find
empty-IsRep = record {
  distinct = tt;
  levels = elim [ ask ↦ tt | bid ↦ tt ];
  sorted = elim [ ask ↦ tt | bid ↦ tt ];
  listed = λ id. refl;
}

add_order-unseen_example :
    (b' : OrderBook) × (sent : List Effect) × (buffer' : List ℕ) × (add_order junk 9 o₁₁ book
      ≡ ok (b', with_qty 0 o₁₁, sent))
    × IsRep
        (healed ask (side_left ask 105 18 view.asks) b')
        (with_orders ask (side_left ask 105 18 view.asks) view)
    × (deliver sent [] client ≡ ok (buffer', client))
unfolding rest_of crosses no_matching_level left_qty find
add_order-unseen_example =
    add_order-unseen junk 9 bid o₁₁ book view [] client book-IsRep walks_can refl
      (omega arith, (omega arith, tt)) refl (omega arith) (omega arith, omega arith) refl

-- A sale of 3,000,000,000.
abbrev large : Order
large = new_order 0 1 100 3000000000 (record { order_id = 8; user_id = 1; ticker = 3 })

large_can : CanRest ask large empty_book
unfolding find
large_can = record { fresh = refl; code = refl; positive = omega arith }

too_large : TooLarge 9 large empty_handler
unfolding find
too_large = record {
  time = omega arith;
  id = omega arith;
  ticker = omega arith;
  price = omega arith;
  large = omega arith;
  quantity = omega arith;
  fresh = refl;
  room = omega arith;
}

add_order-negative_example :
    (b' : OrderBook) × (buffer' : List ℕ) × (h' : Handler) × (f : FeedOrder) × (add_order junk 9
        large empty_book
      ≡ ok (b', large, order_added 9 large ∷ []))
    × IsRep b' (with_orders ask (put_order ask large []) empty_view)
    × (deliver (order_added 9 large ∷ []) [] empty_handler ≡ ok (buffer', h'))
    × (get_order 8 h' ≡ some f)
    × (f.quantity ≡ negsuc 1294967295)
unfolding crosses
add_order-negative_example =
    add_order-negative junk 9 ask large empty_book empty_view [] empty_handler empty-IsRep large_can
      refl empty-Held too_large
