-- ===== src/OrderBook/Tests/Walks.antt =====
-- Orders that go through several prices, at the small book of the tests.
use spot_exchange.Prelude.{◌≡◌, refl, [], ◌∷◌, ◌++◌, arith, ◌⊎◌, true, false, find}
use spot_exchange.Prelude.Run.{ok}
use spot_exchange.Info.{Order}
use spot_exchange.Limits.{ask, bid}
use spot_exchange.Limits.Replace.{with_qty}
use spot_exchange.Matching.{no_matching_level}
use spot_exchange.Matching.Fifo.{left_qty}
use spot_exchange.OrderBook.{OrderBook, add_order, order_added, communicate_match_results}
use spot_exchange.OrderBook.View.{IsRep, with_orders, put_order}
use spot_exchange.OrderBook.Rest.{CanRest}
use spot_exchange.OrderBook.Add.{crosses}
use spot_exchange.OrderBook.Walk.{rest_of, side_left, side_fills, head_lost, healed}
use spot_exchange.OrderBook.Walk.Add.{add_order-walks, add_order-sweeps}
use spot_exchange.OrderBook.Walk.Total.{Added, add_order-ends}
use spot_exchange.OrderBook.Tests.{order, book, view, book-IsRep, junk}

-- Buys 18 at up to 105: the 15 at 100 and 3 of the 7 at 105.
abbrev pub o₁₁ : Order
o₁₁ = order 1 11 105 18

-- Buys 30 at up to 105, where 22 are for sale.
abbrev o₁₂ : Order
o₁₂ = order 1 12 105 30

pub walks_can : CanRest bid o₁₁ book
unfolding find
walks_can = record { fresh = refl; code = refl; positive = omega arith }

sweeps_can : CanRest bid o₁₂ book
unfolding find
sweeps_can = record { fresh = refl; code = refl; positive = omega arith }

add_order-walks_example :
    (b' : OrderBook) × (add_order junk 9 o₁₁ book
      ≡ ok (
        b',
        with_qty 0 o₁₁,
        communicate_match_results (side_fills ask 9 o₁₁ 18 view.asks) (with_qty 0 o₁₁),
      ))
    × IsRep
        (healed ask (side_left ask 105 18 view.asks) b')
        (with_orders ask (side_left ask 105 18 view.asks) view)
    × ((b' ≡ healed ask (side_left ask 105 18 view.asks) b')
        ⊎ (head_lost false ask 105 18 view.asks ≡ true))
unfolding rest_of crosses no_matching_level left_qty
add_order-walks_example =
    add_order-walks junk 9 bid o₁₁ book view book-IsRep walks_can refl
      (omega arith, (omega arith, tt)) refl

add_order-sweeps_example :
    (b' : OrderBook) × (add_order junk 9 o₁₂ book
      ≡ ok (
        b',
        with_qty (rest_of ask 105 30 view.asks) o₁₂,
        communicate_match_results
              (side_fills ask 9 o₁₂ 30 view.asks)
              (with_qty (rest_of ask 105 30 view.asks) o₁₂)
            ++ order_added 9 (with_qty (rest_of ask 105 30 view.asks) o₁₂) ∷ [],
      ))
    × IsRep b' (
        with_orders bid
          (put_order bid (with_qty (rest_of ask 105 30 view.asks) o₁₂) view.bids)
          (with_orders ask (side_left ask 105 30 view.asks) view))
unfolding rest_of crosses no_matching_level left_qty
add_order-sweeps_example =
    add_order-sweeps junk 9 bid o₁₂ book view book-IsRep sweeps_can refl
      (omega arith, (omega arith, tt)) (omega arith)

add_order-ends_example : (r : Added) × (add_order junk 9 o₁₂ book ≡ ok r)
add_order-ends_example =
    add_order-ends junk 9 o₁₂ book view book-IsRep (omega arith, (omega arith, tt))
      (omega arith, tt) (omega arith)
