-- ===== src/OrderBook/Tests/Trades.antt =====
-- Orders that trade, at the small book of the tests.
use spot_exchange.Prelude.{◌≡◌, refl, [], ◌∷◌, ◌++◌, arith, ◌^◌, ◌%◌, find}
use spot_exchange.Prelude.Run.{ok, fault}
use spot_exchange.Info.{Order}
use spot_exchange.Limits.{ask, bid, level_order_count, level_order_quantity}
use spot_exchange.Limits.Replace.{with_qty}
use spot_exchange.Limits.Count.{live, total, level_order_count-live, level_order_quantity-total}
use spot_exchange.Matching.Fifo.{left_qty, left_orders, level_fills}
use spot_exchange.OrderBook.{
  OrderBook, empty_book, add_order, order_added, communicate_match_results,
}
use spot_exchange.OrderBook.View.{IsRep, with_orders, put_order, or_erase}
use spot_exchange.OrderBook.Rest.{CanRest}
use spot_exchange.OrderBook.Add.{crosses}
use spot_exchange.OrderBook.Match.{add_order-fills}
use spot_exchange.OrderBook.Partial.{add_order-partial}
use spot_exchange.OrderBook.Tests.{
  order, o₁, o₂, o₃, level, book, view, book-IsRep, level_100, junk, add_all,
}

-- Buys 12 and 20 at 100, where 15 are for sale.
abbrev o₆ : Order
o₆ = order 1 6 100 12

abbrev o₇ : Order
o₇ = order 1 7 100 20

fills_can : CanRest bid o₆ book
unfolding find
fills_can = record { fresh = refl; code = refl; positive = omega arith }

partial_can : CanRest bid o₇ book
unfolding find
partial_can = record { fresh = refl; code = refl; positive = omega arith }

add_order-fills_example :
    (b' : OrderBook) × (add_order junk 9 o₆ book
      ≡ ok (
        b',
        with_qty 0 o₆,
        communicate_match_results (level_fills 9 o₆ 12 (o₁ ∷ o₂ ∷ [])) (with_qty 0 o₆),
      ))
    × IsRep b' (with_orders ask (or_erase 100 (left_orders 12 (o₁ ∷ o₂ ∷ [])) view.asks) view)
unfolding left_qty crosses
add_order-fills_example =
    add_order-fills junk 9 bid o₆ book view 100 (o₁ ∷ o₂ ∷ []) ((105, o₃ ∷ []) ∷ []) book-IsRep
      fills_can refl refl (omega arith) refl

add_order-partial_example :
    (b' : OrderBook) × (add_order junk 9 o₇ book
      ≡ ok (
        b',
        with_qty (left_qty 20 (o₁ ∷ o₂ ∷ [])) o₇,
        communicate_match_results
              (level_fills 9 o₇ 20 (o₁ ∷ o₂ ∷ []))
              (with_qty (left_qty 20 (o₁ ∷ o₂ ∷ [])) o₇)
            ++ order_added 9 (with_qty (left_qty 20 (o₁ ∷ o₂ ∷ [])) o₇) ∷ [],
      ))
    × IsRep b' (
        with_orders bid
          (put_order bid (with_qty (left_qty 20 (o₁ ∷ o₂ ∷ [])) o₇) view.bids)
          (with_orders ask ((105, o₃ ∷ []) ∷ []) view))
unfolding left_qty crosses
add_order-partial_example =
    add_order-partial junk 9 bid o₇ book view 100 (o₁ ∷ o₂ ∷ []) ((105, o₃ ∷ []) ∷ []) book-IsRep
      partial_can refl refl refl (omega arith)

level_order_count-live_example :
    level_order_count (level 0 100 1 2) book.limitorders ≡ ok (live (o₁ ∷ o₂ ∷ []) % 2 ^ 16)
level_order_count-live_example =
    level_order_count-live book.limitorders _ (level 0 100 1 2) (o₁ ∷ o₂ ∷ []) book-IsRep.distinct
      level_100.apart level_100.seg refl

level_order_quantity-total_example :
    level_order_quantity (level 0 100 1 2) book.limitorders ≡ ok (total (o₁ ∷ o₂ ∷ []) % 2 ^ 32)
level_order_quantity-total_example =
    level_order_quantity-total book.limitorders _ (level 0 100 1 2) (o₁ ∷ o₂ ∷ [])
      book-IsRep.distinct level_100.apart level_100.seg refl

-- An order that takes the level at 100 and goes on into the one at 105: the next order at 105 reads
-- through the dangling head of that level.
abbrev o₈ : Order
o₈ = order 0 8 105 4

abbrev o₉ : Order
o₉ = order 1 9 105 24

abbrev o₁₀ : Order
o₁₀ = order 1 10 105 1

dangling_head : add_all (o₁ ∷ o₂ ∷ o₃ ∷ o₈ ∷ o₉ ∷ o₁₀ ∷ []) empty_book ≡ fault
unfolding add_all
dangling_head = refl
