-- ===== src/OrderBook/Add.antt =====
-- `addOrder`: the requests that it refuses, and the orders that meet no match.
use spot_exchange.Prelude.{ℕ, ◌≡◌, Bool, false, none, some, [], ◌∷◌, arith, leb, find}
use spot_exchange.Prelude.Run.{ok}
use spot_exchange.Info.{Order}
use spot_exchange.Messages.{order_id_already_present, send_rejection}
use spot_exchange.Limits.{Side, ask, bid, Limit, Limits, Book}
use spot_exchange.OrderBook.{
  OrderBook, Junk, book_of, possible_matches, match_or_rest, rest_order, add_order, order_added,
  order_common,
}
use spot_exchange.OrderBook.View.{
  Orders, View, orders_of, with_orders, side_code, Levels, IsRep, put_order,
}
use spot_exchange.OrderBook.View.Update.{opposite}
use spot_exchange.OrderBook.Rest.{CanRest, place_order_in_book-IsRep}

-- Whether an order meets the best price of the other side.
unfoldable pub crosses : Side → Order → Orders → Bool
crosses side o [] = false
crosses ask o ((p, os) ∷ ys) = leb p o.price
crosses bid o ((p, os) ∷ ys) = leb o.price p

-- `possibleMatches` reads the price of the best level before it knows that there is one. What it
-- reads from an empty book does not matter: it answers whether the order meets the best price.
pub possible_matches-crosses :
    (m : Limits) (side : Side) (junk : ℕ) (o : Order) (ls : Book) (ys : Orders)
    → Levels m side ls ys
    → possible_matches side junk ls o ≡ crosses side o ys
unfolding possible_matches crosses
possible_matches-crosses m ask junk o [] [] r = ground arith
possible_matches-crosses m bid junk o [] [] r = ground arith
possible_matches-crosses m side junk o [] (y ∷ ys) r = elim r [ ]
possible_matches-crosses m side junk o (l ∷ ls) [] r = elim r [ ]
possible_matches-crosses m ask junk o ((p, l) ∷ ls) ((q, os) ∷ ys) r = ground arith
possible_matches-crosses m bid junk o ((p, l) ∷ ls) ((q, os) ∷ ys) r = ground arith

pub add_order-side :
    (junk : Junk) (now : ℕ) (side : Side) (o : Order) (b : OrderBook)
    → find o.order_id b.limitorders ≡ none
    → o.is_buy_side ≡ side_code side
    → add_order junk now o b ≡ match_or_rest junk now (opposite side) side o b
unfolding add_order
add_order-side junk now ask o b e c = rw (e, add_order, c)
add_order-side junk now bid o b e c = rw (e, add_order, c)

module _ (junk : Junk) (now : ℕ) (side : Side) (o : Order) (b : OrderBook) (v : View) where
  -- A new order (with an ID not in the book, a side and a quantity above 0) that meets no price of
  -- the other side is put behind the orders of its own price, and that is announced; nothing else
  -- is sent, and nothing else in the book changes.
  pub add_order-rests :
      IsRep b v
      → CanRest side o b
      → crosses (opposite side) o (orders_of (opposite side) v) ≡ false
      → (b' : OrderBook) × (add_order junk now o b ≡ ok (b', o, order_added now o ∷ []))
        × IsRep b' (with_orders side (put_order side o (orders_of side v)) v)
  unfolding match_or_rest rest_order
  add_order-rests rep can apart =
      let (b', run, rep') = place_order_in_book-IsRep side o b v rep can in
      let no_match =
        possible_matches-crosses b.limitorders (opposite side) junk.price o
          (book_of (opposite side) b) (orders_of (opposite side) v) (rep.levels (opposite side)) in
      (b', rw (add_order-side junk now side o b can.fresh can.code, no_match, apart, run), rep')

-- A second order with the ID of one in the book is refused, and changes nothing.
pub add_order-duplicate :
    (junk : Junk) (now : ℕ) (o : Order) (b : OrderBook) (limit : Limit)
    → find o.order_id b.limitorders ≡ some limit
    → add_order junk now o b
      ≡ ok (b, o, send_rejection o.connection order_id_already_present (order_common o) ∷ [])
unfolding add_order
add_order-duplicate junk now o b limit e = rw (e, add_order)
