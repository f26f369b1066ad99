-- ===== src/OrderBook/Match.antt =====
-- `addOrder` when the best level of the other side fills the order.
use spot_exchange.Prelude.{
  ℕ, ◌^◌, ◌<◌, ◌≡◌, refl, ap, ◌∙◌, subst, true, false, some, List, [], ◌∷◌, arith, find, length,
}
use spot_exchange.Prelude.Run.{ok}
use spot_exchange.Info.{Order}
use spot_exchange.Limits.{Side, ask, bid, Level, Limits, Book}
use spot_exchange.Limits.Replace.{with_qty}
use spot_exchange.Matching.{no_matching_level}
use spot_exchange.Matching.Fifo.{Positive, left_qty, left_orders, level_fills}
use spot_exchange.Matching.FirstLevel.{fifo_match-fills}
use spot_exchange.OrderBook.{
  OrderBook, Junk, book_of, add_order, match_or_rest, communicate_match_results,
}
use spot_exchange.OrderBook.View.{
  AllAt, Orders, View, orders_of, with_orders, level_ptr, IsLevel, Levels, IsRep, or_erase,
}
use spot_exchange.OrderBook.View.Update.{opposite}
use spot_exchange.OrderBook.Add.{crosses, add_order-side, possible_matches-crosses}
use spot_exchange.OrderBook.Rest.{CanRest}
use spot_exchange.OrderBook.Deplete.{depleted, depleted-IsRep}

pub AllAt-Positive : (side : Side) (price : ℕ) (os : List Order) → AllAt side price os → Positive os
AllAt-Positive side price [] a = tt
AllAt-Positive side price (o ∷ os) a = (a.0.2, AllAt-Positive side price os a.1)

pub Levels-first :
    (m : Limits) (side : Side) (k : ℕ) (os : List Order) (ys : Orders) (ls : Book)
    → Levels m side ls ((k, os) ∷ ys)
    → (level : Level) × (rest : Book) × (ls ≡ (k, level) ∷ rest) × IsLevel m side k level os
Levels-first m side k os ys [] r = elim r [ ]
Levels-first m side k os ys ((p, level) ∷ rest) r =
    (level, rest, ap (λ k. (k, level) ∷ rest) r.0, subst (λ k. IsLevel m side k level os) r.0 r.1)

pub crosses-meets :
    (side : Side) (o : Order) (k : ℕ) (os : List Order) (ys : Orders)
    → crosses side o ((k, os) ∷ ys) ≡ true
    → no_matching_level side o.price k ≡ false
unfolding crosses no_matching_level
crosses-meets ask o k os ys c = ground arith
crosses-meets bid o k os ys c = ground arith

pub find-first : (k : ℕ) (os : List Order) (ys : Orders) → find k ((k, os) ∷ ys) ≡ some os
unfolding find
find-first k os ys = ground arith

module _ (junk : Junk) (now : ℕ) (side : Side) (o : Order) (b : OrderBook) (v : View) where
  -- A new order (with an ID not in the book, a side and a quantity above 0) that the best price of
  -- the other side, with fewer than 2^16 orders, fills takes the oldest orders first: the level
  -- keeps what `left_orders` says and goes when that is nothing, the rest of the book stays as it
  -- is, nothing of the order rests, and each trade is answered and announced by two fills.
  pub add_order-fills :
      (k : ℕ) (os : List Order) (ys : Orders)
      → IsRep b v
      → CanRest side o b
      → orders_of (opposite side) v ≡ (k, os) ∷ ys
      → crosses (opposite side) o ((k, os) ∷ ys) ≡ true
      → length os < 2 ^ 16
      → left_qty o.current_quantity os ≡ 0
      → (b' : OrderBook) × (add_order junk now o b
          ≡ ok (
            b',
            with_qty 0 o,
            communicate_match_results (level_fills now o o.current_quantity os) (with_qty 0 o),
          ))
        × IsRep b' (
            with_orders
              (opposite side)
              (or_erase k (left_orders o.current_quantity os) (orders_of (opposite side) v))
              v)
  unfolding match_or_rest
  add_order-fills k os ys rep can best meets f full =
      let other = opposite side in
      let (level, rest, e, is) =
        Levels-first b.limitorders other k os ys (book_of other b)
          (subst (Levels b.limitorders other (book_of other b)) best (rep.levels other)) in
      let (m', run, sh, sg) =
        fifo_match-fills junk.level now other o (level_ptr other k) k level rest b.limitorders os
          (crosses-meets other o k os ys meets) rep.distinct is.apart is.seg is.head f
          (AllAt-Positive other k os is.at) can.positive full in
      let found : find k (orders_of other v) ≡ some os = rw best (find-first k os ys) in
      let crossed =
        possible_matches-crosses b.limitorders other junk.price o (book_of other b)
          (orders_of other v) (rep.levels other)
        ∙ ap (crosses other o) best
        ∙ meets in
      (
        depleted b v other k level os o.current_quantity m' rep found is sh sg,
        rw (add_order-side junk now side o b can.fresh can.code, crossed, e, run, full) refl,
        depleted-IsRep b v other k level os o.current_quantity m' rep found is sh sg,
      )
