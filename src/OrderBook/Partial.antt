-- ===== src/OrderBook/Partial.antt =====
-- `addOrder` when the order is larger than the best level of the other side and meets no other.
use spot_exchange.Prelude.{
  ℕ, ◌<◌, ◌≡◌, refl, ap, ◌∙◌, subst, true, false, none, List, [], ◌∷◌, ◌++◌, arith, ◌==◌, find,
}
use spot_exchange.Prelude.Run.{ok}
use spot_exchange.Info.{Order}
use spot_exchange.Limits.{Side, ask, bid, Limits, Book}
use spot_exchange.Limits.Replace.{with_qty}
use spot_exchange.Matching.{fifo_match, no_matching_level}
use spot_exchange.Matching.Fifo.{left_qty, level_fills}
use spot_exchange.Matching.OneLevel.{stops, fifo_match-sweeps}
use spot_exchange.OrderBook.{
  OrderBook, Junk, book_of, with_book, order_added, rest_order, add_order, match_or_rest,
  communicate_match_results,
}
use spot_exchange.OrderBook.View.{
  Orders, View, orders_of, with_orders, level_ptr, Levels, IsRep, put_order,
}
use spot_exchange.OrderBook.View.Update.{opposite}
use spot_exchange.OrderBook.Add.{crosses, add_order-side, possible_matches-crosses}
use spot_exchange.OrderBook.Rest.{CanRest, place_order_in_book-IsRep}
use spot_exchange.OrderBook.Sides.{limitorders-with_book}
use spot_exchange.OrderBook.Gone.{level-gone, Shrunk-fresh}
use spot_exchange.OrderBook.Match.{Levels-first, crosses-meets}

stops-crosses :
    (m : Limits) (side : Side) (o : Order) (ls : Book) (ys : Orders)
    → Levels m side ls ys
    → crosses side o ys ≡ false
    → stops side o ls ≡ true
unfolding crosses no_matching_level
stops-crosses m side o [] ys r c = refl
stops-crosses m side o (l ∷ ls) [] r c = elim r [ ]
stops-crosses m ask o ((p, l) ∷ ls) ((q, os) ∷ ys) r c = ground arith
stops-crosses m bid o ((p, l) ∷ ls) ((q, os) ∷ ys) r c = ground arith

module _ (junk : Junk) (now : ℕ) (side : Side) (o : Order) (b : OrderBook) (v : View) where
  -- A new order (with an ID not in the book, a side and a quantity above 0) that is larger than the
  -- best level of the other side and meets no other price takes the whole level, and what is left
  -- of it rests behind the orders of its own price; the fills are answered and announced before the
  -- new order is.
  pub add_order-partial :
      (k : ℕ) (os : List Order) (ys : Orders)
      → IsRep b v
      → CanRest side o b
      → orders_of (opposite side) v ≡ (k, os) ∷ ys
      → crosses (opposite side) o ((k, os) ∷ ys) ≡ true
      → crosses (opposite side) o ys ≡ false
      → 0 < left_qty o.current_quantity os
      → let o' = with_qty (left_qty o.current_quantity os) o in
        let v' = with_orders (opposite side) ys v in
        (b' : OrderBook) × (add_order junk now o b
          ≡ ok (
            b',
            o',
            communicate_match_results (level_fills now o o.current_quantity os) o'
                ++ order_added now o' ∷ [],
          ))
        × IsRep b' (with_orders side (put_order side o' (orders_of side v')) v')
  unfolding match_or_rest rest_order
  add_order-partial k os ys rep can best meets apart more =
      let other = opposite side in
      let (level, rest, e, is) =
        Levels-first b.limitorders other k os ys (book_of other b)
          (subst (Levels b.limitorders other (book_of other b)) best (rep.levels other)) in
      let levels : Levels b.limitorders other ((k, level) ∷ rest) ((k, os) ∷ ys) =
        subst (λ l. Levels b.limitorders other l ((k, os) ∷ ys)) e
          (subst (Levels b.limitorders other (book_of other b)) best (rep.levels other)) in
      let (m', lvl, run, sh) =
        fifo_match-sweeps junk.level now other o (level_ptr other k) k level b.limitorders os rest
          (crosses-meets other o k os ys meets)
          (stops-crosses b.limitorders other o rest ys levels.2 apart) rep.distinct is.apart is.seg
          is.head more in
      let rep₁ =
        level-gone b v other k o.current_quantity level os rest ys m' rep best e is sh more in
      let o' = with_qty (left_qty o.current_quantity os) o in
      let b₁ = with_book other rest (record b { limitorders = m' }) in
      let v₁ = with_orders other ys v in
      let fresh : find o.order_id b₁.limitorders ≡ none =
        rw (limitorders-with_book other rest (record b { limitorders = m' }))
          (Shrunk-fresh (level_ptr other k) os b.limitorders m' o.order_id sh can.fresh) in
      let (b₂, placed, rep₂) =
        place_order_in_book-IsRep side o' b₁ v₁ rep₁
          (record { fresh = fresh; code = can.code; positive = more }) in
      let crossed =
        possible_matches-crosses b.limitorders other junk.price o (book_of other b)
          (orders_of other v) (rep.levels other)
        ∙ ap (crosses other o) best
        ∙ meets in
      let some_left : (left_qty o.current_quantity os == 0) ≡ false = ground arith in
      (
        b₂,
        rw
            (
              add_order-side junk now side o b can.fresh can.code,
              crossed,
              ap (λ l. fifo_match junk.level now other o l b.limitorders) e ∙ run,
              some_left,
              placed,
            )
            refl,
        rep₂,
      )
