-- ===== src/OrderBook/Replace.antt =====
-- A change of one order of the book in its place.
use spot_exchange.Prelude.{ℕ, ◌<◌, refl, none, List, [], ◌∷◌, ◌++◌, arith, assign, assign_self}
use spot_exchange.Info.{Order}
use spot_exchange.Limits.{Side, LevelPtr, Limits}
use spot_exchange.Limits.Segment.{first_or, last_or, linked, first_or-append, last_or-append}
use spot_exchange.Limits.Edit.{Edit, Edit-assign}
use spot_exchange.Limits.Replace.{with_qty, has-replace, Apart-replace, Seg-replace}
use spot_exchange.Limits.Splice.{Seg-at}
use spot_exchange.OrderBook.{OrderBook, book_of}
use spot_exchange.OrderBook.View.{
  AllAt, Orders, View, orders_of, with_orders, level_ptr, IsLevel, IsRep,
}
use spot_exchange.OrderBook.View.Levels.{Sorted-Distinct, Sorted-assign, Levels-assign}
use spot_exchange.OrderBook.View.Members.{has_any-find, has_any-assign}
use spot_exchange.OrderBook.View.Update.{
  opposite, opposite-ne, Levels-frame_side, IsRep-update, IsRep-listed,
}
use spot_exchange.OrderBook.Sides.{book_of-limits, append-ne_nil}
use spot_exchange.OrderBook.Places.{Place}

AllAt-replace :
    (side : Side) (price q : ℕ) (xs : List Order) (o : Order) (zs : List Order)
    → 0 < q
    → AllAt side price (xs ++ o ∷ zs)
    → AllAt side price (xs ++ with_qty q o ∷ zs)
AllAt-replace side price q [] o zs pos a = ((a.0.0, a.0.1, pos), a.1)
AllAt-replace side price q (x ∷ xs) o zs pos a = (a.0, AllAt-replace side price q xs o zs pos a.1)

-- The view with another quantity for one order.
abbrev pub replace_at : (b : OrderBook) (v : View) (id : ℕ) → Place b v id → ℕ → View
replace_at b v id p q =
    with_orders p.side
      (assign p.price (p.front ++ with_qty q p.order ∷ p.rest) (orders_of p.side v)) v

module _ (b : OrderBook) (v : View) (id q : ℕ) (p : Place b v id) (rep : IsRep b v)
    (pos : 0 < q) where
  open p use {side, price, order, front, rest}

  abbrev ptr : LevelPtr
  ptr = level_ptr side price

  abbrev m' : Limits
  m' =
      assign order.order_id
        (linked ptr (with_qty q order) (last_or none front) (first_or none rest)) b.limitorders

  abbrev ys : Orders
  ys = orders_of side v

  abbrev os' : List Order
  os' = front ++ with_qty q order ∷ rest

  edit : Edit ptr b.limitorders m'
  edit =
      Edit-assign ptr b.limitorders order.order_id _ _ rep.distinct
        (Seg-at b.limitorders ptr none none front order rest p.is.seg) refl

  level_is : IsLevel m' side price p.level os'
  level_is = record {
    head = ground (
      arith,
      p.is.head,
      first_or-append none front (order ∷ rest),
      first_or-append none front (with_qty q order ∷ rest),
    );
    tail = ground (
      arith,
      p.is.tail,
      last_or-append none front (order ∷ rest),
      last_or-append none front (with_qty q order ∷ rest),
    );
    seg = Seg-replace b.limitorders ptr q none none front order rest p.is.apart p.is.seg;
    apart = Apart-replace q front order rest p.is.apart;
    at = AllAt-replace side price q front order rest pos p.is.at;
    ne_nil = append-ne_nil front (with_qty q order) rest;
  }

  -- A new quantity for an order of the book changes that order in the view and nothing else.
  pub replace-IsRep : IsRep (record b { limitorders = m' }) (replace_at b v id p q)
  replace-IsRep =
      IsRep-update side b (record b { limitorders = m' }) v (assign price os' ys) rep edit.distinct
        (rw (book_of-limits side m' b, ← assign_self price p.level (book_of side b) p.found)
          (Levels-assign b.limitorders m' side price p.level os' (book_of side b) ys edit.spares
            (Sorted-Distinct side ys (rep.sorted side)) level_is (rep.levels side)))
        (rw (book_of-limits (opposite side) m' b) (
          Levels-frame_side b.limitorders m' side (opposite side) price _ _ edit.spares
            (opposite-ne side) (rep.levels (opposite side))))
        (Sorted-assign side price os' ys (rep.sorted side))
        (λ j. ground (
          arith,
          edit.keys j,
          IsRep-listed side b v j rep,
          has_any-find j price (front ++ order ∷ rest) ys p.found_orders,
          has_any-assign j price (front ++ order ∷ rest) os' ys p.found_orders,
          has-replace j q front order rest,
        ))
