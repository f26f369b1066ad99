-- ===== src/OrderBook/Walk/Total.antt =====
-- `addOrder` ends, whatever the order.
use spot_exchange.Prelude.{
  ℕ, ◌<◌, ◌≡◌, refl, inl, inr, false, none, List, [], arith, ◌==◌, find, Bool-cases, Option-cases,
}
use spot_exchange.Prelude.Run.{ok}
use spot_exchange.Info.{Order}
use spot_exchange.Messages.{Effect}
use spot_exchange.Limits.{Side, ask, bid}
use spot_exchange.OrderBook.{OrderBook, Junk, add_order}
use spot_exchange.OrderBook.View.{View, orders_of, IsRep}
use spot_exchange.OrderBook.View.Update.{opposite}
use spot_exchange.OrderBook.Add.{crosses, add_order-rests, add_order-duplicate}
use spot_exchange.OrderBook.Rest.{CanRest}
use spot_exchange.OrderBook.Walk.{rest_of, Countable}
use spot_exchange.OrderBook.Walk.Add.{add_order-walks, add_order-sweeps}

-- What `addOrder` returns.
abbrev pub Added : Type 0
Added = OrderBook × Order × List Effect

module _ (junk : Junk) (now : ℕ) (o : Order) (b : OrderBook) (v : View) where
  -- An order for one of the sides.
  ends_at :
      (side : Side)
      → IsRep b v
      → CanRest side o b
      → Countable (orders_of (opposite side) v)
      → (r : Added) × (add_order junk now o b ≡ ok r)
  ends_at side rep can short =
      let ys = orders_of (opposite side) v in
      elim (Bool-cases (crosses (opposite side) o ys)) [
        | inl meets ↦
            elim (Bool-cases (rest_of (opposite side) o.price o.current_quantity ys == 0)) [
              | inl full ↦
                  let (b', run, rep', kept) =
                    add_order-walks junk now side o b v rep can meets short (ground arith) in
                  (_, run)
              | inr more ↦
                  let (b', run, rep') =
                    add_order-sweeps junk now side o b v rep can meets short (ground arith) in
                  (_, run)
            ]
        | inr apart ↦
            let (b', run, rep') = add_order-rests junk now side o b v rep can apart in (_, run)
      ]

  other_side :
      find o.order_id b.limitorders ≡ none
      → (o.is_buy_side == 1) ≡ false
      → (o.is_buy_side == 0) ≡ false
      → add_order junk now o b ≡ ok (b, o, [])
  unfolding add_order
  other_side e f g = rw (e, add_order, f, g) refl

  or_ends :
      IsRep b v
      → Countable v.asks
      → Countable v.bids
      → 0 < o.current_quantity
      → find o.order_id b.limitorders ≡ none
      → (r : Added) × (add_order junk now o b ≡ ok r)
  or_ends rep short_asks short_bids pos fresh = elim (Bool-cases (o.is_buy_side == 1)) [
    | inl buys ↦
        ends_at bid rep (record { fresh = fresh; code = ground arith; positive = pos }) short_asks
    | inr not_buy ↦ elim (Bool-cases (o.is_buy_side == 0)) [
      | inl sells ↦
          ends_at ask rep (record { fresh = fresh; code = ground arith; positive = pos }) short_bids
      | inr not_sell ↦ (_, other_side fresh not_buy not_sell)
    ]
  ]

  -- On a book that stands for a view, and with fewer than 2^16 orders at each price, every order that
  -- asks for a quantity is worked off: the loops end within the fuel that they are given, no quantity
  -- falls below 0, no exception is thrown, and every pointer that is followed names an object that is
  -- there, but for two: `book_lvl`, which dangles once the first level is erased, and whose freed
  -- storage is taken to keep what was last written to it; and the element at `end()` of a map, whose
  -- read is taken to give an arbitrary value, `junk`.
  pub add_order-ends :
      IsRep b v
      → Countable v.asks
      → Countable v.bids
      → 0 < o.current_quantity
      → (r : Added) × (add_order junk now o b ≡ ok r)
  add_order-ends rep short_asks short_bids pos =
      elim (Option-cases (find o.order_id b.limitorders)) [
        | inl fresh ↦ or_ends rep short_asks short_bids pos fresh
        | inr (limit, e) ↦ (_, add_order-duplicate junk now o b limit e)
      ]
