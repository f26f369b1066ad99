-- ===== src/OrderBook/Modify.antt =====
-- `modifyOrder`: its refusals, a new quantity at the old price, and a new price.
use spot_exchange.Prelude.{
  ℕ, ◌+◌, ◌%◌, ◌^◌, ◌<◌, ◌≡◌, ◌≢◌, refl, sym, ap, subst, ◌∙◌, true, false, none, some, [], ◌∷◌,
  arith, ltb, ◌==◌, if◌then◌else◌, Bool-cases, inl, inr, find, assign, find-assign,
}
use spot_exchange.Prelude.Run.{ok}
use spot_exchange.Info.{Order, ModifyOrder, cancel_of_modify, order_of_modify}
use spot_exchange.Messages.{write_market_data, modified}
use spot_exchange.Limits.{Side, ask, bid, Limit, Limits}
use spot_exchange.Limits.Segment.{linked, first_or, last_or}
use spot_exchange.OrderBook.{
  OrderBook, Junk, modify_order_trivial, error_flags, change_qty, replace_order, modify_order,
  get_order, order_cancelled, order_added,
}
use spot_exchange.OrderBook.View.{
  View, orders_of, with_orders, side_code, side_of, side_of-code, level_ptr, IsRep, put_order,
}
use spot_exchange.OrderBook.View.Update.{opposite}
use spot_exchange.OrderBook.Sides.{AllAt-at}
use spot_exchange.OrderBook.Rest.{CanRest}
use spot_exchange.OrderBook.Add.{crosses, add_order-rests}
use spot_exchange.OrderBook.Cancel.{cancel_order-IsRep}
use spot_exchange.OrderBook.Places.{Place, place_of, Place-limit, eq→==, cancel_at}
use spot_exchange.OrderBook.Replace.{replace_at, replace-IsRep}
use spot_exchange.Limits.Replace.{with_qty}
use spot_exchange.OrderBook.Refuse.{wrong_side, wrong_user, trivial, refused, flags-bits}

-- The quantity that an order has after a modification at its price.
abbrev pub new_qty : ℕ → ℕ → ℕ
new_qty quantity old = if ltb old quantity then (old + (quantity + old)) % 2 ^ 32 else quantity

ne→== : (x y : ℕ) → x ≢ y → (x == y) ≡ false
ne→== x y ne = ground arith

change_qty-new :
    (quantity : ℕ) (o : Order)
    → change_qty quantity o ≡ ok (with_qty (new_qty quantity o.current_quantity) o)
unfolding change_qty
change_qty-new quantity o = elim (Bool-cases (ltb o.current_quantity quantity)) [
  | inl more ↦ rw more
  | inr less ↦ rw less (ground arith)
]

module _ (junk : Junk) (now : ℕ) (m : ModifyOrder) (b : OrderBook) (v : View) (limit : Limit)
    (rep : IsRep b v) (e : find m.order_id b.limitorders ≡ some limit)
    (fine : refused m limit.order ≡ false) where
  accepted : (error_flags m limit.order == 0) ≡ true
  unfolding error_flags modify_order_trivial
  accepted =
      let (zero_iff, sent) =
        flags-bits (wrong_side m limit.order) (wrong_user m limit.order) (trivial m limit.order)
          m in
      rw (zero_iff, fine)

  abbrev here : Place b v m.order_id
  here = place_of b v m.order_id limit rep e

  same : here.order ≡ limit.order
  same = ground (arith, Place-limit b v m.order_id here)

  limit_is :
      limit
      ≡ linked
          (level_ptr here.side here.price)
          here.order
          (last_or none here.front)
          (first_or none here.rest)
  limit_is = ground (arith, Place-limit b v m.order_id here)

  abbrev written : ℕ → Limits
  written q = assign m.order_id (record limit { order = with_qty q limit.order }) b.limitorders

  written-IsRep :
      (q : ℕ)
      → 0 < q
      → IsRep (record b { limitorders = written q }) (replace_at b v m.order_id here q)
  written-IsRep q pos =
      subst
        (λ (ls : Limits). IsRep (record b { limitorders = ls }) (replace_at b v m.order_id here q))
        (sym (
          ap
            (λ (l : Limit).
              assign m.order_id (record l { order = with_qty q l.order }) b.limitorders)
            limit_is
          ∙ ap
              (λ (id : ℕ).
                assign id
                  (linked (level_ptr here.side here.price) (with_qty q here.order)
                    (last_or none here.front) (first_or none here.rest))
                  b.limitorders)
              (sym here.same)))
        (replace-IsRep b v m.order_id q here rep pos)

  get_written :
      (q : ℕ)
      → get_order m.order_id (record b { limitorders = written q }) ≡ some (with_qty q limit.order)
  unfolding get_order
  get_written q = ground (
    arith,
    find-assign m.order_id m.order_id (record limit { order = with_qty q limit.order })
        b.limitorders,
  )

  -- At its old price the order keeps its place in the queue and gets `new_qty`: the quantity that
  -- was asked for where that is not larger than the old one. The message announced has the
  -- order's ID, the quantity that was asked for, and no time.
  pub modify_order-quantity :
      m.price ≡ limit.order.price
      → 0 < new_qty m.quantity limit.order.current_quantity
      → (b' : OrderBook) × (modify_order junk now m b
          ≡ ok (
            b',
            write_market_data (
                  modified (record { timestamp = 0; order_id = m.order_id; quantity = m.quantity }))
                ∷ [],
          ))
        × IsRep b'
            (replace_at b v m.order_id here (new_qty m.quantity limit.order.current_quantity))
        × (get_order m.order_id b'
            ≡ some (with_qty (new_qty m.quantity limit.order.current_quantity) limit.order))
  unfolding modify_order
  modify_order-quantity at pos = (
    record b { limitorders = written (new_qty m.quantity limit.order.current_quantity) },
    rw (
      e,
      modify_order,
      accepted,
      eq→== m.price limit.order.price at,
      change_qty-new m.quantity limit.order,
    ),
    written-IsRep (new_qty m.quantity limit.order.current_quantity) pos,
    get_written (new_qty m.quantity limit.order.current_quantity),
  )

  abbrev side : Side
  side = side_of limit.order

  opposite_cancel :
      (s : Side) → orders_of (opposite s) (cancel_at s limit.order v) ≡ orders_of (opposite s) v
  opposite_cancel ask = refl
  opposite_cancel bid = refl

  code : m.is_buy_side ≡ side_code side
  code =
      let c : limit.order.is_buy_side ≡ side_code here.side =
        ap (λ (o : Order). o.is_buy_side) (sym same)
        ∙ (AllAt-at here.side here.price here.front here.order here.rest here.is.at).1 in
      rw (side_of-code here.side limit.order c) (ground arith)

  -- A new price takes the order out of the book and puts a new one, with the same ID, behind the
  -- orders of the new price, when that meets no order of the other side. Both steps are announced.
  pub modify_order-reprices :
      m.price ≢ limit.order.price
      → 0 < m.quantity
      → crosses (opposite side) (order_of_modify m) (orders_of (opposite side) v) ≡ false
      → let v' = cancel_at side limit.order v in
        (b' : OrderBook) × (modify_order junk now m b
          ≡ ok (
            b',
            order_cancelled now (cancel_of_modify m) ∷ order_added now (order_of_modify m) ∷ [],
          ))
        × IsRep b' (with_orders side (put_order side (order_of_modify m) (orders_of side v')) v')
  unfolding modify_order replace_order
  modify_order-reprices ne pos apart =
      let (b₁, run, rep₁, free) =
        cancel_order-IsRep now (cancel_of_modify m) b v limit rep e (ground arith) in
      let can : CanRest side (order_of_modify m) b₁ = record {
        fresh = free;
        code = code;
        positive = pos;
      } in
      let (b₂, run', rep₂) =
        add_order-rests junk now side (order_of_modify m) b₁ (cancel_at side limit.order v) rep₁ can
          (rw (opposite_cancel side) apart) in
      (
        b₂,
        rw (
          e,
          modify_order,
          accepted,
          ne→== m.price limit.order.price ne,
          replace_order,
          run,
          run',
        ),
        rep₂,
      )
