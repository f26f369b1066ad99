-- ===== src/OrderBook/Refuse.antt =====
-- What `modifyOrder` refuses.
use spot_exchange.Prelude.{
  ℕ, ◌+◌, ◌*◌, ◌≡◌, refl, Bool, true, false, ◌||◌, ◌&&◌, not, none, some, List, [], ◌∷◌, ◌++◌, ◌==◌,
  find,
}
use spot_exchange.Prelude.Run.{ok}
use spot_exchange.Info.{Order, ModifyOrder}
use spot_exchange.Messages.{
  Effect, order_not_found, modify_wrong_side, wrong_user_id, modification_trivial, send_rejection,
}
use spot_exchange.Limits.{Limit}
use spot_exchange.OrderBook.{
  OrderBook, Junk, modify_order_trivial, error_flags, process_modify_error, reject_if, modify_order,
  bit,
}

-- What is wrong with a modification.
abbrev pub wrong_side : ModifyOrder → Order → Bool
wrong_side m o = not (o.is_buy_side == m.is_buy_side)

abbrev pub wrong_user : ModifyOrder → Order → Bool
wrong_user m o = not (o.user_id == m.user_id)

abbrev pub trivial : ModifyOrder → Order → Bool
trivial m o = m.price == o.price && m.quantity == o.current_quantity

abbrev pub refused : ModifyOrder → Order → Bool
refused m o = wrong_side m o || (wrong_user m o || trivial m o)

-- One rejection for each thing that is wrong.
abbrev pub refusals : ModifyOrder → Order → List Effect
refusals m o =
    reject_if (wrong_side m o) modify_wrong_side m
    ++ (reject_if (wrong_user m o) wrong_user_id m
        ++ reject_if (trivial m o) modification_trivial m)

abbrev flags : Bool → Bool → Bool → ℕ
flags x y z = bit x * 2 + bit y * 4 + bit z * 8

pub flags-bits :
    (x y z : Bool) (m : ModifyOrder)
    → ((flags x y z == 0) ≡ not (x || (y || z)))
      × (process_modify_error (flags x y z) m
          ≡ reject_if x modify_wrong_side m
            ++ (reject_if y wrong_user_id m ++ reject_if z modification_trivial m))
unfolding process_modify_error
flags-bits true true true m = (refl, refl)
flags-bits true true false m = (refl, refl)
flags-bits true false true m = (refl, refl)
flags-bits true false false m = (refl, refl)
flags-bits false true true m = (refl, refl)
flags-bits false true false m = (refl, refl)
flags-bits false false true m = (refl, refl)
flags-bits false false false m = (refl, refl)

module _ (junk : Junk) (now : ℕ) (m : ModifyOrder) (b : OrderBook) where
  pub modify_order-unknown :
      find m.order_id b.limitorders ≡ none
      → modify_order junk now m b
        ≡ ok (b, send_rejection m.connection order_not_found m.common ∷ [])
  unfolding modify_order
  modify_order-unknown e = rw (e, modify_order)

  module _ (limit : Limit) (e : find m.order_id b.limitorders ≡ some limit) where
    -- A modification of another side, by another user, or that changes nothing is refused: one
    -- rejection is sent for each of these that holds, and the book stays as it was.
    pub modify_order-rejects :
        refused m limit.order ≡ true → modify_order junk now m b ≡ ok (b, refusals m limit.order)
    unfolding modify_order error_flags modify_order_trivial
    modify_order-rejects bad =
        let (zero_iff, sent) =
          flags-bits (wrong_side m limit.order) (wrong_user m limit.order) (trivial m limit.order)
            m in
        rw (e, modify_order, zero_iff, bad, sent)
