-- ===== src/Matching/Trade.antt =====
-- One trade between the incoming order and the first order of a level.
use mathlib.Core.List.{append_assoc}
use spot_exchange.Prelude.{ℕ, ◌-◌, ◌≤◌, ◌≡◌, Option, [], ◌∷◌, ◌++◌, arith, ◌==◌, min, assign}
use spot_exchange.Prelude.Run.{ok}
use spot_exchange.Info.{Order, decrease_qty}
use spot_exchange.Limits.{LevelPtr}
use spot_exchange.Limits.Segment.{linked}
use spot_exchange.Matching.{Match, trade, add_fills}
use spot_exchange.Matching.Fifo.{fill_of}

decrease_qty-ok :
    (q : ℕ) (o : Order)
    → q ≤ o.current_quantity
    → decrease_qty q o ≡ ok (record o { current_quantity = o.current_quantity - q })
unfolding decrease_qty
decrease_qty-ok q o h = ground arith

-- The state after a trade of `amount` with `o`, whose limit stands at `prev` and `next`.
abbrev pub traded : LevelPtr → Option ℕ → Option ℕ → Order → ℕ → Match → Match
traded ptr prev next o amount s =
    let order : Order = record s.order { current_quantity = s.order.current_quantity - amount } in
    let o' : Order = record o { current_quantity = o.current_quantity - amount } in
    record s {
      order = order;
      limits = assign o.order_id (linked ptr o' prev next) s.limits;
      result = record s.result {
        fills =
            s.result.fills
            ++ fill_of s.now s.order o o.order_id amount (o.current_quantity - amount == 0)
              ∷ fill_of s.now s.order o s.order.order_id amount
                  (s.order.current_quantity - amount == 0)
              ∷ [];
      };
    }

pub trade_lem :
    (ptr : LevelPtr) (prev next : Option ℕ) (o : Order) (s : Match)
    → let amount = min o.current_quantity s.order.current_quantity in
      trade o.order_id (linked ptr o prev next) s
      ≡ ok (
        record o { current_quantity = o.current_quantity - amount },
        traded ptr prev next o amount s,
      )
unfolding trade add_fills
trade_lem ptr prev next o s =
    let amount = min o.current_quantity s.order.current_quantity in
    rw (
      decrease_qty-ok amount s.order (omega arith),
      decrease_qty-ok amount o (omega arith),
      append_assoc,
    )
