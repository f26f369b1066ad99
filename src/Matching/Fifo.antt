-- ===== src/Matching/Fifo.antt =====
-- First in, first out: what an order of quantity `q` does to the orders of a price, oldest first.
use spot_exchange.Prelude.{
  ℕ, ◌+◌, ◌-◌, ◌%◌, ◌^◌, ◌≤◌, ◌<◌, ◌≡◌, refl, Bool, List, [], ◌∷◌, arith, ltb, ◌==◌, if◌then◌else◌,
  min, length,
}
use spot_exchange.Info.{Order, Fill}
use spot_exchange.Limits.Count.{live, total}

-- The quantity that is left, and the orders that are left.
unfoldable pub left_qty : ℕ → List Order → ℕ
left_qty q [] = q
left_qty q (o ∷ os) = if ltb o.current_quantity q then left_qty (q - o.current_quantity) os else 0

unfoldable pub left_orders : ℕ → List Order → List Order
left_orders q [] = []
left_orders q (o ∷ os) =
    if ltb o.current_quantity q
    then left_orders (q - o.current_quantity) os
    else if o.current_quantity == q
    then os
    else record o { current_quantity = o.current_quantity - q } ∷ os

-- A trade of `amount` at the resting order's price is two fills, one with the ID of each order; both
-- go to the connection of the incoming order and carry the user of the resting one.
abbrev pub fill_of : ℕ → Order → Order → (id amount : ℕ) → Bool → Fill
fill_of now incoming o id amount full = record {
  timestamp = now;
  ticker = incoming.ticker;
  order_id = id;
  price = o.price;
  user_id = o.user_id;
  connection = incoming.connection;
  fill_qty = amount % 2 ^ 16;
  full_fill = full;
}

unfoldable pub level_fills : ℕ → Order → ℕ → List Order → List Fill
level_fills now incoming q [] = []
level_fills now incoming q (o ∷ os) =
    let amount = min o.current_quantity q in
    fill_of now incoming o o.order_id amount (o.current_quantity - amount == 0)
    ∷ fill_of now incoming o incoming.order_id amount (q - amount == 0)
    ∷ (if ltb o.current_quantity q
        then level_fills now incoming (q - o.current_quantity) os
        else [])

abbrev pub Positive : List Order → Type 0
Positive [] = Unit
Positive (o ∷ os) = (0 < o.current_quantity) × Positive os

pub live-Positive : (os : List Order) → Positive os → live os ≡ length os
unfolding live
live-Positive [] p = refl
live-Positive (o ∷ os) p = ground (arith, live-Positive os p.1)

-- Quantity is neither lost nor made up: what the incoming order gave up is what the others lost.
pub left-total : (q : ℕ) (os : List Order) → left_qty q os + total os ≡ q + total (left_orders q os)
unfolding left_qty left_orders total
left-total q [] = omega arith
left-total q (o ∷ os) = ground (arith, left-total (q - o.current_quantity) os)

pub left_qty-total : (q : ℕ) (os : List Order) → left_qty q os ≡ q - total os
unfolding left_qty total
left_qty-total q [] = omega arith
left_qty-total q (o ∷ os) = ground (arith, left_qty-total (q - o.current_quantity) os)

pub length-left_orders : (q : ℕ) (os : List Order) → length (left_orders q os) ≤ length os
unfolding left_orders
length-left_orders q [] = omega arith
length-left_orders q (o ∷ os) = ground (arith, length-left_orders (q - o.current_quantity) os)

pub left_orders-Positive : (q : ℕ) (os : List Order) → Positive os → Positive (left_orders q os)
unfolding left_orders
left_orders-Positive q [] p = tt
left_orders-Positive q (o ∷ os) p =
    ground (arith, left_orders-Positive (q - o.current_quantity) os p.1)
