-- ===== src/OrderBook/View.antt =====
-- The abstract order book: for each side, the orders of each price in the order of their arrival.
--
-- `IsRep` says that the maps and the linked limits of an `OrderBook` stand for such a view.
pub mod Levels
pub mod Members
pub mod Update
use spot_exchange.Prelude.{
  ℕ, ◌<◌, ◌≡◌, ◌≢◌, refl, Bool, true, false, ◌||◌, Option, none, some, List, [], ◌∷◌, ◌++◌, arith,
  ◌==◌, if◌then◌else◌, Map, Below, Distinct, find, erase, assign, emplace_by, length,
}
use spot_exchange.Info.{Order}
use spot_exchange.Limits.{Side, ask, bid, LevelPtr, Limit, Level, Limits, Book}
use spot_exchange.Limits.Segment.{has, Apart, first_or, last_or, Seg, known}
use spot_exchange.OrderBook.{OrderBook, book_of, before}

abbrev pub Orders : Type 0
Orders = Map (List Order)

pub record View : Type 0 where
  pub asks : Orders
  pub bids : Orders

abbrev pub orders_of : Side → View → Orders
orders_of ask v = v.asks
orders_of bid v = v.bids

abbrev pub with_orders : Side → Orders → View → View
with_orders ask ys v = record v { asks = ys }
with_orders bid ys v = record v { bids = ys }

abbrev pub side_code : Side → ℕ
side_code ask = 0
side_code bid = 1

-- The side of an order.
abbrev pub side_of : Order → Side
side_of o = if o.is_buy_side == 0 then ask else bid

pub side_of-code : (side : Side) (o : Order) → o.is_buy_side ≡ side_code side → side_of o ≡ side
side_of-code ask o e = ground arith
side_of-code bid o e = ground arith

abbrev pub level_ptr : Side → ℕ → LevelPtr
level_ptr side price = record { side = side; price = price }

-- Every order has the level's side and price, and a quantity left.
abbrev pub AllAt : Side → ℕ → List Order → Type 0
AllAt side price [] = Unit
AllAt side price (o ∷ os) =
    ((o.price ≡ price) × (o.is_buy_side ≡ side_code side) × (0 < o.current_quantity))
    × AllAt side price os

pub record IsLevel (m : Limits) (side : Side) (price : ℕ) (level : Level) (os : List Order)
    : Type 0 where
  pub head : level.head ≡ first_or none os
  pub tail : level.tail ≡ last_or none os
  pub seg : Seg m (level_ptr side price) none os none
  pub apart : Apart os
  pub at : AllAt side price os
  pub ne_nil : os ≢ []

-- The levels of a book and the orders of a view, price by price.
abbrev pub Levels : Limits → Side → Book → Orders → Type 0
Levels m side [] [] = Unit
Levels m side [] (y ∷ ys) = ⊥
Levels m side (l ∷ ls) [] = ⊥
Levels m side ((p, level) ∷ ls) ((q, os) ∷ ys) =
    (p ≡ q) × IsLevel m side p level os × Levels m side ls ys

-- Best price first.
abbrev pub AllAfter : Side → ℕ → Orders → Type 0
AllAfter side p [] = Unit
AllAfter side p ((q, os) ∷ ys) = (before side p q ≡ true) × AllAfter side p ys

abbrev pub Sorted : Side → Orders → Type 0
Sorted side [] = Unit
Sorted side ((p, os) ∷ ys) = AllAfter side p ys × Sorted side ys

abbrev pub has_any : ℕ → Orders → Bool
has_any id [] = false
has_any id ((p, os) ∷ ys) = has id os || has_any id ys

pub record IsRep (b : OrderBook) (v : View) : Type 0 where
  pub distinct : Distinct b.limitorders
  pub levels : (side : Side) → Levels b.limitorders side (book_of side b) (orders_of side v)
  pub sorted : (side : Side) → Sorted side (orders_of side v)
  pub listed : (id : ℕ) → known id b.limitorders ≡ (has_any id v.asks || has_any id v.bids)

-- What the book operations do to a view: a new order goes behind those of its price ...
unfoldable pub put_order : Side → Order → Orders → Orders
put_order side o ys = elim (find o.price ys) [
  | none ↦ emplace_by (before side) o.price (o ∷ []) ys
  | some os ↦ assign o.price (os ++ o ∷ []) ys
]

-- ... and an order is taken out of its level, which goes with its last order.
pub remove_order : ℕ → List Order → List Order
remove_order id [] = []
remove_order id (o ∷ os) = if o.order_id == id then os else o ∷ remove_order id os

abbrev pub or_erase : ℕ → List Order → Orders → Orders
or_erase p [] ys = erase p ys
or_erase p (o ∷ os) ys = assign p (o ∷ os) ys

unfoldable pub take_order : ℕ → ℕ → Orders → Orders
unfolding remove_order
take_order id p ys = elim (find p ys) [ none ↦ ys | some os ↦ or_erase p (remove_order id os) ys ]
