-- ===== src/OrderBook/Walk.antt =====
-- What an order does to the whole of the other side: price after price, best first, and the orders
-- of each price first in, first out.
pub mod Start
pub mod Loop
pub mod Ends
pub mod Add
pub mod Total
use spot_exchange.Prelude.{
  ℕ, ◌+◌, ◌-◌, ◌^◌, ◌<◌, ◌≡◌, refl, Bool, true, false, ◌&&◌, not, none, List, [], ◌∷◌, ◌++◌, arith,
  ◌==◌, if◌then◌else◌, length,
}
use spot_exchange.Info.{Order, Fill}
use spot_exchange.Limits.{Side, Level, Book}
use spot_exchange.Limits.Segment.{first_or}
use spot_exchange.Limits.Replace.{with_qty}
use spot_exchange.Limits.Count.{total}
use spot_exchange.Matching.{no_matching_level}
use spot_exchange.Matching.Fifo.{left_qty, left_orders, level_fills}
use spot_exchange.OrderBook.{OrderBook, book_of, with_book}
use spot_exchange.OrderBook.View.{Orders}

-- The level, unless it has no orders left.
abbrev pub keep_level : ℕ → List Order → Orders → Orders
keep_level k [] ys = ys
keep_level k (o ∷ os) ys = (k, o ∷ os) ∷ ys

-- What is left of an order with the price `price` and the quantity `q` ...
unfoldable pub rest_of : Side → (price q : ℕ) → Orders → ℕ
rest_of side price q [] = q
rest_of side price q ((k, os) ∷ ys) =
    if no_matching_level side price k
    then q
    else if left_qty q os == 0
    then 0
    else rest_of side price (left_qty q os) ys

-- ... and of the orders that it meets.
unfoldable pub side_left : Side → (price q : ℕ) → Orders → Orders
side_left side price q [] = []
side_left side price q ((k, os) ∷ ys) =
    if no_matching_level side price k
    then (k, os) ∷ ys
    else if left_qty q os == 0
    then keep_level k (left_orders q os) ys
    else side_left side price (left_qty q os) ys

-- The fills, in the order in which they are made.
unfoldable pub side_fills : Side → (now : ℕ) → Order → ℕ → Orders → List Fill
side_fills side now o q [] = []
side_fills side now o q ((k, os) ∷ ys) =
    if no_matching_level side o.price k
    then []
    else level_fills now o q os
      ++ (if left_qty q os == 0 then [] else side_fills side now o (left_qty q os) ys)

-- The level loses its first order and keeps others.
abbrev pub loses_first : ℕ → List Order → Bool
loses_first q [] = false
loses_first q (o ∷ os) = elim (left_orders q (o ∷ os)) [
  | [] ↦ false
  | z ∷ zs ↦ not (z.order_id == o.order_id)
]

-- Whether the order is filled at a level that is worked on through a copy (`copy` for the first),
-- and that level loses its first order and keeps others: its head in the book is then not its first
-- order any more.
unfoldable pub head_lost : Bool → Side → (price q : ℕ) → Orders → Bool
head_lost copy side price q [] = false
head_lost copy side price q ((k, os) ∷ ys) =
    if no_matching_level side price k
    then false
    else if left_qty q os == 0
    then copy && loses_first q os
    else head_lost true side price (left_qty q os) ys

-- The head of the best level names its first order.
abbrev pub fix_head : Orders → Book → Book
fix_head ((k, os) ∷ ys) ((p, level) ∷ ls) = (p, record level { head = first_or none os }) ∷ ls
fix_head [] ls = ls
fix_head (y ∷ ys) [] = []

abbrev pub healed : Side → Orders → OrderBook → OrderBook
healed side ys b = with_book side (fix_head ys (book_of side b)) b

-- The number of orders at each price is less than a level can count.
abbrev pub Countable : Orders → Type 0
Countable [] = Unit
Countable ((k, os) ∷ ys) = (length os < 2 ^ 16) × Countable ys

-- All the quantity of a side.
unfoldable pub side_total : Orders → ℕ
side_total [] = 0
side_total ((k, os) ∷ ys) = total os + side_total ys
