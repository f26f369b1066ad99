-- ===== src/Limits.antt =====
-- include/server/order/limit.hpp and level.hpp: the nodes of the order lists, the price levels that
-- hold the ends of each list, and the walks over a level.
--
-- The book's `Limit` objects live in the `std::unordered_map` `limitorders_`, whose elements stay
-- where they are until they are erased. So a `Limit*` is the key of its element, a null pointer is
-- `none`, and a read or a write through a pointer to an element that is gone is a `fault`. A
-- `Level*` is the side and the price of a level in `asks_` or `bids_`.
pub mod Segment
pub mod Edit
pub mod Count
pub mod Splice
pub mod Replace
use spot_exchange.Prelude.{
  ℕ, zero, suc, ◌+◌, ◌%◌, ◌^◌, Option, none, some, ◌==◌, if◌then◌else◌, Map, find, assign, length,
}
use spot_exchange.Prelude.Run.{Run, ok, fault, out_of_fuel, ◌>>=◌}
use spot_exchange.Info.{Order}

-- The two books of price levels.
pub data Side : Type 0 where
  ask bid : Side

pub record LevelPtr : Type 0 where
  pub side : Side
  pub price : ℕ

pub record Limit : Type 0 where
  pub order : Order
  pub next_limit : Option ℕ
  pub prev_limit : Option ℕ
  pub current_level : Option LevelPtr

pub record Level : Type 0 where
  pub head : Option ℕ
  pub tail : Option ℕ
  pub is_buy_side : ℕ
  pub price : ℕ

abbrev pub Limits : Type 0
Limits = Map Limit

abbrev pub Book : Type 0
Book = Map Level

-- `Level(price)`.
abbrev pub new_level : ℕ → Level
new_level price = record { head = none; tail = none; is_buy_side = 0; price = price }

-- `Limit(order)`.
abbrev pub new_limit : Order → Limit
new_limit order = record {
  order = order;
  next_limit = none;
  prev_limit = none;
  current_level = none;
}

-- `*p`.
unfoldable pub deref : ℕ → Limits → Run Limit
deref p limits = elim (find p limits) [ none ↦ fault | some limit ↦ ok limit ]

-- `p->next_limit = next` and `p->prev_limit = prev`.
unfoldable pub set_next : ℕ → Option ℕ → Limits → Run Limits
unfolding deref
set_next p next limits = do
  limit ← deref p limits
  ok (assign p (record limit { next_limit = next }) limits)

unfoldable pub set_prev : ℕ → Option ℕ → Limits → Run Limits
unfolding deref
set_prev p prev limits = do
  limit ← deref p limits
  ok (assign p (record limit { prev_limit = prev }) limits)

-- The rounds that a walk along `next_limit` is given: one for each limit of the book and one more.
abbrev pub rounds : Limits → ℕ
rounds limits = suc (length limits)

order_count_loop : ℕ → Option ℕ → ℕ → Limits → Run ℕ
order_count_loop zero p cnt limits = out_of_fuel
order_count_loop (suc n) none cnt limits = ok cnt
order_count_loop (suc n) (some p) cnt limits = do
  limit ← deref p limits
  order_count_loop n limit.next_limit
      (if limit.order.current_quantity == 0 then cnt else (cnt + 1) % 2 ^ 16) limits

-- `Level::getLevelOrderCount`: a `uint16_t`.
unfoldable pub level_order_count : Level → Limits → Run ℕ
unfolding order_count_loop
level_order_count level limits = order_count_loop (rounds limits) level.head 0 limits

order_quantity_loop : ℕ → Option ℕ → ℕ → Limits → Run ℕ
order_quantity_loop zero p order_qty limits = out_of_fuel
order_quantity_loop (suc n) none order_qty limits = ok order_qty
order_quantity_loop (suc n) (some p) order_qty limits = do
  limit ← deref p limits
  order_quantity_loop n limit.next_limit ((order_qty + limit.order.current_quantity) % 2 ^ 32)
      limits

-- `Level::getLevelOrderQuantity`: a `uint32_t`.
unfoldable pub level_order_quantity : Level → Limits → Run ℕ
unfolding order_quantity_loop
level_order_quantity level limits = order_quantity_loop (rounds limits) level.head 0 limits
