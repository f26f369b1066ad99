-- ===== src/Info.antt =====
-- include/info/{order,ordertypes,fill}.hpp and include/server/matching/matchresult.hpp.
--
-- A `uint8_t is_buy_side` is a number, 1 for the buy side and 0 for the sell side, as the code
-- tests it. A pointer to an `OrderEntryStreamConnection` is the number of that connection. The
-- names that the messages share are in `OrderCommon`.
use spot_exchange.Prelude.{
  ℕ, ◌+◌, ◌-◌, ◌%◌, ◌^◌, Bool, true, false, List, [], ◌∷◌, ◌++◌, ltb, if◌then◌else◌, length,
}
use spot_exchange.Prelude.Run.{Run, ok, exception}

abbrev pub Conn : Type 0
Conn = ℕ

pub record OrderCommon : Type 0 where
  pub order_id : ℕ
  pub user_id : ℕ
  pub ticker : ℕ

pub record Order : Type 0 where
  pub connection : Conn
  pub price : ℕ
  pub order_id : ℕ
  pub user_id : ℕ
  pub ticker : ℕ
  pub initial_quantity : ℕ
  pub current_quantity : ℕ
  pub is_buy_side : ℕ

pub record ModifyOrder : Type 0 where
  pub common : OrderCommon
  pub open common use *
  pub price : ℕ
  pub connection : Conn
  pub quantity : ℕ
  pub is_buy_side : ℕ

pub record CancelOrder : Type 0 where
  pub common : OrderCommon
  pub open common use *
  pub connection : Conn

-- `Order(is_buy_side, connection, price, quantity, common)`.
abbrev pub new_order : ℕ → Conn → ℕ → ℕ → OrderCommon → Order
new_order side conn price quantity common = record {
  connection = conn;
  price = price;
  order_id = common.order_id;
  user_id = common.user_id;
  ticker = common.ticker;
  initial_quantity = quantity;
  current_quantity = quantity;
  is_buy_side = side;
}

-- `Order(const info::ModifyOrder& mod)`.
abbrev pub order_of_modify : ModifyOrder → Order
order_of_modify m = record {
  connection = m.connection;
  price = m.price;
  order_id = m.order_id;
  user_id = m.user_id;
  ticker = m.ticker;
  initial_quantity = m.quantity;
  current_quantity = m.quantity;
  is_buy_side = m.is_buy_side;
}

-- `CancelOrder(const ModifyOrder& mod)`.
abbrev pub cancel_of_modify : ModifyOrder → CancelOrder
cancel_of_modify m = record { common = m.common; connection = m.connection }

-- `Order::increaseQty`, on a `uint32_t`.
unfoldable pub increase_qty : ℕ → Order → Order
increase_qty qty_delta order = record order {
  current_quantity = (order.current_quantity + qty_delta) % 2 ^ 32;
}

-- `Order::decreaseQty`.
unfoldable pub decrease_qty : ℕ → Order → Run Order
decrease_qty qty_delta order =
    if ltb order.current_quantity qty_delta
    then exception
    else ok (record order { current_quantity = order.current_quantity - qty_delta })

pub record Fill : Type 0 where
  pub timestamp : ℕ
  pub ticker : ℕ
  pub order_id : ℕ
  pub price : ℕ
  pub user_id : ℕ
  pub connection : Conn
  pub fill_qty : ℕ
  pub full_fill : Bool

pub record MatchResult : Type 0 where
  pub fills : List Fill
  pub order_filled : Bool

abbrev pub no_match : MatchResult
no_match = record { fills = []; order_filled = false }

-- `MatchResult::addFill`: the quantity of a fill is a `uint16_t`.
unfoldable pub add_fill : ℕ → ℕ → ℕ → ℕ → ℕ → Bool → ℕ → Conn → MatchResult → MatchResult
add_fill timestamp ticker order_id price fill_qty full_fill user_id connection result =
    record result {
      fills =
          result.fills
          ++ record {
            timestamp = timestamp;
            ticker = ticker;
            order_id = order_id;
            price = price;
            user_id = user_id;
            connection = connection;
            fill_qty = fill_qty % 2 ^ 16;
            full_fill = full_fill;
          }
            ∷ [];
    }

-- `MatchResult::setOrderFilled`.
abbrev pub set_order_filled : MatchResult → MatchResult
set_order_filled result = record result { order_filled = true }

-- `MatchResult::numFills`.
pub num_fills : MatchResult → ℕ
num_fills result = length result.fills
