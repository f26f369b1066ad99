-- ===== src/Messages.antt =====
-- The messages of src/dataplatform/orderentry.proto that the server writes, and the rejection
-- reasons that include/server/order/orderbook.hpp numbers.
--
-- A field that the code never sets keeps proto3's default, 0.
use spot_exchange.Prelude.{ℕ, Bool}
use spot_exchange.Info.{Conn, OrderCommon}

pub data Rejection : Type 0 where
  unknown order_not_found order_id_already_present orderbook_not_found : Rejection
  ticker_not_found modify_wrong_side modification_trivial wrong_user_id : Rejection

pub record OrderAdded : Type 0 where
  pub timestamp : ℕ
  pub order_id : ℕ
  pub ticker : ℕ
  pub price : ℕ
  pub quantity : ℕ
  pub is_buy_side : ℕ

pub record OrderModified : Type 0 where
  pub timestamp : ℕ
  pub order_id : ℕ
  pub quantity : ℕ

pub record OrderCancelled : Type 0 where
  pub timestamp : ℕ
  pub order_id : ℕ

pub record Notification : Type 0 where
  pub timestamp : ℕ
  pub flag : ℕ

pub record OrderEntryFill : Type 0 where
  pub timestamp : ℕ
  pub status_common : OrderCommon
  pub complete_fill : Bool
  pub fill_quantity : ℕ
  pub fill_id : ℕ

-- `MarketDataResponse`.
pub data MarketData : Type 0 where
  add : OrderAdded → MarketData
  modified : OrderModified → MarketData
  cancel : OrderCancelled → MarketData
  fill : OrderEntryFill → MarketData
  notification : Notification → MarketData

-- What the order book asks of the connections and of the market data dispatcher, in order:
-- `sendRejection`, `writeToClient` of a fill, and `writeMarketData`.
pub data Effect : Type 0 where
  send_rejection : Conn → Rejection → OrderCommon → Effect
  write_fill : Conn → OrderEntryFill → Effect
  write_market_data : MarketData → Effect
