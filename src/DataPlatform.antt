-- ===== src/DataPlatform.antt =====
-- include/dataplatform/dataplatform.hpp and src/dataplatform/dataplatform.cpp: how `DataPlatform`
-- writes a message of the market data into a datagram; and how a client reads it, after the structs of
-- include/client/marketdatatypes.hpp and the casts of src/client/client.cpp.
--
-- A buffer is a list of bytes. Integers lie with their lowest byte first, as on x86; a signed one is
-- its representation. What a message does not overwrite of `temp_buffer_` stays in it.
pub mod RoundTrip
pub mod Tests
use spot_exchange.Prelude.{
  ℕ, zero, suc, ◌+◌, ◌*◌, ◌/◌, ◌%◌, List, [], ◌∷◌, ◌++◌, Bool, true, false, Option, none, some,
  length, ◌==◌, if◌then◌else◌,
}
use spot_exchange.Info.{OrderCommon}
use spot_exchange.Messages.{
  OrderAdded, OrderModified, OrderCancelled, Notification, OrderEntryFill, MarketData, add,
  modified, cancel, fill, notification,
}

abbrev pub take : ℕ → List ℕ → List ℕ
take zero bs = []
take (suc n) [] = []
take (suc n) (b ∷ bs) = b ∷ take n bs

abbrev pub drop : ℕ → List ℕ → List ℕ
drop zero bs = bs
drop (suc n) [] = []
drop (suc n) (b ∷ bs) = drop n bs

-- `serialiseBytes` of a value of `n` bytes.
abbrev pub serialise_bytes : ℕ → ℕ → List ℕ
serialise_bytes zero value = []
serialise_bytes (suc n) value = value % 256 ∷ serialise_bytes n (value / 256)

abbrev pub add_data_len : ℕ
add_data_len = 37

abbrev pub mod_data_len : ℕ
mod_data_len = 20

abbrev pub cancel_data_len : ℕ
cancel_data_len = 16

abbrev pub fill_data_len : ℕ
fill_data_len = 46

abbrev pub notification_len : ℕ
notification_len = 1

-- The bytes go to the front of the buffer.
abbrev pub overwrite : List ℕ → List ℕ → List ℕ
overwrite bs buffer = bs ++ drop (length bs) buffer

-- `serialiseAddOrder`; 65 is 'A'.
unfoldable pub serialise_add_order : OrderAdded → List ℕ
serialise_add_order o =
    add_data_len ∷ 65 ∷ serialise_bytes 8 o.timestamp
    ++ (serialise_bytes 8 o.order_id
        ++ (serialise_bytes 8 o.ticker
            ++ (serialise_bytes 8 o.price
                ++ (serialise_bytes 4 o.quantity ++ serialise_bytes 1 o.is_buy_side))))

-- `serialiseModOrder`; 77 is 'M'.
unfoldable pub serialise_mod_order : OrderModified → List ℕ
serialise_mod_order o =
    mod_data_len ∷ 77 ∷ serialise_bytes 8 o.timestamp
    ++ (serialise_bytes 8 o.order_id ++ serialise_bytes 4 o.quantity)

-- `serialiseFill`; 70 is 'F'.
unfoldable pub serialise_fill : OrderEntryFill → List ℕ
serialise_fill f =
    fill_data_len ∷ 70 ∷ serialise_bytes 8 f.timestamp
    ++ (serialise_bytes 8 f.status_common.order_id
        ++ (serialise_bytes 8 f.status_common.ticker
            ++ (serialise_bytes 8 f.fill_id ++ serialise_bytes 4 f.fill_quantity)))

-- `serialiseNotification`; 78 is 'N'.
unfoldable pub serialise_notification : Notification → List ℕ
serialise_notification n =
    notification_len ∷ 78 ∷ serialise_bytes 8 n.timestamp ++ serialise_bytes 4 n.flag

-- `serialiseCancel`; 67 is 'C'.
unfoldable pub serialise_cancel : OrderCancelled → List ℕ
serialise_cancel c =
    cancel_data_len ∷ 67 ∷ serialise_bytes 8 c.timestamp ++ serialise_bytes 8 c.order_id

-- `serialiseMarketData`: the buffer afterwards.
unfoldable pub serialise_market_data : MarketData → List ℕ → List ℕ
unfolding serialise_add_order serialise_mod_order serialise_fill serialise_notification
    serialise_cancel
serialise_market_data (add o) buffer = overwrite (serialise_add_order o) buffer
serialise_market_data (cancel c) buffer = overwrite (serialise_cancel c) buffer
serialise_market_data (fill f) buffer = overwrite (serialise_fill f) buffer
serialise_market_data (modified o) buffer = overwrite (serialise_mod_order o) buffer
serialise_market_data (notification n) buffer = overwrite (serialise_notification n) buffer

-- What is sent: `temp_buffer_[0] + 2` bytes.
abbrev pub datagram : List ℕ → List ℕ
datagram [] = []
datagram (len ∷ bs) = take (len + 2) (len ∷ bs)

-- The client's reading of `n` bytes.
abbrev pub value_of : ℕ → List ℕ → ℕ
value_of zero bs = 0
value_of (suc n) [] = 0
value_of (suc n) (b ∷ bs) = b + 256 * value_of n bs

abbrev pub header_len : ℕ
header_len = 2

-- A member of `n` bytes at an offset of the struct behind the header.
abbrev pub field_at : ℕ → ℕ → List ℕ → ℕ
field_at offset n bs = value_of n (drop (header_len + offset) bs)

pub record AddOrderData : Type 0 where
  pub timestamp : ℕ
  pub order_id : ℕ
  pub ticker : ℕ
  pub price : ℕ
  pub quantity : ℕ
  pub is_buy_side : ℕ

pub record ModOrderData : Type 0 where
  pub timestamp : ℕ
  pub order_id : ℕ
  pub quantity : ℕ

pub record CancelOrderData : Type 0 where
  pub timestamp : ℕ
  pub order_id : ℕ

pub record FillOrderData : Type 0 where
  pub timestamp : ℕ
  pub order_id : ℕ
  pub ticker : ℕ
  pub fill_id : ℕ
  pub quantity : ℕ

pub data Packet : Type 0 where
  add_data : AddOrderData → Packet
  mod_data : ModOrderData → Packet
  cancel_data : CancelOrderData → Packet
  fill_data : FillOrderData → Packet
  notification_data incorrect_type : Packet

-- `buffer_[1]`.
abbrev pub packet_type : List ℕ → ℕ
packet_type bs = value_of 1 (drop 1 bs)

-- `processMarketData` up to the call of the feed handler.
unfoldable pub read_packet : List ℕ → Packet
read_packet bs =
    if packet_type bs == 65
    then add_data (record {
      timestamp = field_at 0 8 bs;
      order_id = field_at 8 8 bs;
      ticker = field_at 16 8 bs;
      price = field_at 24 8 bs;
      quantity = field_at 32 4 bs;
      is_buy_side = field_at 36 1 bs;
    })
    else if packet_type bs == 77
    then mod_data (record {
      timestamp = field_at 0 8 bs;
      order_id = field_at 8 8 bs;
      quantity = field_at 16 4 bs;
    })
    else if packet_type bs == 67
    then cancel_data (record { timestamp = field_at 0 8 bs; order_id = field_at 8 8 bs })
    else if packet_type bs == 70
    then fill_data (record {
      timestamp = field_at 0 8 bs;
      order_id = field_at 8 8 bs;
      ticker = field_at 16 8 bs;
      fill_id = field_at 24 8 bs;
      quantity = field_at 32 4 bs;
    })
    else if packet_type bs == 78
    then notification_data
    else incorrect_type
