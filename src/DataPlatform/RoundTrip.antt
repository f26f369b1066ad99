-- ===== src/DataPlatform/RoundTrip.antt =====
-- What a client reads from a datagram.
use spot_exchange.Prelude.{
  ℕ, zero, suc, ◌*◌, ◌/◌, ◌%◌, ◌^◌, ◌<◌, ◌≡◌, refl, List, [], ◌∷◌, ◌++◌, arith,
}
use spot_exchange.Messages.{MarketData, add, modified, cancel, fill, notification}
use spot_exchange.DataPlatform.{
  take, drop, serialise_add_order, serialise_mod_order, serialise_fill, serialise_notification,
  serialise_cancel, serialise_bytes, value_of, serialise_market_data, datagram, read_packet, Packet,
  add_data, mod_data, cancel_data, fill_data, notification_data,
}

-- How many values `n` bytes have.
abbrev capacity : ℕ → ℕ
capacity zero = 1
capacity (suc n) = 256 * capacity n

bytes-value : (n v : ℕ) (bs : List ℕ) → v < capacity n → value_of n (serialise_bytes n v ++ bs) ≡ v
bytes-value zero v bs h = omega arith
bytes-value (suc n) v bs h = omega (arith, bytes-value n (v / 256) bs (omega arith))

-- The widths of the fields that are sent, and what a client gets to read.
abbrev pub InRange : MarketData → Type 0
InRange (add o) =
    (o.timestamp < 2 ^ 64)
    × (o.order_id < 2 ^ 64)
    × (o.ticker < 2 ^ 64)
    × (o.price < 2 ^ 64)
    × (o.quantity < 2 ^ 32)
    × (o.is_buy_side < 2)
InRange (modified o) = (o.timestamp < 2 ^ 64) × (o.order_id < 2 ^ 64) × (o.quantity < 2 ^ 32)
InRange (cancel c) = (c.timestamp < 2 ^ 64) × (c.order_id < 2 ^ 64)
InRange (fill f) =
    (f.timestamp < 2 ^ 64)
    × (f.status_common.order_id < 2 ^ 64)
    × (f.status_common.ticker < 2 ^ 64)
    × (f.fill_id < 2 ^ 64)
    × (f.fill_quantity < 2 ^ 32)
InRange (notification n) = Unit

abbrev pub packet_of : MarketData → Packet
packet_of (add o) = add_data (record {
  timestamp = o.timestamp;
  order_id = o.order_id;
  ticker = o.ticker;
  price = o.price;
  quantity = o.quantity;
  is_buy_side = o.is_buy_side;
})
packet_of (modified o) =
    mod_data (record { timestamp = o.timestamp; order_id = o.order_id; quantity = o.quantity })
packet_of (cancel c) = cancel_data (record { timestamp = c.timestamp; order_id = c.order_id })
packet_of (fill f) = fill_data (record {
  timestamp = f.timestamp;
  order_id = f.status_common.order_id;
  ticker = f.status_common.ticker;
  fill_id = f.fill_id;
  quantity = f.fill_quantity;
})
packet_of (notification n) = notification_data

-- A client reads from the datagram of an added, modified or cancelled order all the fields of the
-- message, and from that of a fill its time, order ID, ticker, fill ID and quantity, whatever the buffer
-- held before, if they fit their widths. A fill's user and whether it is complete are not sent, and of a
-- notification only that it is one is read.
pub read_packet-datagram :
    (m : MarketData) (buffer : List ℕ)
    → InRange m
    → read_packet (datagram (serialise_market_data m buffer)) ≡ packet_of m
unfolding read_packet serialise_market_data
read_packet-datagram (add o) buffer (t, i, k, p, q, s) =
    rw
      (
        bytes-value 8 o.timestamp [] t,
        bytes-value 8 o.order_id [] i,
        bytes-value 8 o.ticker [] k,
        bytes-value 8 o.price [] p,
        bytes-value 4 o.quantity [] q,
        bytes-value 1 o.is_buy_side [] (omega arith),
      )
      refl
read_packet-datagram (modified o) buffer (t, i, q) =
    rw
      (bytes-value 8 o.timestamp [] t, bytes-value 8 o.order_id [] i, bytes-value 4 o.quantity [] q)
      refl
read_packet-datagram (cancel c) buffer (t, i) =
    rw (bytes-value 8 c.timestamp [] t, bytes-value 8 c.order_id [] i) refl
read_packet-datagram (fill f) buffer (t, i, k, n, q) =
    rw
      (
        bytes-value 8 f.timestamp [] t,
        bytes-value 8 f.status_common.order_id [] i,
        bytes-value 8 f.status_common.ticker [] k,
        bytes-value 8 f.fill_id [] n,
        bytes-value 4 f.fill_quantity [] q,
      )
      refl
read_packet-datagram (notification n) buffer r = refl

-- The bytes of a datagram, given what the buffer held before.
abbrev pub sent_as : MarketData → List ℕ → List ℕ
sent_as (add o) buffer = serialise_add_order o
sent_as (modified o) buffer = serialise_mod_order o
sent_as (cancel c) buffer = serialise_cancel c
sent_as (fill f) buffer = serialise_fill f ++ take 10 (drop 38 buffer)
sent_as (notification n) buffer = 1 ∷ 78 ∷ n.timestamp % 256 ∷ []

-- An added, a modified and a cancelled order are sent exactly; the datagram of a fill ends with ten
-- bytes of what the buffer held before; and that of a notification stops after the lowest byte of its
-- timestamp, so that its flag is not sent.
pub datagram_lem :
    (m : MarketData) (buffer : List ℕ)
    → datagram (serialise_market_data m buffer) ≡ sent_as m buffer
unfolding serialise_market_data serialise_add_order serialise_mod_order serialise_fill
    serialise_notification serialise_cancel
datagram_lem (add o) buffer = refl
datagram_lem (modified o) buffer = refl
datagram_lem (cancel c) buffer = refl
datagram_lem (fill f) buffer = refl
datagram_lem (notification n) buffer = refl
