-- ===== src/Feed/Negative.antt =====
-- A client and an order of 2^31 or more.
use spot_exchange.Prelude.{
  ℕ, ◌-◌, ◌^◌, ◌<◌, ◌≤◌, ◌≡◌, refl, false, none, some, List, [], ◌∷◌, arith, find, length, negsuc,
  signed,
}
use spot_exchange.Prelude.Run.{ok}
use spot_exchange.Info.{Order}
use spot_exchange.Messages.{MarketData, add}
use spot_exchange.Limits.{Side}
use spot_exchange.OrderBook.{OrderBook, Junk, add_order, order_added}
use spot_exchange.OrderBook.View.{View, orders_of, with_orders, IsRep, put_order}
use spot_exchange.OrderBook.View.Update.{opposite}
use spot_exchange.OrderBook.Add.{crosses, add_order-rests}
use spot_exchange.OrderBook.Rest.{CanRest}
use spot_exchange.DataPlatform.{
  AddOrderData, add_data, serialise_market_data, datagram, read_packet,
}
use spot_exchange.DataPlatform.RoundTrip.{read_packet-datagram}
use spot_exchange.ClientFeed.{FeedOrder, Handler, feed_order, get_order, process_packet}
use spot_exchange.ClientFeed.Held.{Held}
use spot_exchange.ClientFeed.Process.{add_order-stored}
use spot_exchange.Feed.{deliver}
use spot_exchange.Feed.Seen.{side_code-small}

signed_32-large : (n : ℕ) → 2 ^ 31 ≤ n → signed 32 n ≡ negsuc (2 ^ 32 - 1 - n)
unfolding signed
signed_32-large n h = ground arith

-- The order's numbers fit a datagram, and its quantity no `int32_t`.
pub record TooLarge (now : ℕ) (o : Order) (h : Handler) : Type 0 where
  pub time : now < 2 ^ 64
  pub id : o.order_id < 2 ^ 64
  pub ticker : o.ticker < 2 ^ 64
  pub price : o.price < 2 ^ 64
  pub large : 2 ^ 31 ≤ o.current_quantity
  pub quantity : o.current_quantity < 2 ^ 32
  pub fresh : find o.order_id h.orders ≡ none
  pub room : length h.orderbooks < 2 ^ 16

-- A new order of 2^31 or more that meets no opposite price comes to rest in the book like any other, and
-- its announcement goes through; but a client, whose books are in order, to which the ID is new and
-- which has room for another ticker, then keeps the order with the negative quantity that is smaller
-- by 2^32.
pub add_order-negative :
    (junk : Junk) (now : ℕ) (side : Side) (o : Order) (b : OrderBook) (v : View) (buffer : List ℕ)
    (h : Handler)
    → IsRep b v
    → CanRest side o b
    → crosses (opposite side) o (orders_of (opposite side) v) ≡ false
    → Held h
    → TooLarge now o h
    → (b' : OrderBook) × (buffer' : List ℕ) × (h' : Handler) × (f : FeedOrder) × (add_order junk now
          o b
        ≡ ok (b', o, order_added now o ∷ []))
      × IsRep b' (with_orders side (put_order side o (orders_of side v)) v)
      × (deliver (order_added now o ∷ []) buffer h ≡ ok (buffer', h'))
      × (get_order o.order_id h' ≡ some f)
      × (f.quantity ≡ negsuc (2 ^ 32 - 1 - o.current_quantity))
unfolding process_packet
add_order-negative junk now side o b v buffer h rep can apart hd big =
    let (b', run, rep') = add_order-rests junk now side o b v rep can apart in
    let d : AddOrderData = record {
      timestamp = now;
      order_id = o.order_id;
      ticker = o.ticker;
      price = o.price;
      quantity = o.current_quantity;
      is_buy_side = o.is_buy_side;
    } in
    let m : MarketData = add (record {
      timestamp = now;
      order_id = o.order_id;
      ticker = o.ticker;
      price = o.price;
      quantity = o.current_quantity;
      is_buy_side = o.is_buy_side;
    }) in
    let read : read_packet (datagram (serialise_market_data m buffer)) ≡ add_data d =
      read_packet-datagram m buffer (
        big.time,
        big.id,
        big.ticker,
        big.price,
        big.quantity,
        side_code-small side o.is_buy_side can.code,
      ) in
    let (i, h', got, kept) = add_order-stored d h hd big.fresh big.room in
    (
      b',
      serialise_market_data m buffer,
      h',
      feed_order i d,
      run,
      rep',
      rw (read, got) refl,
      kept,
      signed_32-large o.current_quantity big.large,
    )
