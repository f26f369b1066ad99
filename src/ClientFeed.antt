-- ===== src/ClientFeed.antt =====
-- include/client/clientfeedhandler.hpp: `ClientFeedHandler`, the books that a client keeps of the
-- market data; and the part of `processMarketData` in src/client/client.cpp that calls it.
--
-- `orderbooks_` is a list, a `BookIndex` a position in it, cut to 16 bits. A position that is not
-- there is a `fault`. A quantity is an `int32_t`, the packet has its 32 bits.
pub mod Held
pub mod Change
pub mod NewBook
pub mod Process
pub mod Stream
pub mod Tests
use spot_exchange.Prelude.{
  ℕ, zero, suc, ◌%◌, ◌^◌, Bool, true, false, Option, none, some, List, [], ◌∷◌, ◌++◌, ◌==◌,
  if◌then◌else◌, Map, find, erase, assign, emplace, length, ℤ, pos, ◌-ℤ◌, ltb_ℤ, signed, wrap,
}
use spot_exchange.Prelude.Run.{Run, ok, fault, ◌>>=◌}
use spot_exchange.DataPlatform.{
  AddOrderData, ModOrderData, CancelOrderData, FillOrderData, Packet, add_data, mod_data,
  cancel_data, fill_data, notification_data, incorrect_type,
}
use spot_exchange.ClientBook.{ClientOrderBook, new_book, add_to_book, remove_from_book}

-- `AddOrderData` as `orders_` keeps it.
pub record FeedOrder : Type 0 where
  pub timestamp : ℕ
  pub order_id : ℕ
  pub ticker : ℕ
  pub price : ℕ
  pub quantity : ℤ
  pub is_buy_side : ℕ
  pub book_index : ℕ

pub record Handler : Type 0 where
  pub orderbooks : List ClientOrderBook
  pub tickers : Map ℕ
  pub orders : Map FeedOrder

abbrev pub empty_handler : Handler
empty_handler = record { orderbooks = []; tickers = []; orders = [] }

abbrev pub get_elem? : List ClientOrderBook → ℕ → Option ClientOrderBook
get_elem? [] i = none
get_elem? (b ∷ bs) zero = some b
get_elem? (b ∷ bs) (suc i) = get_elem? bs i

abbrev pub set_elem : ℕ → ClientOrderBook → List ClientOrderBook → List ClientOrderBook
set_elem i b [] = []
set_elem zero b (c ∷ bs) = b ∷ bs
set_elem (suc i) b (c ∷ bs) = c ∷ set_elem i b bs

-- `orderbooks_[i]`.
abbrev pub book_at : ℕ → Handler → Run ClientOrderBook
book_at i h = elim (get_elem? h.orderbooks i) [ none ↦ fault | some book ↦ ok book ]

abbrev pub set_book : ℕ → ClientOrderBook → Handler → Handler
set_book i book h = record h { orderbooks = set_elem i book h.orderbooks }

abbrev pub feed_order : ℕ → AddOrderData → FeedOrder
feed_order book_index d = record {
  timestamp = d.timestamp;
  order_id = d.order_id;
  ticker = d.ticker;
  price = d.price;
  quantity = signed 32 d.quantity;
  is_buy_side = d.is_buy_side;
  book_index = book_index;
}

-- The book of a ticker: a new one at the end of the list if there is none.
pub ticker_book : ℕ → Handler → ℕ × Handler
unfolding find
ticker_book ticker h = elim (find ticker h.tickers) [
  | some i ↦ (i, h)
  | none ↦
      let i = length h.orderbooks % 2 ^ 16 in
      (
        i,
        record h {
          orderbooks = h.orderbooks ++ new_book ticker ∷ [];
          tickers = (ticker, i) ∷ h.tickers;
        },
      )
]

-- `addOrder`: an order whose ID is there already does not replace it.
pub add_order : AddOrderData → Handler → Run Handler
unfolding emplace
add_order d h = do
  let (book_id, h') = ticker_book d.ticker h
  book ← book_at book_id h'
  let book' = add_to_book d.is_buy_side (signed 32 d.quantity) d.price book
  let (orders, fresh) = emplace d.order_id (feed_order book_id d) h'.orders
  ok (record (set_book book_id book' h') { orders = orders })

-- `cancelOrder`.
pub cancel_order : CancelOrderData → Handler → Run Handler
unfolding erase
cancel_order c h = elim (find c.order_id h.orders) [
  | none ↦ ok h
  | some o ↦ do
    book ← book_at o.book_index h
    let book' = remove_from_book o.is_buy_side o.quantity o.price book
    ok (record (set_book o.book_index book' h) { orders = erase c.order_id h.orders })
]

-- `modifyOrder`.
pub modify_order : ModOrderData → Handler → Run Handler
unfolding assign
modify_order m h = elim (find m.order_id h.orders) [
  | none ↦ ok h
  | some o ↦ do
    book ← book_at o.book_index h
    let quantity = signed 32 m.quantity
    let book' =
        if ltb_ℤ o.quantity quantity
        then add_to_book o.is_buy_side (wrap 32 (quantity -ℤ o.quantity)) o.price book
        else remove_from_book o.is_buy_side (wrap 32 (o.quantity -ℤ quantity)) o.price book
    ok (record (set_book o.book_index book' h) {
      orders = assign m.order_id (record o { quantity = quantity }) h.orders;
    })
]

-- `fillOrder`.
pub fill_order : FillOrderData → Handler → Run Handler
fill_order f h = elim (find f.order_id h.orders) [
  | none ↦ ok h
  | some o ↦ do
    book ← book_at o.book_index h
    let shares = signed 32 f.quantity
    let book' = remove_from_book o.is_buy_side shares o.price book
    let quantity = wrap 32 (o.quantity -ℤ shares)
    ok (record (set_book o.book_index book' h) {
      orders =
          if ltb_ℤ (pos 0) quantity
          then assign f.order_id (record o { quantity = quantity }) h.orders
          else erase f.order_id h.orders;
    })
]

-- `getOrder`, `none` for `nullptr`.
unfoldable pub get_order : ℕ → Handler → Option FeedOrder
get_order id h = find id h.orders

-- `subscribe`: the position of the book of the ticker.
unfoldable pub subscribe : ℕ → Handler → Option ℕ
subscribe ticker h = find ticker h.tickers

-- `getOrderIDTicker`.
pub get_order_id_ticker : ℕ → Handler → ℕ
get_order_id_ticker id h = elim (find id h.orders) [ none ↦ 0 | some o ↦ o.ticker ]

-- What `processMarketData` asks of the handler.
unfoldable pub process_packet : Packet → Handler → Run Handler
unfolding ticker_book add_order cancel_order modify_order fill_order
process_packet (add_data d) h = add_order d h
process_packet (mod_data m) h = modify_order m h
process_packet (cancel_data c) h = cancel_order c h
process_packet (fill_data f) h = fill_order f h
process_packet notification_data h = ok h
process_packet incorrect_type h = ok h
