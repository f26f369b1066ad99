-- ===== src/OrderBookManager.antt =====
-- include/server/order/orderbookmanager.hpp and src/server/order/orderbookmanager.cpp:
-- `OrderBookManager`.
--
-- The static map of order books is an argument; an operation returns the new map and what is sent.
-- A ticker that comes as a string is the number that its first eight bytes make.
pub mod Routes
pub mod Tests
use spot_exchange.Prelude.{
  ℕ, zero, suc, ◌+◌, ◌*◌, Bool, true, false, Option, none, some, List, [], ◌∷◌, ◌==◌, if◌then◌else◌,
  Map, find, assign, emplace, length,
}
use spot_exchange.Prelude.Run.{Run, ok, ◌>>=◌}
use spot_exchange.Info.{Order, OrderCommon, ModifyOrder, CancelOrder}
use spot_exchange.Messages.{Effect, send_rejection, orderbook_not_found, modification_trivial}
use spot_exchange.OrderBook.{OrderBook, Junk, empty_book, order_common}
use spot_exchange.OrderBook

abbrev pub Books : Type 0
Books = Map OrderBook

-- `addOrder`.
unfoldable pub add_order : Junk → ℕ → Order → Books → Run (Books × Order × List Effect)
add_order junk now order books = elim (find order.ticker books) [
  | none ↦
      ok (
        books,
        order,
        send_rejection order.connection orderbook_not_found (order_common order) ∷ [],
      )
  | some book ↦ do
    (book', order', sent) ← OrderBook.add_order junk now order book
    ok (assign order.ticker book' books, order', sent)
]

-- `modifyOrder`.
unfoldable pub modify_order : Junk → ℕ → ModifyOrder → Books → Run (Books × List Effect)
modify_order junk now m books =
    if m.quantity == 0
    then ok (books, send_rejection m.connection modification_trivial m.common ∷ [])
    else elim (find m.ticker books) [
      | none ↦ ok (books, send_rejection m.connection orderbook_not_found m.common ∷ [])
      | some book ↦ do
        (book', sent) ← OrderBook.modify_order junk now m book
        ok (assign m.ticker book' books, sent)
    ]

-- `cancelOrder`.
unfoldable pub cancel_order : ℕ → CancelOrder → Books → Run (Books × List Effect)
cancel_order now c books = elim (find c.ticker books) [
  | none ↦ ok (books, send_rejection c.connection orderbook_not_found c.common ∷ [])
  | some book ↦ do
    (book', sent) ← OrderBook.cancel_order now c book
    ok (assign c.ticker book' books, sent)
]

-- `createOrderBook`: the result, and the books.
unfoldable pub create_order_book : ℕ → Books → Bool × Books
unfolding emplace
create_order_book ticker books = elim (find ticker books) [
  | some book ↦ (false, books)
  | none ↦ let (books', fresh) = emplace ticker empty_book books in (fresh, books')
]

-- `subscribe`: `none` for `{false, dangler}`.
unfoldable pub subscribe : ℕ → Books → Option OrderBook
subscribe ticker books = find ticker books

-- `numOrderBooks`.
unfoldable pub num_order_books : Books → ℕ
num_order_books books = length books

-- `strncpy` of at most `n` bytes of a string into zeroed bytes, of which the first is the lowest of
-- the number.
unfoldable pub copied_bytes : ℕ → List ℕ → ℕ
copied_bytes zero cs = 0
copied_bytes (suc n) [] = 0
copied_bytes (suc n) (c ∷ cs) = if c == 0 then 0 else c + 256 * copied_bytes n cs

-- `convertStrToTicker`.
unfoldable pub convert_str_to_ticker : List ℕ → ℕ
unfolding copied_bytes
convert_str_to_ticker input = copied_bytes 8 input

-- `createOrderBook` and `subscribe` of a ticker that comes as a string.
unfoldable pub create_named_order_book : List ℕ → Books → Bool × Books
unfolding create_order_book convert_str_to_ticker
create_named_order_book ticker books = create_order_book (convert_str_to_ticker ticker) books

unfoldable pub subscribe_named : List ℕ → Books → Option OrderBook
unfolding subscribe convert_str_to_ticker
subscribe_named ticker books = subscribe (convert_str_to_ticker ticker) books

-- `clearBooks`.
abbrev pub clear_books : Books → Books
clear_books books = []
