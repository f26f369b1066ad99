-- ===== src/OrderBookManager/Tests.antt =====
-- The theorems about `OrderBookManager` at two small maps of books.
use spot_exchange.Prelude.{
  emplace, none, ℕ, ◌+◌, ◌≡◌, refl, subst, some, List, [], ◌∷◌, arith, find, if◌then◌else◌, ◌==◌,
}
use spot_exchange.Prelude.Run.{ok}
use spot_exchange.Info.{Order, OrderCommon, ModifyOrder, CancelOrder, new_order}
use spot_exchange.Limits.{new_level}
use spot_exchange.Messages.{Effect}
use spot_exchange.OrderBook.{Junk, empty_book}
use spot_exchange.OrderBook.View.{IsRep}
use spot_exchange.OrderBookManager.{
  create_named_order_book, subscribe_named, clear_books, Books, cancel_order, create_order_book,
  num_order_books, subscribe, convert_str_to_ticker,
}
use spot_exchange.OrderBookManager.Routes.{
  AllRep, empty_view, empty_book-IsRep, create_order_book_lem, cancel_order-AllRep, is_new, or_new,
}

abbrev books : Books
books = (3, empty_book) ∷ (7, empty_book) ∷ []

abbrev common : OrderCommon
common = record { order_id = 11; user_id = 2; ticker = 3 }

abbrev order : Order
order = new_order 1 1 100 5 (record { order_id = 11; user_id = 2; ticker = 9 })

abbrev modify : ModifyOrder
modify = record {
  common = record common { ticker = 9 };
  price = 100;
  connection = 1;
  quantity = 6;
  is_buy_side = 1;
}

abbrev cancel : CancelOrder
cancel = record { common = common; connection = 1 }

-- "AAPL".
aapl : convert_str_to_ticker (65 ∷ 65 ∷ 80 ∷ 76 ∷ []) ≡ 1280328001
unfolding convert_str_to_ticker
aapl = refl

books-AllRep : AllRep books
unfolding find
books-AllRep t b e =
    (empty_view, subst (λ c. IsRep c empty_view) (ground (arith, e)) empty_book-IsRep)

create_order_book_lem_example :
    (books' : Books) × (create_order_book 5 books ≡ (is_new (subscribe 5 books), books'))
    × ((k : ℕ)
        → subscribe k books'
          ≡ (if k == 5 then some (or_new (subscribe 5 books)) else subscribe k books))
    × (num_order_books books'
        ≡ num_order_books books + (if is_new (subscribe 5 books) then 1 else 0))
create_order_book_lem_example = create_order_book_lem 5 books

abbrev junk : Junk
junk = record { price = 77; level = new_level 5 }

cancel_order-AllRep_example :
    (books' : Books) × (sent : List Effect) × (cancel_order 9 cancel books ≡ ok (books', sent))
    × AllRep books'
cancel_order-AllRep_example = cancel_order-AllRep 9 cancel books books-AllRep

-- A book that was created by name is found by name, until the books are cleared.
named_book :
    subscribe_named (73 ∷ 66 ∷ []) (create_named_order_book (73 ∷ 66 ∷ []) books).1
    ≡ some empty_book
unfolding subscribe_named create_named_order_book find emplace
named_book = refl

cleared : subscribe 3 (clear_books books) ≡ none
unfolding subscribe find
cleared = refl
