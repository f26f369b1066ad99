-- ===== src/OrderBook/Tests.antt =====
-- Runs of the order book after tests/unit/orderbooktest.cpp, and the theorems at a small book.
mod Trades
pub mod Walks
use spot_exchange.Prelude.{
  if◌then◌else◌, ℕ, ◌≡◌, ◌≢◌, refl, none, some, List, [], ◌∷◌, arith, find, assign, erase, emplace,
  emplace_by,
}
use spot_exchange.Prelude.Run.{Run, ok, ◌>>=◌}
use spot_exchange.Info.{
  Order, OrderCommon, ModifyOrder, CancelOrder, new_order, order_of_modify, cancel_of_modify,
}
use spot_exchange.Messages.{
  write_market_data, modified, send_rejection, order_not_found, wrong_user_id,
  order_id_already_present,
}
use spot_exchange.Limits.{ask, bid, Limit, Level, new_level}
use spot_exchange.Matching.{fifo_match}
use spot_exchange.Limits.Segment.{linked}
use spot_exchange.OrderBook.{
  OrderBook, Junk, empty_book, add_order, cancel_order, modify_order, get_order, get_side_level,
  place_limit_in_book_level, place_order_in_book, rest_order, match_or_rest, possible_matches,
  communicate_match_results, error_flags, process_modify_error, change_qty, replace_order,
  order_added, order_cancelled, order_modified, order_common,
}
use spot_exchange.OrderBook.View.{
  View, IsRep, IsLevel, level_ptr, with_orders, put_order, orders_of,
}
use spot_exchange.OrderBook.Add.{crosses, add_order-rests, possible_matches-crosses}
use spot_exchange.OrderBook.Cancel.{cancel_order-IsRep}
use spot_exchange.OrderBook.Denied.{listed, cancel_order-denied}
use spot_exchange.OrderBook.Places.{cancel_at, place_of}
use spot_exchange.OrderBook.Rest.{CanRest}
use spot_exchange.OrderBook.Replace.{replace_at}
use spot_exchange.Limits.Replace.{with_qty}
use spot_exchange.OrderBook.Modify.{modify_order-quantity, modify_order-reprices}
use spot_exchange.OrderBook.Refuse.{refusals, modify_order-rejects}

abbrev pub junk : Junk
junk = record { price = 77; level = new_level 5 }

abbrev pub order : ℕ → ℕ → ℕ → ℕ → Order
order side id price quantity =
    new_order side 1 price quantity (record { order_id = id; user_id = id; ticker = 3 })

-- Two sellers at 100, one at 105, and a buyer at 90.
abbrev pub o₁ : Order
o₁ = order 0 1 100 10

abbrev pub o₂ : Order
o₂ = order 0 2 100 5

abbrev pub o₃ : Order
o₃ = order 0 3 105 7

abbrev pub o₄ : Order
o₄ = order 1 4 90 8

abbrev pub level : ℕ → ℕ → ℕ → ℕ → Level
level side price head tail = record {
  head = some head;
  tail = some tail;
  is_buy_side = side;
  price = price;
}

abbrev pub book : OrderBook
book = record {
  ticker = 0;
  asks = (100, level 0 100 1 2) ∷ (105, level 0 105 3 3) ∷ [];
  bids = (90, level 1 90 4 4) ∷ [];
  limitorders =
      (4, linked (level_ptr bid 90) o₄ none none)
      ∷ (3, linked (level_ptr ask 105) o₃ none none)
      ∷ (2, linked (level_ptr ask 100) o₂ (some 1) none)
      ∷ (1, linked (level_ptr ask 100) o₁ none (some 2))
      ∷ [];
}

abbrev pub view : View
view = record { asks = (100, o₁ ∷ o₂ ∷ []) ∷ (105, o₃ ∷ []) ∷ []; bids = (90, o₄ ∷ []) ∷ [] }

add_all : List Order → OrderBook → Run OrderBook
unfolding find erase assign emplace emplace_by fifo_match possible_matches communicate_match_results
    get_side_level place_limit_in_book_level place_order_in_book rest_order match_or_rest add_order
    cancel_order error_flags process_modify_error change_qty replace_order modify_order get_order
add_all [] b = ok b
add_all (o ∷ os) b = do (b', o', sent) ← add_order junk 0 o b; add_all os b'

book-run : add_all (o₁ ∷ o₂ ∷ o₃ ∷ o₄ ∷ []) empty_book ≡ ok book
unfolding add_all
book-run = refl

level_100 : IsLevel book.limitorders ask 100 (level 0 100 1 2) (o₁ ∷ o₂ ∷ [])
unfolding find
level_100 = record {
  head = refl;
  tail = refl;
  seg = (refl, (refl, tt));
  apart = (refl, (refl, tt));
  at = ((refl, refl, omega arith), ((refl, refl, omega arith), tt));
  ne_nil = λ e. cc;
}

level_105 : IsLevel book.limitorders ask 105 (level 0 105 3 3) (o₃ ∷ [])
unfolding find
level_105 = record {
  head = refl;
  tail = refl;
  seg = (refl, tt);
  apart = (refl, tt);
  at = ((refl, refl, omega arith), tt);
  ne_nil = λ e. cc;
}

level_90 : IsLevel book.limitorders bid 90 (level 1 90 4 4) (o₄ ∷ [])
unfolding find
level_90 = record {
  head = refl;
  tail = refl;
  seg = (refl, tt);
  apart = (refl, tt);
  at = ((refl, refl, omega arith), tt);
  ne_nil = λ e. cc;
}

pub book-IsRep : IsRep book view
unfolding find
book-IsRep = record {
  distinct = omega arith;
  levels = elim [ ask ↦ (refl, level_100, (refl, level_105, tt)) | bid ↦ (refl, level_90, tt) ];
  sorted = elim [ ask ↦ ((refl, tt), (tt, tt)) | bid ↦ (tt, tt) ];
  listed = λ id. ground arith;
}

abbrev common : ℕ → ℕ → OrderCommon
common id user = record { order_id = id; user_id = user; ticker = 3 }

abbrev cancel : ℕ → ℕ → CancelOrder
cancel id user = record { common = common id user; connection = 1 }

abbrev modify : ℕ → ℕ → ℕ → ModifyOrder
modify id price quantity = record {
  common = common id id;
  price = price;
  connection = 1;
  quantity = quantity;
  is_buy_side = 0;
}

abbrev pub limit₁ : Limit
limit₁ = linked (level_ptr ask 100) o₁ none (some 2)

found₁ : find 1 book.limitorders ≡ some limit₁
unfolding find
found₁ = refl

abbrev o₅ : Order
o₅ = order 1 5 95 20

can_rest : CanRest bid o₅ book
unfolding find
can_rest = record { fresh = refl; code = refl; positive = omega arith }

add_order-rests_example :
    (b' : OrderBook) × (add_order junk 9 o₅ book ≡ ok (b', o₅, order_added 9 o₅ ∷ []))
    × IsRep b' (with_orders bid (put_order bid o₅ view.bids) view)
unfolding crosses
add_order-rests_example = add_order-rests junk 9 bid o₅ book view book-IsRep can_rest refl

possible_matches-crosses_example : possible_matches ask 77 book.asks o₅ ≡ crosses ask o₅ view.asks
possible_matches-crosses_example =
    possible_matches-crosses book.limitorders ask 77 o₅ book.asks view.asks (book-IsRep.levels ask)

cancel_order-IsRep_example :
    (b' : OrderBook) × (cancel_order 9 (cancel 1 1) book
      ≡ ok (b', order_cancelled 9 (cancel 1 1) ∷ []))
    × IsRep b' (cancel_at ask o₁ view)
    × (find 1 b'.limitorders ≡ none)
unfolding find
cancel_order-IsRep_example = cancel_order-IsRep 9 (cancel 1 1) book view limit₁ book-IsRep refl refl

cancel_order-denied_example :
    cancel_order 9 (cancel 1 2) book
    ≡ ok (
      book,
      send_rejection 1 (if listed 1 view then wrong_user_id else order_not_found) (common 1 2) ∷ [],
    )
cancel_order-denied_example = cancel_order-denied 9 (cancel 1 2) book view book-IsRep refl

modify_order-rejects_example :
    modify_order junk 9 (modify 1 100 10) book ≡ ok (book, refusals (modify 1 100 10) o₁)
unfolding find
modify_order-rejects_example = modify_order-rejects junk 9 (modify 1 100 10) book limit₁ refl refl

modify_order-quantity_example :
    (b' : OrderBook) × (modify_order junk 9 (modify 1 100 4) book
      ≡ ok (
        b',
        write_market_data (modified (record { timestamp = 0; order_id = 1; quantity = 4 })) ∷ [],
      ))
    × IsRep b' (replace_at book view 1 (place_of book view 1 limit₁ book-IsRep found₁) 4)
    × (get_order 1 b' ≡ some (with_qty 4 o₁))
unfolding find
modify_order-quantity_example =
    modify_order-quantity junk 9 (modify 1 100 4) book view limit₁ book-IsRep found₁ refl refl
      (omega arith)

modify_order-reprices_example :
    (b' : OrderBook) × (modify_order junk 9 (modify 1 95 15) book
      ≡ ok (
        b',
        order_cancelled 9 (cancel_of_modify (modify 1 95 15))
            ∷ order_added 9 (order_of_modify (modify 1 95 15))
            ∷ [],
      ))
    × IsRep b' (
        with_orders ask
          (put_order ask (order_of_modify (modify 1 95 15)) (orders_of ask (cancel_at ask o₁ view)))
          (cancel_at ask o₁ view))
unfolding find crosses
modify_order-reprices_example =
    modify_order-reprices junk 9 (modify 1 95 15) book view limit₁ book-IsRep refl refl
      (omega arith) (omega arith) refl
