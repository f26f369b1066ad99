-- ===== src/OrderBook.antt =====
-- include/server/order/orderbook.hpp and src/server/order/orderbook.cpp: `OrderBook`.
--
-- An operation returns the new book and what it sends, or `exception` for an `EngineException` and
-- `fault` for an access through a dangling pointer. `now` is what `getUnixTimestamp` returns. The
-- lock is taken with `std::try_to_lock` and nothing waits for it, so it does not show here: each
-- operation is modelled as one that no other thread interrupts. Log lines are left out.
pub mod View
pub mod Unlink
pub mod Sides
pub mod Place
pub mod Add
pub mod Modify
pub mod Refuse
pub mod Replace
pub mod Rest
pub mod Cancel
pub mod Denied
pub mod Places
pub mod Deplete
pub mod Match
pub mod Gone
pub mod Walk
pub mod Partial
pub mod Tests
use spot_exchange.Prelude.{
  ℕ, ◌+◌, ◌-◌, ◌*◌, ◌/◌, ◌%◌, Bool, true, false, Option, none, some, List, [], ◌∷◌, ◌++◌, ltb, leb,
  ◌==◌, if◌then◌else◌, not, ◌&&◌, find, erase, assign, emplace, emplace_by, length,
}
use spot_exchange.Prelude.Run.{Run, ok, exception, fault, ◌>>=◌}
use spot_exchange.Info.{
  Order, OrderCommon, ModifyOrder, CancelOrder, Fill, order_of_modify, cancel_of_modify,
  increase_qty, decrease_qty,
}
use spot_exchange.Messages.{
  Rejection, order_not_found, order_id_already_present, modify_wrong_side, modification_trivial,
  wrong_user_id, OrderEntryFill, add, modified, cancel, fill, Effect, send_rejection, write_fill,
  write_market_data,
}
use spot_exchange.Limits.{
  Side, ask, bid, LevelPtr, Limit, Level, Limits, Book, new_level, new_limit, deref, set_next,
  set_prev,
}
use spot_exchange.Matching.{fifo_match}
pub use spot_exchange.BookState.{
  OrderBook, Junk, empty_book, Result, book_of, with_book, before, order_common, fill_message,
  order_added, order_cancelled, order_modified,
}
unfoldable pub use spot_exchange.BookState.{
  num_orders, num_levels, possible_matches, communicate_match_results,
}

-- `getSideLevel`: the level of a price, which is put into the book if it is not there.
pub get_side_level : Side → ℕ → Book → Level × Book
get_side_level side price levels = elim (find price levels) [
  | some level ↦ (level, levels)
  | none ↦ (new_level price, emplace_by (before side) price (new_level price) levels)
]

-- The links of the new limit `id` behind the tail of its level.
link_tail : ℕ → Level → Limits → Run (Level × Limits)
unfolding set_next set_prev
link_tail id level limits = elim level.head [
  | none ↦ ok (record level { head = some id; tail = some id }, limits)
  | some head ↦ elim level.tail [
    | none ↦ fault
    | some limit_temp ↦ do
      limits ← set_prev id (some limit_temp) limits
      limits ← set_next limit_temp (some id) limits
      ok (record level { tail = some id }, limits)
  ]
]

set_level : ℕ → LevelPtr → Limits → Run Limits
unfolding deref
set_level id ptr limits = do
  limit ← deref id limits
  ok (assign id (record limit { current_level = some ptr }) limits)

-- `placeLimitInBookLevel`.
pub place_limit_in_book_level : Side → ℕ → Level → Order → Limits → Run (Level × Limits)
unfolding emplace link_tail set_level
place_limit_in_book_level side price level order limits = do
  let (limits', fresh) = emplace order.order_id (new_limit order) limits
  (level', limits'') ← if fresh then link_tail order.order_id level limits' else exception
  limits''' ← set_level order.order_id (record { side = side; price = price }) limits''
  ok (level', limits''')

-- `placeOrderInBook`.
pub place_order_in_book : Side → Order → OrderBook → Run OrderBook
place_order_in_book side order b = do
  let (level, levels) = get_side_level side order.price (book_of side b)
  (level', limits) ←
      place_limit_in_book_level side order.price
        (record level { is_buy_side = if order.is_buy_side == 0 then 0 else 1 }) order b.limitorders
  ok (with_book side (assign order.price level' levels) (record b { limitorders = limits }))

-- The order goes into the book `side`, behind what has been sent so far.
rest_order : ℕ → Side → Order → List Effect → OrderBook → Run (OrderBook × Order × List Effect)
rest_order now side order sent b = do
  b' ← place_order_in_book side order b
  ok (b', order, sent ++ order_added now order ∷ [])

-- The private `addOrder`: matches on one book and adds to the other.
pub match_or_rest :
    Junk
    → ℕ
    → (match_side add_side : Side) → Order
    → OrderBook
    → Run (OrderBook × Order × List Effect)
match_or_rest junk now match_side add_side order b =
    if possible_matches match_side junk.price (book_of match_side b) order
    then (do
      s ← fifo_match junk.level now match_side order (book_of match_side b) b.limitorders
      let b' = with_book match_side s.book (record b { limitorders = s.limits })
      let sent = communicate_match_results s.result.fills s.order
      if s.order.current_quantity == 0
          then ok (b', s.order, sent)
          else rest_order now add_side s.order sent b')
    else rest_order now add_side order [] b

-- `addOrder`: the book, the caller's order (taken by reference) and what was sent.
pub add_order : Junk → ℕ → Order → OrderBook → Run (OrderBook × Order × List Effect)
add_order junk now order b = elim (find order.order_id b.limitorders) [
  | some limit ↦
      ok (
        b,
        order,
        send_rejection order.connection order_id_already_present (order_common order) ∷ [],
      )
  | none ↦
      if order.is_buy_side == 1
      then match_or_rest junk now ask bid order b
      else if order.is_buy_side == 0
      then match_or_rest junk now bid ask order b
      else ok (b, order, [])
]

-- `limit.current_level->head = head` and `->tail = tail`.
set_head : Option LevelPtr → Option ℕ → OrderBook → Run OrderBook
set_head none head b = fault
set_head (some ptr) head b = elim (find ptr.price (book_of ptr.side b)) [
  | none ↦ fault
  | some level ↦
      ok (
        with_book ptr.side (assign ptr.price (record level { head = head }) (book_of ptr.side b)) b)
]

set_tail : Option LevelPtr → Option ℕ → OrderBook → Run OrderBook
set_tail none tail b = fault
set_tail (some ptr) tail b = elim (find ptr.price (book_of ptr.side b)) [
  | none ↦ fault
  | some level ↦
      ok (
        with_book ptr.side (assign ptr.price (record level { tail = tail }) (book_of ptr.side b)) b)
]

-- The four cases of `cancelOrder`: in the middle of its level, its head, its tail, or alone.
pub unlink : Limit → OrderBook → Run OrderBook
unfolding set_next set_prev set_head set_tail
unlink limit b = elim limit.next_limit [
  | some next ↦ elim limit.prev_limit [
    | some prev ↦ do
      limits ← set_prev next (some prev) b.limitorders
      limits ← set_next prev (some next) limits
      ok (record b { limitorders = limits })
    | none ↦ do
      b' ← set_head limit.current_level (some next) b
      limits ← set_prev next none b'.limitorders
      ok (record b' { limitorders = limits })
  ]
  | none ↦ elim limit.prev_limit [
    | some prev ↦ do
      b' ← set_tail limit.current_level (some prev) b
      limits ← set_next prev none b'.limitorders
      ok (record b' { limitorders = limits })
    | none ↦
        if limit.order.is_buy_side == 0
        then ok (record b { asks = erase limit.order.price b.asks })
        else ok (record b { bids = erase limit.order.price b.bids })
  ]
]

-- `cancelOrder`.
pub cancel_order : ℕ → CancelOrder → OrderBook → Result
unfolding unlink
cancel_order now c b = elim (find c.order_id b.limitorders) [
  | none ↦ ok (b, send_rejection c.connection order_not_found c.common ∷ [])
  | some limit ↦
      if limit.order.user_id == c.user_id
      then (do
        b' ← unlink limit b
        ok (
          record b' { limitorders = erase c.order_id b'.limitorders },
          order_cancelled now c ∷ [],
        ))
      else ok (b, send_rejection c.connection wrong_user_id c.common ∷ [])
]

-- `modifyOrderTrivial`.
pub modify_order_trivial : ModifyOrder → Order → Bool
modify_order_trivial m order = m.price == order.price && m.quantity == order.current_quantity

abbrev pub bit : Bool → ℕ
bit true = 1
bit false = 0

-- `error_flags`: each test stands at a bit of its own, so `|=` adds.
pub error_flags : ModifyOrder → Order → ℕ
unfolding modify_order_trivial
error_flags m order =
    bit (not (order.is_buy_side == m.is_buy_side)) * 2
    + bit (not (order.user_id == m.user_id)) * 4
    + bit (modify_order_trivial m order) * 8

abbrev pub reject_if : Bool → Rejection → ModifyOrder → List Effect
reject_if true reason m = send_rejection m.connection reason m.common ∷ []
reject_if false reason m = []

-- `processModifyError`.
pub process_modify_error : ℕ → ModifyOrder → List Effect
process_modify_error flags m =
    reject_if (flags / 2 % 2 == 1) modify_wrong_side m
    ++ (reject_if (flags / 4 % 2 == 1) wrong_user_id m
        ++ reject_if (flags / 8 % 2 == 1) modification_trivial m)

-- The change of an order's quantity in place.
pub change_qty : ℕ → Order → Run Order
unfolding increase_qty decrease_qty
change_qty quantity order =
    if ltb order.current_quantity quantity
    then ok (increase_qty (quantity + order.current_quantity) order)
    else decrease_qty (order.current_quantity - quantity) order

-- A new price: the order is cancelled, and a new one is added.
pub replace_order : Junk → ℕ → ModifyOrder → OrderBook → Result
replace_order junk now m b = do
  (b', sent) ← cancel_order now (cancel_of_modify m) b
  (b'', order, sent') ← add_order junk now (order_of_modify m) b'
  ok (b'', sent ++ sent')

-- `modifyOrder`.
pub modify_order : Junk → ℕ → ModifyOrder → OrderBook → Result
modify_order junk now m b = elim (find m.order_id b.limitorders) [
  | none ↦ ok (b, send_rejection m.connection order_not_found m.common ∷ [])
  | some limit ↦
      if error_flags m limit.order == 0
      then (if m.price == limit.order.price
          then (do
            order ← change_qty m.quantity limit.order
            let limits = assign m.order_id (record limit { order = order }) b.limitorders
            ok (record b { limitorders = limits }, order_modified m ∷ []))
          else replace_order junk now m b)
      else ok (b, process_modify_error (error_flags m limit.order) m)
]

-- `getOrder`: `none` for `{false, dangler}`.
pub get_order : ℕ → OrderBook → Option Order
get_order order_id b = elim (find order_id b.limitorders) [
  | none ↦ none
  | some limit ↦ some limit.order
]
