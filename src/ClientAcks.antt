-- ===== src/ClientAcks.antt =====
-- src/client/client.cpp: `interpretResponseType`, `interpretAck` and `rejectionToString`, what the
-- client makes of an answer to its orders.
--
-- A line of `info_feed_` is kept as what it is put together from; dereferencing a null `curr_ord` is a
-- `fault`. The printing is left out.
pub mod Fills
pub mod Tests
use spot_exchange.Prelude.{
  ℕ, Bool, true, false, Option, none, some, List, [], ◌∷◌, ◌==◌, if◌then◌else◌, ℤ,
}
use spot_exchange.Prelude.Run.{Run, ok, fault, ◌>>=◌}
use spot_exchange.Info.{OrderCommon}
use spot_exchange.Messages.{
  Rejection, unknown, order_not_found, order_id_already_present, orderbook_not_found,
  ticker_not_found, modify_wrong_side, modification_trivial, wrong_user_id, OrderEntryFill,
}
use spot_exchange.Connection.{
  Entry, Response, new_order_ack, modify_order_ack, cancel_order_ack, fill_response, rejection,
}
use spot_exchange.Util.{convert_eight_bytes_to_string}
use spot_exchange.ClientFeed.{FeedOrder, get_order}
use spot_exchange.ClientInput.{Str, codes}
use spot_exchange.ClientInput.Console.{Client}

pub data BookSide : Type 0 where
  bid_side ask_side no_side : BookSide

-- The lines of the five kinds of answer.
pub data InfoLine : Type 0 where
  added : (timestamp : ℕ) → BookSide → (ticker : Str) → (quantity price order_id : ℕ) → InfoLine
  modified :
      (timestamp : ℕ) → BookSide → (ticker : Str) → (from : ℤ) → (to price order_id : ℕ) → InfoLine
  cancelled : (timestamp : ℕ) → BookSide → (ticker : Str) → (order_id : ℕ) → InfoLine
  filled :
      (timestamp : ℕ)
      → BookSide
      → (order_id : ℕ) → (ticker : Str) → (quantity : ℕ) → (all : ℤ) → InfoLine
  rejected : (reason : Str) → InfoLine

-- `is_buy_side == 1 ? "BID" : "ASK"`.
abbrev pub side_name : ℕ → BookSide
side_name is_buy_side = if is_buy_side == 1 then bid_side else ask_side

-- `curr_ord->`.
abbrev pub dereference : Option FeedOrder → Run FeedOrder
dereference none = fault
dereference (some o) = ok o

abbrev pub side_if_known : Option FeedOrder → BookSide
side_if_known none = no_side
side_if_known (some o) = side_name o.is_buy_side

-- `rejectionToString`.
abbrev pub rejection_to_string : Rejection → Str
rejection_to_string unknown = codes "UNKNOWN"
rejection_to_string order_not_found = codes "ORDER NOT FOUND"
rejection_to_string order_id_already_present = codes "ORDER ID ALREADY PRESENT"
rejection_to_string orderbook_not_found = codes "ORDERBOOK NOT FOUND"
rejection_to_string ticker_not_found = codes "TICKER NOT FOUND"
rejection_to_string modify_wrong_side = codes "MODIFY WRONG SIDE"
rejection_to_string modification_trivial = codes "MODIFICATION TRIVIAL"
rejection_to_string wrong_user_id = codes "WRONG USER ID"

-- `interpretAck` of each kind.
interpret_new_ack : ℕ → Entry → Run (List InfoLine)
interpret_new_ack timestamp ord = do
  ticker ← convert_eight_bytes_to_string ord.common.ticker
  ok (
      added timestamp (side_name ord.is_buy_side) ticker ord.quantity ord.price ord.common.order_id
      ∷ [])

interpret_modify_ack : ℕ → Entry → Client → Run (List InfoLine)
interpret_modify_ack timestamp ord client = do
  ticker ← convert_eight_bytes_to_string ord.common.ticker
  curr_ord ← dereference (get_order ord.common.order_id client.feedhandler)
  ok (
      modified timestamp (side_name ord.is_buy_side) ticker curr_ord.quantity ord.quantity ord.price
        ord.common.order_id
      ∷ [])

interpret_cancel_ack : ℕ → OrderCommon → Client → Run (List InfoLine)
interpret_cancel_ack timestamp ord client = do
  ticker ← convert_eight_bytes_to_string ord.ticker
  curr_ord ← dereference (get_order ord.order_id client.feedhandler)
  ok (cancelled timestamp (side_name curr_ord.is_buy_side) ticker ord.order_id ∷ [])

interpret_fill_ack : OrderEntryFill → Client → Run (List InfoLine)
interpret_fill_ack f client =
    if f.status_common.user_id == client.user_id
    then (do
      let curr_ord = get_order f.status_common.order_id client.feedhandler
      ticker ← convert_eight_bytes_to_string f.status_common.ticker
      o ← dereference curr_ord
      ok (
          filled f.timestamp (side_if_known curr_ord) f.status_common.order_id ticker
            f.fill_quantity o.quantity
          ∷ []))
    else ok []

-- `interpretResponseType`: the lines that are added to `info_feed_`.
unfoldable pub interpret_response_type : Response → Client → Run (List InfoLine)
unfolding convert_eight_bytes_to_string get_order interpret_new_ack interpret_modify_ack
    interpret_cancel_ack interpret_fill_ack
interpret_response_type (new_order_ack timestamp ord) client = interpret_new_ack timestamp ord
interpret_response_type (modify_order_ack timestamp ord) client =
    interpret_modify_ack timestamp ord client
interpret_response_type (cancel_order_ack timestamp ord) client =
    interpret_cancel_ack timestamp ord client
interpret_response_type (fill_response f) client = interpret_fill_ack f client
interpret_response_type (rejection reason common) client =
    ok (rejected (rejection_to_string reason) ∷ [])
