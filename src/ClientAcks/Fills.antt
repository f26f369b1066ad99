-- ===== src/ClientAcks/Fills.antt =====
-- The answer to an order that is filled at once.
use spot_exchange.Prelude.{
  ℕ, ◌≡◌, refl, ap, ◌∙◌, true, false, none, List, [], ◌∷◌, ◌++◌, arith, ◌==◌, if◌then◌else◌, find,
}
use spot_exchange.Prelude.Run.{ok, fault}
use spot_exchange.Info.{Order, Fill}
use spot_exchange.Messages.{OrderEntryFill, Effect, write_fill, write_market_data, fill}
use spot_exchange.Limits.{Side, Limits, Book}
use spot_exchange.Limits.Replace.{with_qty}
use spot_exchange.Matching.{no_matching_level}
use spot_exchange.Matching.Fifo.{left_qty, level_fills}
use spot_exchange.Connection.{fill_response}
use spot_exchange.OrderBook.{
  OrderBook, Junk, book_of, add_order, fill_message, communicate_match_results,
}
use spot_exchange.OrderBook.View.{Orders, View, orders_of, Levels, IsRep}
use spot_exchange.OrderBook.View.Update.{opposite}
use spot_exchange.OrderBook.Add.{crosses}
use spot_exchange.OrderBook.Rest.{CanRest}
use spot_exchange.OrderBook.Match.{Levels-first, crosses-meets}
use spot_exchange.OrderBook.Walk.{rest_of, side_fills, Countable}
use spot_exchange.OrderBook.Walk.Add.{add_order-walks}
use spot_exchange.Util.{convert_eight_bytes_to_string}
use spot_exchange.ClientFeed.{get_order}
use spot_exchange.ClientInput.Console.{Client}
use spot_exchange.ClientAcks.{interpret_response_type, interpret_fill_ack}

meets-fills :
    (side : Side) (now : ℕ) (o : Order) (q k : ℕ) (os : List Order) (ys : Orders)
    → no_matching_level side o.price k ≡ false
    → side_fills side now o q ((k, os) ∷ ys)
      ≡ level_fills now o q os
        ++ (if left_qty q os == 0 then [] else side_fills side now o (left_qty q os) ys)
unfolding side_fills
meets-fills side now o q k os ys e = rw e refl

-- The first fill goes to the connection of the incoming order.
first_fill :
    (side : Side) (now : ℕ) (o : Order) (ys : Orders) (m : Limits) (b : Book)
    → Levels m side b ys
    → crosses side o ys ≡ true
    → (f : Fill) × (fs : List Fill) × (side_fills side now o o.current_quantity ys ≡ f ∷ fs)
      × (f.connection ≡ o.connection)
unfolding level_fills crosses
first_fill side now o [] m b r c = cc
first_fill side now o ((k, []) ∷ ys) m b r c =
    let (level, rest, e, is) = Levels-first m side k [] ys b r in absurd (is.ne_nil refl)
first_fill side now o ((k, x ∷ os) ∷ ys) m b r c =
    let meets = crosses-meets side o k (x ∷ os) ys c in
    (_, _, meets-fills side now o o.current_quantity k (x ∷ os) ys meets, refl)

sent-first :
    (o : Order) (f : Fill) (fs : List Fill)
    → f.connection ≡ o.connection
    → communicate_match_results (f ∷ fs) o
      ≡ write_fill o.connection (fill_message o f)
        ∷ write_market_data (fill (fill_message o f))
        ∷ communicate_match_results fs o
unfolding communicate_match_results
sent-first o f fs e = rw e refl

-- A fill of an order of the client that the client does not know.
fill-null :
    (f : OrderEntryFill) (client : Client) (ticker : List ℕ)
    → client.user_id ≡ f.status_common.user_id
    → find f.status_common.order_id client.feedhandler.orders ≡ none
    → convert_eight_bytes_to_string f.status_common.ticker ≡ ok ticker
    → interpret_fill_ack f client ≡ fault
unfolding interpret_fill_ack get_order
fill-null f client ticker owner unknown text =
    let same : (f.status_common.user_id == client.user_id) ≡ true = ground arith in
    rw (interpret_fill_ack, same, text, unknown) refl

-- If the other side has fewer than 2^16 orders at each price, and the ticker reads back as a
-- string: a client does not survive that its own order is filled at once: the order has not been
-- announced, so the client does not know it, and of the fill that it is sent first it dereferences
-- a null pointer.
pub add_order-null :
    (junk : Junk) (now : ℕ) (side : Side) (o : Order) (b : OrderBook) (v : View) (client : Client)
    (ticker : List ℕ)
    → IsRep b v
    → CanRest side o b
    → crosses (opposite side) o (orders_of (opposite side) v) ≡ true
    → Countable (orders_of (opposite side) v)
    → rest_of (opposite side) o.price o.current_quantity (orders_of (opposite side) v) ≡ 0
    → client.user_id ≡ o.user_id
    → find o.order_id client.feedhandler.orders ≡ none
    → convert_eight_bytes_to_string o.ticker ≡ ok ticker
    → (b' : OrderBook) × (f : OrderEntryFill) × (sent : List Effect) × (add_order junk now o b
        ≡ ok (b', with_qty 0 o, write_fill o.connection f ∷ sent))
      × (interpret_response_type (fill_response f) client ≡ fault)
unfolding interpret_response_type
add_order-null junk now side o b v client ticker rep can meets short full owner unknown text =
    let (b', run, rep', kept) = add_order-walks junk now side o b v rep can meets short full in
    let (f, fs, first, connection) =
      first_fill (opposite side) now o (orders_of (opposite side) v) b.limitorders
        (book_of (opposite side) b) (rep.levels (opposite side)) meets in
    let o' = with_qty 0 o in
    let sends = ap (λ l. communicate_match_results l o') first ∙ sent-first o' f fs connection in
    (
      b',
      fill_message o' f,
      write_market_data (fill (fill_message o' f)) ∷ communicate_match_results fs o',
      run ∙ ap (λ l. ok (b', o', l)) sends,
      fill-null (fill_message o' f) client ticker owner unknown text,
    )
