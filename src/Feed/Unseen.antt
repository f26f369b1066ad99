-- ===== src/Feed/Unseen.antt =====
-- What a client learns of a trade.
use spot_exchange.Prelude.{
  ℕ, ◌-◌, ◌^◌, ◌<◌, ◌≡◌, refl, Bool, true, false, none, List, [], ◌∷◌, ◌++◌, arith, ◌==◌, ltb,
  if◌then◌else◌, find,
}
use spot_exchange.Prelude.Run.{ok}
use spot_exchange.Info.{Order, Fill}
use spot_exchange.Messages.{Effect, fill}
use spot_exchange.Limits.{Side}
use spot_exchange.Limits.Replace.{with_qty}
use spot_exchange.Matching.{no_matching_level}
use spot_exchange.Matching.Fifo.{left_qty, level_fills}
use spot_exchange.OrderBook.{OrderBook, Junk, add_order, fill_message, communicate_match_results}
use spot_exchange.OrderBook.View.{Orders, View, orders_of, with_orders, IsRep}
use spot_exchange.OrderBook.View.Update.{opposite}
use spot_exchange.OrderBook.Add.{crosses}
use spot_exchange.OrderBook.Rest.{CanRest}
use spot_exchange.OrderBook.Walk.{rest_of, side_left, side_fills, healed, Countable}
use spot_exchange.OrderBook.Walk.Add.{add_order-walks}
use spot_exchange.DataPlatform.{serialise_market_data}
use spot_exchange.DataPlatform.RoundTrip.{packet_of, read_packet-datagram}
use spot_exchange.ClientFeed.{Handler, process_packet}
use spot_exchange.ClientFeed.Stream.{fill_order-unknown}
use spot_exchange.Feed.{deliver}

-- The fills fit the fields of a datagram.
abbrev AllFit : List Fill → Type 0
AllFit [] = Unit
AllFit (f ∷ fs) = ((f.timestamp < 2 ^ 64) × (f.fill_qty < 2 ^ 32)) × AllFit fs

AllFit-append : (xs ys : List Fill) → AllFit xs → AllFit ys → AllFit (xs ++ ys)
AllFit-append [] ys a b = b
AllFit-append (x ∷ xs) ys a b = (a.0, AllFit-append xs ys a.1 b)

AllFit-if : (b : Bool) (xs ys : List Fill) → AllFit xs → AllFit ys → AllFit (if b then xs else ys)
AllFit-if true xs ys p q = p
AllFit-if false xs ys p q = q

module _ (now : ℕ) (time : now < 2 ^ 64) (o : Order) where
  level_fills-AllFit : (q : ℕ) (os : List Order) → AllFit (level_fills now o q os)
  unfolding level_fills
  level_fills-AllFit q [] = tt
  level_fills-AllFit q (x ∷ os) = (
    (time, omega arith),
    (
      (time, omega arith),
      AllFit-if (ltb x.current_quantity q) _ [] (level_fills-AllFit (q - x.current_quantity) os) tt,
    ),
  )

  side_fills-AllFit : (side : Side) (q : ℕ) (ys : Orders) → AllFit (side_fills side now o q ys)
  unfolding side_fills
  side_fills-AllFit side q [] = tt
  side_fills-AllFit side q ((k, os) ∷ ys) = AllFit-if (no_matching_level side o.price k) [] _ tt (
      AllFit-append (level_fills now o q os) _ (level_fills-AllFit q os)
        (AllFit-if (left_qty q os == 0) [] _ tt (side_fills-AllFit side (left_qty q os) ys)))

-- The orders' numbers fit the fields.
abbrev pub NumbersFit : Order → Type 0
NumbersFit o = (o.order_id < 2 ^ 64) × (o.ticker < 2 ^ 64)

-- A fill names the incoming order, so that a client which does not know that order does nothing.
fills-unseen :
    (fs : List Fill) (o : Order) (buffer : List ℕ) (h : Handler)
    → AllFit fs
    → NumbersFit o
    → find o.order_id h.orders ≡ none
    → (buffer' : List ℕ) × (deliver (communicate_match_results fs o) buffer h ≡ ok (buffer', h))
unfolding communicate_match_results process_packet
fills-unseen [] o buffer h fit numbers unknown = (buffer, refl)
fills-unseen (f ∷ fs) o buffer h fit numbers unknown =
    let m = fill (fill_message o f) in
    let read =
      read_packet-datagram m buffer (fit.0.0, numbers.0, numbers.1, omega arith, fit.0.1) in
    let (buffer', run) =
      fills-unseen fs o (serialise_market_data m buffer) h fit.1 numbers unknown in
    let skip : process_packet (packet_of m) h ≡ ok h =
      fill_order-unknown
        (record {
          timestamp = f.timestamp;
          order_id = o.order_id;
          ticker = o.ticker;
          fill_id = 0;
          quantity = f.fill_qty;
        })
        h unknown in
    (buffer', rw (read, skip) run)

-- If the other side has fewer than 2^16 orders at each price, and the time, the ID and the ticker
-- fit 64 bits: a client does not learn of a trade that fills the incoming order: that order is
-- never announced, so that the client has no order of its ID, and every fill that is sent names it.
-- The book loses what the walk takes of it, and the client's handler stays as it is.
pub add_order-unseen :
    (junk : Junk) (now : ℕ) (side : Side) (o : Order) (b : OrderBook) (v : View) (buffer : List ℕ)
    (h : Handler)
    → IsRep b v
    → CanRest side o b
    → crosses (opposite side) o (orders_of (opposite side) v) ≡ true
    → Countable (orders_of (opposite side) v)
    → rest_of (opposite side) o.price o.current_quantity (orders_of (opposite side) v) ≡ 0
    → now < 2 ^ 64
    → NumbersFit o
    → find o.order_id h.orders ≡ none
    → let left =
        side_left (opposite side) o.price o.current_quantity (orders_of (opposite side) v) in
      (b' : OrderBook) × (sent : List Effect) × (buffer' : List ℕ) × (add_order junk now o b
        ≡ ok (b', with_qty 0 o, sent))
      × IsRep (healed (opposite side) left b') (with_orders (opposite side) left v)
      × (deliver sent buffer h ≡ ok (buffer', h))
add_order-unseen junk now side o b v buffer h rep can meets short full time numbers unknown =
    let (b', run, rep', kept) = add_order-walks junk now side o b v rep can meets short full in
    let fills = side_fills (opposite side) now o o.current_quantity (orders_of (opposite side) v) in
    let (buffer', got) =
      fills-unseen fills (with_qty 0 o) buffer h
        (side_fills-AllFit now time o (opposite side) o.current_quantity
          (orders_of (opposite side) v))
        numbers unknown in
    (b', communicate_match_results fills (with_qty 0 o), buffer', run, rep', got)
