-- ===== src/Feed/Seen.antt =====
-- A client that shows what is for sale and wanted at each price goes on to do so when an order rests.
use spot_exchange.Prelude.{
  ℕ, ◌+◌, ◌^◌, ◌<◌, ◌≡◌, Bool, true, false, none, some, arith, find, length,
}
use spot_exchange.Info.{Order}
use spot_exchange.Limits.{Side, ask, bid}
use spot_exchange.Limits.Count.{total}
use spot_exchange.OrderBook.{OrderBook}
use spot_exchange.OrderBook.View.{Orders, View, orders_of, side_code}
use spot_exchange.ClientBook.{buys}
use spot_exchange.ClientFeed.{Handler}
use spot_exchange.ClientFeed.Held.{held, Held}

-- The quantity that the book has at a price.
abbrev pub total_at : ℕ → Orders → ℕ
total_at p ys = elim (find p ys) [ none ↦ 0 | some os ↦ total os ]

abbrev pub side_named : Bool → Side
side_named true = bid
side_named false = ask

-- The client's orders of the ticker have at each price what the book has there.
abbrev pub Mirrors : ℕ → View → Handler → Type 0
Mirrors ticker v h =
    (s : Bool) (p : ℕ) → held ticker s p h.orders ≡ total_at p (orders_of (side_named s) v)

-- The orders' numbers fit the fields of a datagram, and those of a client.
pub record CanSee (now : ℕ) (o : Order) (h : Handler) : Type 0 where
  pub time : now < 2 ^ 64
  pub id : o.order_id < 2 ^ 64
  pub ticker : o.ticker < 2 ^ 64
  pub price : o.price < 2 ^ 64
  pub quantity : o.current_quantity < 2 ^ 31
  pub fresh : find o.order_id h.orders ≡ none
  pub room : length h.orderbooks < 2 ^ 16
  pub size : held o.ticker (buys o.is_buy_side) o.price h.orders + o.current_quantity < 2 ^ 63

pub side_code-small : (side : Side) (c : ℕ) → c ≡ side_code side → c < 2
side_code-small ask c e = rw e (omega arith)
side_code-small bid c e = rw e (omega arith)
