-- ===== src/ClientFeed/Stream.antt =====
-- A client that reads a stream of packets.
use spot_exchange.Prelude.{
  ℕ, ◌+◌, ◌^◌, ◌≤◌, ◌<◌, ◌≡◌, refl, subst, Option-cases, inl, inr, Bool, none, some, Option, arith,
  find, length, pos, pos_part,
}
use spot_exchange.Prelude.Run.{ok}
use spot_exchange.DataPlatform.{
  ModOrderData, FillOrderData, Packet, add_data, mod_data, cancel_data, fill_data,
  notification_data, incorrect_type,
}
use spot_exchange.ClientBook.{ClientOrderBook, buys, sizes_of}
use spot_exchange.ClientBook.Sizes.{size_at}
use spot_exchange.ClientFeed.{
  FeedOrder, Handler, empty_handler, get_elem?, subscribe, modify_order, fill_order, process_packet,
}
use spot_exchange.ClientFeed.Held.{held, Held}
use spot_exchange.ClientFeed.Process.{
  add_order-Held, cancel_order-Held, modify_order-Held, fill_order-Held,
}

abbrev pub FitsModify : ModOrderData → Option FeedOrder → Handler → Type 0
FitsModify m none h = Unit
FitsModify m (some o) h =
    (m.quantity < 2 ^ 31)
    × (held o.ticker (buys o.is_buy_side) o.price h.orders + m.quantity < 2 ^ 63)

abbrev pub FitsFill : FillOrderData → Option FeedOrder → Type 0
FitsFill f none = Unit
FitsFill f (some o) = f.quantity ≤ pos_part o.quantity

-- A packet that fits the machine's integers and the orders that are there: a new order has a new ID,
-- its quantity an `int32_t` and the size of its price an `int64_t`, and there are fewer than 2^16
-- books; a fill asks no more of an order than it has.
unfoldable pub Fits : Packet → Handler → Type 0
unfolding find
Fits (add_data d) h =
    (find d.order_id h.orders ≡ none)
    × (d.quantity < 2 ^ 31)
    × (length h.orderbooks < 2 ^ 16)
    × (held d.ticker (buys d.is_buy_side) d.price h.orders + d.quantity < 2 ^ 63)
Fits (mod_data m) h = FitsModify m (find m.order_id h.orders) h
Fits (cancel_data c) h = Unit
Fits (fill_data f) h = FitsFill f (find f.order_id h.orders)
Fits notification_data h = Unit
Fits incorrect_type h = Unit

modify_order-unknown :
    (m : ModOrderData) (h : Handler) → find m.order_id h.orders ≡ none → modify_order m h ≡ ok h
unfolding modify_order
modify_order-unknown m h e = rw (e, modify_order) refl

pub fill_order-unknown :
    (f : FillOrderData) (h : Handler) → find f.order_id h.orders ≡ none → fill_order f h ≡ ok h
unfolding fill_order
fill_order-unknown f h e = rw (e, fill_order) refl

-- Every packet that fits is processed without an access out of range, and afterwards, as before, the
-- size at each ticker, side and price is the sum of the quantities of the orders there.
pub process_packet-Held :
    (p : Packet) (h : Handler)
    → Held h
    → Fits p h
    → (h' : Handler) × (process_packet p h ≡ ok h') × Held h'
unfolding process_packet Fits
process_packet-Held (add_data d) h hd fits =
    let (h', run, hd', grown) = add_order-Held d h hd fits.0 fits.1 fits.2 fits.3 in (h', run, hd')
process_packet-Held (mod_data m) h hd fits = elim (Option-cases (find m.order_id h.orders)) [
  | inl e ↦ (h, modify_order-unknown m h e, hd)
  | inr (o, e) ↦
      let fits' : FitsModify m (some o) h = subst (λ x. FitsModify m x h) e fits in
      let (h', run, hd', orders) = modify_order-Held m h o hd e fits'.0 fits'.1 in (h', run, hd')
]
process_packet-Held (cancel_data c) h hd fits = cancel_order-Held c h hd
process_packet-Held (fill_data f) h hd fits = elim (Option-cases (find f.order_id h.orders)) [
  | inl e ↦ (h, fill_order-unknown f h e, hd)
  | inr (o, e) ↦
      let (h', run, hd', orders) = fill_order-Held f h o hd e (subst (FitsFill f) e fits) in
      (h', run, hd')
]
process_packet-Held notification_data h hd fits = (h, refl, hd)
process_packet-Held incorrect_type h hd fits = (h, refl, hd)

-- What a subscriber of a ticker is shown: the sums of the orders of the ticker.
pub subscribe-shows :
    (t i : ℕ) (s : Bool) (p : ℕ) (h : Handler)
    → Held h
    → subscribe t h ≡ some i
    → (book : ClientOrderBook) × (get_elem? h.orderbooks i ≡ some book)
      × (book.ticker ≡ t)
      × (size_at p (sizes_of s book) ≡ pos (held t s p h.orders))
unfolding subscribe
subscribe-shows t i s p h hd e = let b = hd.books t i e in (b.book, b.at, b.ticker, b.sizes s p)

pub empty-Held : Held empty_handler
unfolding held find
empty-Held = record {
  bounded = λ u s p. omega arith;
  distinct = tt;
  orders = tt;
  books = λ t i e. cc;
}
