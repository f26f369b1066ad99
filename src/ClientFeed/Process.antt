-- ===== src/ClientFeed/Process.antt =====
-- Every operation of the handler keeps the sizes of its books the sums of its orders.
use spot_exchange.Prelude.{
  ℕ, ◌+◌, ◌-◌, ◌^◌, ◌≤◌, ◌<◌, ◌≡◌, refl, ap, ◌∙◌, Bool-cases, Option-cases, inl, inr, true, false,
  none, some, ◌∷◌, arith, if◌then◌else◌, Map, find, erase, assign, emplace, find-none-Below,
  erase-Distinct, assign-Distinct, length, ℤ, pos, pos_part, ◌-ℤ◌, ltb_ℤ, ltb, signed, wrap,
  signed-small, ltb_ℤ-pos, sub-pos, wrap_32-small,
}
use spot_exchange.Prelude.Run.{Run, ok}
use spot_exchange.DataPlatform.{AddOrderData, ModOrderData, CancelOrderData, FillOrderData}
use spot_exchange.ClientBook.{ClientOrderBook, buys, add_to_book, remove_from_book}
use spot_exchange.ClientFeed.{
  FeedOrder, Handler, feed_order, set_book, get_order, add_order, cancel_order, modify_order,
  fill_order,
}
use spot_exchange.ClientFeed.Held.{
  here, held, held-erase, held-assign, IsHeld, AllHeld-find, AllHeld-erase, AllHeld-assign, Held,
}
use spot_exchange.ClientFeed.Change.{Grown, Shows-book_at, Held-add, Held-remove}
use spot_exchange.ClientFeed.NewBook.{ticker_book-Held}

emplace-fresh :
    (k : ℕ) (v : FeedOrder) (m : Map FeedOrder)
    → find k m ≡ none
    → emplace k v m ≡ ((k, v) ∷ m, true)
unfolding emplace
emplace-fresh k v m e = rw (e, emplace) refl

signed_32 : (q : ℕ) → q < 2 ^ 31 → signed 32 q ≡ pos q
signed_32 q h = signed-small 32 q h

-- A new order raises the size of its price by its quantity, and the other sizes stay.
pub add_order-Held :
    (d : AddOrderData) (h : Handler)
    → Held h
    → find d.order_id h.orders ≡ none
    → d.quantity < 2 ^ 31
    → length h.orderbooks < 2 ^ 16
    → held d.ticker (buys d.is_buy_side) d.price h.orders + d.quantity < 2 ^ 63
    → (h' : Handler) × (add_order d h ≡ ok h')
      × Held h'
      × Grown d.ticker (buys d.is_buy_side) d.price d.quantity h.orders h'.orders
unfolding add_order held
add_order-Held d h hd fresh small room fits =
    let (i, h₁, run, hd₁, listed, same) = ticker_book-Held d.ticker h hd room in
    let o = feed_order i d in
    let orders' : Map FeedOrder = (d.order_id, o) ∷ h₁.orders in
    let fresh₁ : find d.order_id h₁.orders ≡ none = rw same fresh in
    let q = signed_32 d.quantity small in
    let grown : Grown d.ticker (buys d.is_buy_side) d.price d.quantity h₁.orders orders' =
      λ u s r. rw q (omega arith) in
    let is : IsHeld h₁.tickers o = record {
      quantity = rw q refl;
      small = rw q small;
      index = listed;
    } in
    let read = Shows-book_at d.ticker i h₁ (hd₁.books d.ticker i listed) in
    (
      _,
      rw (add_order, run, read, emplace-fresh d.order_id o h₁.orders fresh₁, q) refl,
      Held-add h₁ d.ticker i d.is_buy_side d.price d.quantity orders' hd₁ listed
          (find-none-Below d.order_id h₁.orders fresh₁, hd₁.distinct) (is, hd₁.orders) grown
          (rw same fits),
      λ u s r.
          grown u s r
          ∙ ap
              (λ m.
                held u s r m
                + (if here d.ticker (buys d.is_buy_side) d.price u s r then d.quantity else 0))
              same,
    )

-- `addOrder` of a client, whatever the quantity.
pub add_order-stored :
    (d : AddOrderData) (h : Handler)
    → Held h
    → find d.order_id h.orders ≡ none
    → length h.orderbooks < 2 ^ 16
    → (i : ℕ) × (h' : Handler) × (add_order d h ≡ ok h')
      × (get_order d.order_id h' ≡ some (feed_order i d))
unfolding add_order get_order find
add_order-stored d h hd fresh room =
    let (i, h₁, run, hd₁, listed, same) = ticker_book-Held d.ticker h hd room in
    let fresh₁ : find d.order_id h₁.orders ≡ none = rw same fresh in
    let shown = hd₁.books d.ticker i listed in
    let book = add_to_book d.is_buy_side (signed 32 d.quantity) d.price shown.book in
    let h' : Handler = record (set_book i book h₁) {
      orders = (d.order_id, feed_order i d) ∷ h₁.orders;
    } in
    (
      i,
      h',
      rw
          (
            add_order,
            run,
            Shows-book_at d.ticker i h₁ shown,
            emplace-fresh d.order_id (feed_order i d) h₁.orders fresh₁,
          )
          refl,
      ground arith,
    )

-- A cancel takes the quantity of the order out of the size of its price.
pub cancel_order-Held :
    (c : CancelOrderData) (h : Handler)
    → Held h
    → (h' : Handler) × (cancel_order c h ≡ ok h') × Held h'
unfolding cancel_order
cancel_order-Held c h hd = elim (Option-cases (find c.order_id h.orders)) [
  | inl e ↦ (h, rw (cancel_order, e) refl, hd)
  | inr (o, e) ↦
      let is = AllHeld-find h.tickers c.order_id o h.orders hd.orders e in
      let orders' = erase c.order_id h.orders in
      let d = erase-Distinct c.order_id h.orders hd.distinct in
      let a = AllHeld-erase h.tickers c.order_id h.orders hd.orders in
      let q = pos_part o.quantity in
      let b = hd.books o.ticker o.book_index is.index in
      let read = Shows-book_at o.ticker o.book_index h b in
      (
        _,
        rw (cancel_order, e, read)
            (ap
              (λ z.
                ok
                  (record (set_book o.book_index (remove_from_book o.is_buy_side z o.price b.book)
                    h) { orders = orders' }))
              is.quantity),
        Held-remove h o.ticker o.book_index o.is_buy_side o.price q orders' hd is.index d a
            (λ u s r. held-erase u s r c.order_id o h.orders e),
      )
]

-- What `modifyOrder` does to the book, in the two directions.
module _ (c p n q : ℕ) (z w : ℤ) (b : ClientOrderBook) (z_is : z ≡ pos n) (w_is : w ≡ pos q) where
  changed : ClientOrderBook
  changed =
      if ltb_ℤ z w
      then add_to_book c (wrap 32 (w -ℤ z)) p b
      else remove_from_book c (wrap 32 (z -ℤ w)) p b

  changed-up : q < 2 ^ 31 → ltb n q ≡ true → changed ≡ add_to_book c (pos (q - n)) p b
  unfolding changed
  changed-up small e =
      rw
        (
          z_is,
          w_is,
          ltb_ℤ-pos n q,
          e,
          sub-pos q n (ground arith),
          wrap_32-small (q - n) (omega arith),
        )
        refl

  changed-down : n < 2 ^ 31 → ltb n q ≡ false → changed ≡ remove_from_book c (pos (n - q)) p b
  unfolding changed
  changed-down small e =
      rw
        (
          z_is,
          w_is,
          ltb_ℤ-pos n q,
          e,
          sub-pos n q (ground arith),
          wrap_32-small (n - q) (omega arith),
        )
        refl

-- A modification moves the size of the price by the difference, up or down.
pub modify_order-Held :
    (m : ModOrderData) (h : Handler) (o : FeedOrder)
    → Held h
    → find m.order_id h.orders ≡ some o
    → m.quantity < 2 ^ 31
    → held o.ticker (buys o.is_buy_side) o.price h.orders + m.quantity < 2 ^ 63
    → (h' : Handler) × (modify_order m h ≡ ok h')
      × Held h'
      × (h'.orders ≡ assign m.order_id (record o { quantity = pos m.quantity }) h.orders)
unfolding modify_order changed
modify_order-Held m h o hd e small fits =
    let is = AllHeld-find h.tickers m.order_id o h.orders hd.orders e in
    let n = pos_part o.quantity in
    let q = m.quantity in
    let w_is = signed_32 q small in
    let o' : FeedOrder = record o { quantity = pos q } in
    let orders' = assign m.order_id o' h.orders in
    let d = assign-Distinct m.order_id o' h.orders hd.distinct in
    let a =
      AllHeld-assign h.tickers m.order_id o' h.orders
        (record { quantity = refl; small = small; index = is.index }) hd.orders in
    let b = hd.books o.ticker o.book_index is.index in
    let read = Shows-book_at o.ticker o.book_index h b in
    let put : ClientOrderBook → Run Handler =
      λ x. ok (record (set_book o.book_index x h) { orders = orders' }) in
    let run : modify_order m h
        ≡ put (changed o.is_buy_side o.price n q o.quantity (signed 32 q) b.book is.quantity w_is) =
      rw (modify_order, e, read, w_is) refl in
    elim (Bool-cases (ltb n q)) [
      | inl up ↦ (
        _,
        run
            ∙ ap put (
                changed-up o.is_buy_side o.price n q o.quantity (signed 32 q) b.book is.quantity
                  w_is small up),
        Held-add h o.ticker o.book_index o.is_buy_side o.price (q - n) orders' hd is.index d a
            (λ u s r. ground (arith, held-assign u s r m.order_id o o' h.orders e)) (omega arith),
        refl,
      )
      | inr down ↦ (
        _,
        run
            ∙ ap put (
                changed-down o.is_buy_side o.price n q o.quantity (signed 32 q) b.book is.quantity
                  w_is is.small down),
        Held-remove h o.ticker o.book_index o.is_buy_side o.price (n - q) orders' hd is.index d a
            (λ u s r. ground (arith, held-assign u s r m.order_id o o' h.orders e)),
        refl,
      )
    ]

-- A fill takes its quantity out of the order and out of the size of its price; an order that it
-- empties goes.
pub fill_order-Held :
    (f : FillOrderData) (h : Handler) (o : FeedOrder)
    → Held h
    → find f.order_id h.orders ≡ some o
    → f.quantity ≤ pos_part o.quantity
    → (h' : Handler) × (fill_order f h ≡ ok h')
      × Held h'
      × (h'.orders ≡ (
          if ltb 0 (pos_part o.quantity - f.quantity)
          then assign f.order_id
              (record o { quantity = pos (pos_part o.quantity - f.quantity) })
              h.orders
          else erase f.order_id h.orders))
unfolding fill_order
fill_order-Held f h o hd e le =
    let is = AllHeld-find h.tickers f.order_id o h.orders hd.orders e in
    let n = pos_part o.quantity in
    let q = f.quantity in
    let q_is = signed_32 q (omega (arith, is.small)) in
    let o' : FeedOrder = record o { quantity = pos (n - q) } in
    let b = hd.books o.ticker o.book_index is.index in
    let read = Shows-book_at o.ticker o.book_index h b in
    let left : wrap 32 (o.quantity -ℤ signed 32 q) ≡ pos (n - q) =
      rw (is.quantity, q_is)
        (ap (wrap 32) (sub-pos n q le) ∙ wrap_32-small (n - q) (omega (arith, is.small))) in
    elim (Bool-cases (ltb 0 (n - q))) [
      | inl some_left ↦ (
        _,
        rw (fill_order, e, read, left, q_is, ltb_ℤ-pos 0 (n - q), some_left) refl,
        Held-remove h o.ticker o.book_index o.is_buy_side o.price q (assign f.order_id o' h.orders)
            hd is.index (assign-Distinct f.order_id o' h.orders hd.distinct)
            (AllHeld-assign h.tickers f.order_id o' h.orders
              (record { quantity = refl; small = omega (arith, is.small); index = is.index })
              hd.orders)
            (λ u s r. ground (arith, held-assign u s r f.order_id o o' h.orders e, le)),
        rw some_left refl,
      )
      | inr empty ↦ (
        _,
        rw (fill_order, e, read, left, q_is, ltb_ℤ-pos 0 (n - q), empty) refl,
        Held-remove h o.ticker o.book_index o.is_buy_side o.price q (erase f.order_id h.orders) hd
            is.index (erase-Distinct f.order_id h.orders hd.distinct)
            (AllHeld-erase h.tickers f.order_id h.orders hd.orders)
            (λ u s r. ground (arith, held-erase u s r f.order_id o h.orders e, le)),
        rw empty refl,
      )
    ]
