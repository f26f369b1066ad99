-- ===== src/OrderBookManager/Routes.antt =====
-- What an operation of `OrderBookManager` does to the books of the other tickers, and to all books.
use spot_exchange.Prelude.{
  ℕ, ◌+◌, ◌≡◌, ◌≢◌, refl, subst, true, false, none, some, List, [], ◌∷◌, arith, ◌==◌, Option-cases,
  Bool-cases, inl, inr, find, assign, emplace, find-assign, Option, if◌then◌else◌, Bool,
}
use spot_exchange.Prelude.Run.{ok, steps-ok}
use spot_exchange.Info.{Order, ModifyOrder, CancelOrder}
use spot_exchange.Messages.{
  Effect, send_rejection, orderbook_not_found, order_not_found, wrong_user_id,
}
use spot_exchange.Limits.{ask, bid}
use spot_exchange.OrderBook.{OrderBook, Junk, empty_book, order_common}
use spot_exchange.OrderBook
use spot_exchange.OrderBook.View.{View, IsRep}
use spot_exchange.OrderBook.Cancel.{cancel_order-IsRep, cancel_order-rejects}
use spot_exchange.OrderBookManager.{
  Books, add_order, modify_order, cancel_order, create_order_book, num_order_books, subscribe,
}

-- Every book stands for some view.
abbrev pub AllRep : Books → Type 0
AllRep books = (t : ℕ) (b : OrderBook) → find t books ≡ some b → (v : View) × IsRep b v

unfoldable pub empty_view : View
empty_view = record { asks = []; bids = [] }

pub empty_book-IsRep : IsRep empty_book empty_view
unfolding find empty_view
empty_book-IsRep = record {
  distinct = tt;
  levels = elim [ ask ↦ tt | bid ↦ tt ];
  sorted = elim [ ask ↦ tt | bid ↦ tt ];
  listed = λ id. refl;
}

abbrev pub or_new : Option OrderBook → OrderBook
or_new none = empty_book
or_new (some b) = b

abbrev pub is_new : Option OrderBook → Bool
is_new none = true
is_new (some b) = false

-- `createOrderBook` answers whether the ticker had no book. After it the ticker has the book that it
-- had, or an empty one, every other ticker has what it had, and the number of books fits.
pub create_order_book_lem :
    (t : ℕ) (books : Books)
    → (books' : Books) × (create_order_book t books ≡ (is_new (subscribe t books), books'))
      × ((k : ℕ)
          → subscribe k books'
            ≡ (if k == t then some (or_new (subscribe t books)) else subscribe k books))
      × (num_order_books books'
          ≡ num_order_books books + (if is_new (subscribe t books) then 1 else 0))
unfolding create_order_book emplace subscribe num_order_books find
create_order_book_lem t books = elim (Option-cases (find t books)) [
  | inl e ↦ ((t, empty_book) ∷ books, ground arith, λ k. ground arith, ground arith)
  | inr (b, e) ↦ (books, ground arith, λ k. ground arith, ground arith)
]

write-elsewhere :
    (t other : ℕ) (b : OrderBook) (books : Books)
    → other ≢ t
    → find other (assign t b books) ≡ find other books
write-elsewhere t other b books ne = ground (arith, find-assign t other b books)

module _ (junk : Junk) (now : ℕ) (other : ℕ) (books : Books) where
  -- A new order touches the book of its own ticker only.
  pub add_order-elsewhere :
      (o : Order) (r : Books × Order × List Effect)
      → other ≢ o.ticker
      → add_order junk now o books ≡ ok r
      → find other r.0 ≡ find other books
  unfolding add_order
  add_order-elsewhere o r ne h = elim (Option-cases (find o.ticker books)) [
    | inl e ↦ let same = rw (e, add_order) at h in ground (arith, same)
    | inr (b, e) ↦
        let (x, run, same) =
          steps-ok (OrderBook.add_order junk now o b) _ _ (rw (e, add_order) at h) in
        ground (arith, same, find-assign o.ticker other x.0 books)
  ]

  -- A cancel request touches the book of its own ticker only.
  pub cancel_order-elsewhere :
      (c : CancelOrder) (r : Books × List Effect)
      → other ≢ c.ticker
      → cancel_order now c books ≡ ok r
      → find other r.0 ≡ find other books
  unfolding cancel_order
  cancel_order-elsewhere c r ne h = elim (Option-cases (find c.ticker books)) [
    | inl e ↦ let same = rw (e, cancel_order) at h in ground (arith, same)
    | inr (b, e) ↦
        let (x, run, same) =
          steps-ok (OrderBook.cancel_order now c b) _ _ (rw (e, cancel_order) at h) in
        ground (arith, same, find-assign c.ticker other x.0 books)
  ]

  -- A modification touches the book of its own ticker only.
  pub modify_order-elsewhere :
      (m : ModifyOrder) (r : Books × List Effect)
      → other ≢ m.ticker
      → modify_order junk now m books ≡ ok r
      → find other r.0 ≡ find other books
  unfolding modify_order
  modify_order-elsewhere m r ne h = elim (Bool-cases (m.quantity == 0)) [
    | inl z ↦ let same = rw (z, modify_order) at h in ground (arith, same)
    | inr p ↦ elim (Option-cases (find m.ticker books)) [
      | inl e ↦ let same = rw (p, modify_order, e) at h in ground (arith, same)
      | inr (b, e) ↦
          let (x, run, same) =
            steps-ok (OrderBook.modify_order junk now m b) _ _ (rw (p, modify_order, e) at h) in
          ground (arith, same, find-assign m.ticker other x.0 books)
    ]
  ]

write-AllRep :
    (t : ℕ) (b : OrderBook) (books : Books)
    → AllRep books
    → (v : View) × IsRep b v
    → AllRep (assign t b books)
write-AllRep t b books all (v, rep) s c e = elim (Bool-cases (s == t)) [
  | inl same ↦
      subst (λ x. (v : View) × IsRep x v) (ground (arith, find-assign t s b books)) (v, rep)
  | inr other ↦ all s c (ground (arith, find-assign t s b books))
]

-- `cancelOrder` of a book returns in each of its cases.
cancel_in_book :
    (now : ℕ) (c : CancelOrder) (b : OrderBook) (v : View)
    → IsRep b v
    → (b' : OrderBook) × (sent : List Effect) × (OrderBook.cancel_order now c b ≡ ok (b', sent))
      × (v' : View) × IsRep b' v'
cancel_in_book now c b v rep = elim (Option-cases (find c.order_id b.limitorders)) [
  | inl e ↦ (b, _, cancel_order-rejects now c b order_not_found (ground arith), v, rep)
  | inr (limit, e) ↦ elim (Bool-cases (limit.order.user_id == c.user_id)) [
    | inl own ↦
        let (b', run, rep', gone) = cancel_order-IsRep now c b v limit rep e (ground arith) in
        (b', _, run, _, rep')
    | inr other ↦ (b, _, cancel_order-rejects now c b wrong_user_id (ground arith), v, rep)
  ]
]

-- A cancel request, whatever it names, is answered and leaves every book well formed.
pub cancel_order-AllRep :
    (now : ℕ) (c : CancelOrder) (books : Books)
    → AllRep books
    → (books' : Books) × (sent : List Effect) × (cancel_order now c books ≡ ok (books', sent))
      × AllRep books'
unfolding cancel_order
cancel_order-AllRep now c books all = elim (Option-cases (find c.ticker books)) [
  | inl e ↦ (
    books,
    send_rejection c.connection orderbook_not_found c.common ∷ [],
    rw (e, cancel_order) refl,
    all,
  )
  | inr (b, e) ↦
      let (v, rep) = all c.ticker b e in
      let (b', sent, run, v', rep') = cancel_in_book now c b v rep in
      (
        assign c.ticker b' books,
        sent,
        rw (e, cancel_order, run) refl,
        write-AllRep c.ticker b' books all (v', rep'),
      )
]
