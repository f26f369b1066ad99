-- ===== src/ClientFeed/NewBook.antt =====
-- `addOrder` finds the book of a ticker, or makes one.
use spot_exchange.Prelude.{
  ℕ, zero, suc, ◌%◌, ◌^◌, ◌<◌, ◌≡◌, refl, sym, ap, Bool-cases, Option-cases, inl, inr, true, false,
  none, some, List, [], ◌∷◌, ◌++◌, arith, ◌==◌, Map, find, length, pos,
}
use spot_exchange.ClientBook.{ClientOrderBook, new_book}
use spot_exchange.ClientFeed.{FeedOrder, Handler, get_elem?, ticker_book}
use spot_exchange.ClientFeed.Held.{AllHeld, held-unlisted, Shows, Held}

get-append :
    (i : ℕ) (b c : ClientOrderBook) (bs : List ClientOrderBook)
    → get_elem? bs i ≡ some b
    → get_elem? (bs ++ c ∷ []) i ≡ some b
get-append i b c [] e = cc
get-append zero b c (x ∷ bs) e = e
get-append (suc i) b c (x ∷ bs) e = get-append i b c bs e

get-end :
    (c : ClientOrderBook) (bs : List ClientOrderBook)
    → get_elem? (bs ++ c ∷ []) (length bs) ≡ some c
get-end c [] = refl
get-end c (x ∷ bs) = get-end c bs

AllHeld-more :
    (t i : ℕ) (tickers : Map ℕ) (m : Map FeedOrder)
    → find t tickers ≡ none
    → AllHeld tickers m
    → AllHeld ((t, i) ∷ tickers) m
unfolding find
AllHeld-more t i tickers [] e a = tt
AllHeld-more t i tickers ((id, o) ∷ m) e a = (
  record {
    quantity = a.0.quantity;
    small = a.0.small;
    index = elim (Bool-cases (t == o.ticker)) [
      | inl same ↦
          let this : t ≡ o.ticker = ground arith in
          let found : find t tickers ≡ some o.book_index = rw this a.0.index in cc
      | inr other ↦ rw other a.0.index
    ];
  },
  AllHeld-more t i tickers m e a.1,
)

-- The handler with a book for a ticker that has none.
abbrev with_new : ℕ → Handler → Handler
with_new t h = record h {
  orderbooks = h.orderbooks ++ new_book t ∷ [];
  tickers = (t, length h.orderbooks) ∷ h.tickers;
}

module _ (t : ℕ) (h : Handler) where
  ticker_book-some : (i : ℕ) → find t h.tickers ≡ some i → ticker_book t h ≡ (i, h)
  unfolding ticker_book
  ticker_book-some i e = rw (e, ticker_book) refl

  ticker_book-none :
      find t h.tickers ≡ none
      → length h.orderbooks < 2 ^ 16
      → ticker_book t h ≡ (length h.orderbooks, with_new t h)
  unfolding ticker_book
  ticker_book-none e room =
      let i : length h.orderbooks % 2 ^ 16 ≡ length h.orderbooks = omega arith in
      rw (e, ticker_book, i) refl

  new_book-Shows :
      Held h
      → find t h.tickers ≡ none
      → Shows t (length h.orderbooks) (h.orderbooks ++ new_book t ∷ []) h.orders
  unfolding find
  new_book-Shows hd e = record {
    book = new_book t;
    at = get-end (new_book t) h.orderbooks;
    ticker = refl;
    distinct = elim [ true ↦ tt | false ↦ tt ];
    sizes = elim [
      | true ↦ λ p. ap pos (sym (held-unlisted t true p h.tickers h.orders hd.orders e))
      | false ↦ λ p. ap pos (sym (held-unlisted t false p h.tickers h.orders hd.orders e))
    ];
  }

  with_new-Shows :
      Held h
      → find t h.tickers ≡ none
      → (u j : ℕ) → find u ((t, length h.orderbooks) ∷ h.tickers) ≡ some j
      → Shows u j (h.orderbooks ++ new_book t ∷ []) h.orders
  unfolding find
  with_new-Shows hd e u j f = elim (Bool-cases (t == u)) [
    | inl this ↦
        let ticker : t ≡ u = ground arith in
        let index : length h.orderbooks ≡ j = ground arith in
        rw (← ticker, ← index) (new_book-Shows hd e)
    | inr other ↦
        let old = hd.books u j (ground arith) in
        record {
          book = old.book;
          at = get-append j old.book (new_book t) h.orderbooks old.at;
          ticker = old.ticker;
          distinct = old.distinct;
          sizes = old.sizes;
        }
  ]

  with_new-Held : Held h → find t h.tickers ≡ none → Held (with_new t h)
  with_new-Held hd e = record {
    bounded = hd.bounded;
    distinct = hd.distinct;
    orders = AllHeld-more t (length h.orderbooks) h.tickers h.orders e hd.orders;
    books = with_new-Shows hd e;
  }

  -- The book that `addOrder` works on.
  pub ticker_book-Held :
      Held h
      → length h.orderbooks < 2 ^ 16
      → (i : ℕ) × (h' : Handler) × (ticker_book t h ≡ (i, h'))
        × Held h'
        × (find t h'.tickers ≡ some i)
        × (h'.orders ≡ h.orders)
  unfolding find
  ticker_book-Held hd room = elim (Option-cases (find t h.tickers)) [
    | inl e ↦ (
      length h.orderbooks,
      with_new t h,
      ticker_book-none e room,
      with_new-Held hd e,
      ground arith,
      refl,
    )
    | inr (i, e) ↦ (i, h, ticker_book-some i e, hd, e, refl)
  ]
