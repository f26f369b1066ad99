-- ===== src/ClientFeed/Held.antt =====
-- What a client holds: for each ticker, side and price, the sum of the quantities of its orders; and
-- when the books of a `ClientFeedHandler` show that.
use spot_exchange.Prelude.{
  Bool-cases, inl, inr, subst, ℕ, zero, suc, ◌^◌, ◌<◌, ◌+◌, ◌≡◌, ◌≢◌, refl, sym, ap, ◌∙◌, Bool,
  false, ◌&&◌, none, some, List, [], ◌∷◌, arith, ◌==◌, if◌then◌else◌, Map, Distinct, find, erase,
  assign, pos, pos_part,
}
use mathlib.Core.Option.{some-injective}
use spot_exchange.ClientBook.{ClientOrderBook, buys, sizes_of}
use spot_exchange.ClientBook.Sizes.{size_at, same_side}
use spot_exchange.ClientFeed.{FeedOrder, Handler, get_elem?, set_elem, set_book}

-- The same ticker, side and price.
abbrev pub here : (t : ℕ) → Bool → (p : ℕ) → (u : ℕ) → Bool → (r : ℕ) → Bool
here t s p u s' r = t == u && same_side s s' && p == r

abbrev pub share : FeedOrder → (u : ℕ) → Bool → (r : ℕ) → ℕ
share o u s' r =
    if here o.ticker (buys o.is_buy_side) o.price u s' r then pos_part o.quantity else 0

-- The quantity that the orders have at a ticker, side and price.
unfoldable pub held : (u : ℕ) → Bool → (r : ℕ) → Map FeedOrder → ℕ
held u s' r [] = 0
held u s' r ((id, o) ∷ m) = share o u s' r + held u s' r m

module _ (u : ℕ) (s' : Bool) (r id : ℕ) (o : FeedOrder) where
  pub held-erase :
      (m : Map FeedOrder)
      → find id m ≡ some o
      → held u s' r m ≡ held u s' r (erase id m) + share o u s' r
  unfolding held find erase
  held-erase [] e = cc
  held-erase ((j, x) ∷ m) e = ground (arith, held-erase m)

  pub held-assign :
      (o' : FeedOrder) (m : Map FeedOrder)
      → find id m ≡ some o
      → held u s' r m + share o' u s' r ≡ held u s' r (assign id o' m) + share o u s' r
  unfolding held find assign
  held-assign o' [] e = cc
  held-assign o' ((j, x) ∷ m) e = ground (arith, held-assign o' m)

-- The order stands in the book of its ticker, and its quantity is not negative, and an `int32_t`.
pub record IsHeld (tickers : Map ℕ) (o : FeedOrder) : Type 0 where
  pub quantity : o.quantity ≡ pos (pos_part o.quantity)
  pub small : pos_part o.quantity < 2 ^ 31
  pub index : find o.ticker tickers ≡ some o.book_index

abbrev pub AllHeld : Map ℕ → Map FeedOrder → Type 0
AllHeld tickers [] = Unit
AllHeld tickers ((id, o) ∷ m) = IsHeld tickers o × AllHeld tickers m

-- The book of a ticker shows the sums of its orders.
pub record Shows (t i : ℕ) (books : List ClientOrderBook) (orders : Map FeedOrder) : Type 0 where
  pub book : ClientOrderBook
  pub at : get_elem? books i ≡ some book
  pub ticker : book.ticker ≡ t
  pub distinct : (s : Bool) → Distinct (sizes_of s book)
  pub sizes : (s : Bool) (p : ℕ) → size_at p (sizes_of s book) ≡ pos (held t s p orders)

pub record Held (h : Handler) : Type 0 where
  pub bounded : (u : ℕ) (s : Bool) (p : ℕ) → held u s p h.orders < 2 ^ 63
  pub distinct : Distinct h.orders
  pub orders : AllHeld h.tickers h.orders
  pub books : (t i : ℕ) → find t h.tickers ≡ some i → Shows t i h.orderbooks h.orders

module _ (tickers : Map ℕ) (id : ℕ) where
  pub AllHeld-find :
      (o : FeedOrder) (m : Map FeedOrder)
      → AllHeld tickers m
      → find id m ≡ some o
      → IsHeld tickers o
  unfolding find
  AllHeld-find o [] a e = cc
  AllHeld-find o ((j, x) ∷ m) a e = elim (Bool-cases (j == id)) [
    | inl hit ↦ let same : x ≡ o = ground arith in subst (IsHeld tickers) same a.0
    | inr miss ↦ AllHeld-find o m a.1 (ground arith)
  ]

  pub AllHeld-erase : (m : Map FeedOrder) → AllHeld tickers m → AllHeld tickers (erase id m)
  unfolding erase
  AllHeld-erase [] a = tt
  AllHeld-erase ((j, x) ∷ m) a = ground (arith, AllHeld-erase m a.1)

  pub AllHeld-assign :
      (o : FeedOrder) (m : Map FeedOrder)
      → IsHeld tickers o
      → AllHeld tickers m
      → AllHeld tickers (assign id o m)
  unfolding assign
  AllHeld-assign o [] is a = tt
  AllHeld-assign o ((j, x) ∷ m) is a = ground (arith, AllHeld-assign o m is a.1)

-- No order has a ticker that has no book.
pub held-unlisted :
    (t : ℕ) (s : Bool) (p : ℕ) (tickers : Map ℕ) (m : Map FeedOrder)
    → AllHeld tickers m
    → find t tickers ≡ none
    → held t s p m ≡ 0
unfolding held
held-unlisted t s p tickers [] a e = refl
held-unlisted t s p tickers ((id, o) ∷ m) a e =
    let other : (o.ticker == t) ≡ false = elim (Bool-cases (o.ticker == t)) [
      | inl same ↦
          let this : o.ticker ≡ t = ground arith in
          let found : find t tickers ≡ some o.book_index = rw this at a.0.index in cc
      | inr differs ↦ differs
    ] in
    rw (other, held-unlisted t s p tickers m a.1 e) refl

-- The vector of books.
pub get-set :
    (i : ℕ) (b c : ClientOrderBook) (bs : List ClientOrderBook)
    → get_elem? bs i ≡ some c
    → get_elem? (set_elem i b bs) i ≡ some b
get-set i b c [] e = cc
get-set zero b c (x ∷ bs) e = refl
get-set (suc i) b c (x ∷ bs) e = get-set i b c bs e

pub get-set_ne :
    (i j : ℕ) (b : ClientOrderBook) (bs : List ClientOrderBook)
    → j ≢ i
    → get_elem? (set_elem i b bs) j ≡ get_elem? bs j
get-set_ne i j b [] ne = refl
get-set_ne zero zero b (x ∷ bs) ne = absurd (ne refl)
get-set_ne zero (suc j) b (x ∷ bs) ne = refl
get-set_ne (suc i) zero b (x ∷ bs) ne = refl
get-set_ne (suc i) (suc j) b (x ∷ bs) ne = get-set_ne i j b bs (λ e. ne (ap suc e))

-- A book and the orders change together, at one ticker.
pub Held-update :
    (h : Handler) (t i : ℕ) (b' : ClientOrderBook) (orders' : Map FeedOrder)
    → Held h
    → find t h.tickers ≡ some i
    → b'.ticker ≡ t
    → ((s : Bool) → Distinct (sizes_of s b'))
    → ((s : Bool) (p : ℕ) → size_at p (sizes_of s b') ≡ pos (held t s p orders'))
    → ((u : ℕ) (s : Bool) (p : ℕ) → u ≢ t → held u s p orders' ≡ held u s p h.orders)
    → ((u : ℕ) (s : Bool) (p : ℕ) → held u s p orders' < 2 ^ 63)
    → Distinct orders'
    → AllHeld h.tickers orders'
    → Held (record (set_book i b' h) { orders = orders' })
Held-update h t i b' orders' hd e tick dist sizes other bound d a = record {
  bounded = bound;
  distinct = d;
  orders = a;
  books = λ u j f. elim (Bool-cases (u == t)) [
    | inl same ↦
        let this : u ≡ t = ground arith in
        let index : i ≡ j = ground (arith, rw this at f, e) in
        rw (this, ← index)
          (record {
            book = b';
            at = get-set i b' (hd.books t i e).book h.orderbooks (hd.books t i e).at;
            ticker = tick;
            distinct = dist;
            sizes = sizes;
          })
    | inr differs ↦
        let ne : u ≢ t = ground arith in
        let at = hd.books u j f in
        let bt = hd.books t i e in
        let ne_i : j ≢ i = λ q.
          let same_book : at.book ≡ bt.book =
            some-injective at.book bt.book (sym at.at ∙ ap (get_elem? h.orderbooks) q ∙ bt.at) in
          ne (sym at.ticker ∙ ap (λ b. b.ticker) same_book ∙ bt.ticker) in
        record {
          book = at.book;
          at = get-set_ne i j b' h.orderbooks ne_i ∙ at.at;
          ticker = at.ticker;
          distinct = at.distinct;
          sizes = λ s p. at.sizes s p ∙ ap pos (sym (other u s p ne));
        }
  ];
}
