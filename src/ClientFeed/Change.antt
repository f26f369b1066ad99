-- ===== src/ClientFeed/Change.antt =====
-- A size of a book and the orders behind it change together.
use spot_exchange.Prelude.{
  ℕ, ◌+◌, ◌-◌, ◌^◌, ◌≤◌, ◌<◌, ◌≡◌, refl, sym, ap, ◌∙◌, Bool-cases, inl, inr, Bool, true, false,
  ◌&&◌, arith, ◌==◌, if◌then◌else◌, Map, Distinct, find, some, pos,
}
use spot_exchange.Prelude.Run.{ok}
use spot_exchange.ClientBook.{buys, add_to_book, remove_from_book}
use spot_exchange.ClientBook.Sizes.{
  same_side, same_side-true, ticker-add, ticker-remove, add_to_book-Distinct,
  remove_from_book-Distinct, add_to_book-size, remove_from_book-size,
}
use spot_exchange.ClientFeed.{FeedOrder, Handler, book_at, set_book}
use spot_exchange.ClientFeed.Held.{here, held, AllHeld, Shows, Held, Held-update}

-- The orders have `q` more, or less, at one ticker, side and price, and as much as before elsewhere.
abbrev pub Grown : (t : ℕ) → Bool → (p q : ℕ) → (orders orders' : Map FeedOrder) → Type 0
Grown t s p q orders orders' =
    (u : ℕ) (s' : Bool) (r : ℕ)
    → held u s' r orders' ≡ held u s' r orders + (if here t s p u s' r then q else 0)

abbrev pub Fallen : (t : ℕ) → Bool → (p q : ℕ) → (orders orders' : Map FeedOrder) → Type 0
Fallen t s p q orders orders' = Grown t s p q orders' orders

here_self : (t : ℕ) (s : Bool) (p : ℕ) → here t s p t s p ≡ true
here_self t true p = ground arith
here_self t false p = ground arith

both : (a b : Bool) → (a && b) ≡ true → (a ≡ true) × (b ≡ true)
both a b e = (ground arith, ground arith)

here-true :
    (t : ℕ) (s : Bool) (p u : ℕ) (s' : Bool) (r : ℕ) (m : Map FeedOrder)
    → here t s p u s' r ≡ true
    → held t s p m ≡ held u s' r m
here-true t s p u s' r m e =
    let (first, price) = both (t == u && same_side s s') (p == r) e in
    let (ticker, side) = both (t == u) (same_side s s') first in
    let t' : t ≡ u = ground arith in
    let p' : p ≡ r = ground arith in rw (t', p', same_side-true s s' side) refl

module _ (t : ℕ) (s : Bool) (p q : ℕ) (orders orders' : Map FeedOrder) (s' : Bool) (r : ℕ) where
  -- What stands at the place of the change, and what elsewhere.
  Grown-size :
      Grown t s p q orders orders'
      → (if same_side s s' && p == r then pos (held t s p orders + q) else pos (held t s' r orders))
        ≡ pos (held t s' r orders')
  Grown-size g = elim (Bool-cases (same_side s s' && p == r)) [
    | inl e ↦
        let (side, price) = both (same_side s s') (p == r) e in
        let side' = same_side-true s s' side in
        let price' : p ≡ r = ground arith in
        let sum : held t s p orders' ≡ held t s p orders + q =
          ground (arith, g t s p, here_self t s p) in
        rw (e, ← side', ← price') (ap pos (sym sum))
    | inr e ↦
        let sum : held t s' r orders' ≡ held t s' r orders = ground (arith, g t s' r) in
        rw e (ap pos (sym sum))
  ]

  Fallen-size :
      Fallen t s p q orders orders'
      → (if same_side s s' && p == r then pos (held t s p orders - q) else pos (held t s' r orders))
        ≡ pos (held t s' r orders')
  Fallen-size g = elim (Bool-cases (same_side s s' && p == r)) [
    | inl e ↦
        let (side, price) = both (same_side s s') (p == r) e in
        let side' = same_side-true s s' side in
        let price' : p ≡ r = ground arith in
        let sum : held t s p orders' ≡ held t s p orders - q =
          ground (arith, g t s p, here_self t s p) in
        rw (e, ← side', ← price') (ap pos (sym sum))
    | inr e ↦
        let sum : held t s' r orders' ≡ held t s' r orders = ground (arith, g t s' r) in
        rw e (ap pos (sym sum))
  ]

pub Shows-book_at :
    (t i : ℕ) (h : Handler) (b : Shows t i h.orderbooks h.orders) → book_at i h ≡ ok b.book
Shows-book_at t i h b = rw (b.at, book_at) refl

module _ (h : Handler) (t i c p q : ℕ) (orders' : Map FeedOrder) (hd : Held h)
    (listed : find t h.tickers ≡ some i) (d : Distinct orders')
    (a : AllHeld h.tickers orders') where
  abbrev pub shown : Shows t i h.orderbooks h.orders
  shown = hd.books t i listed

  -- The sum before the change.
  abbrev n : ℕ
  n = held t (buys c) p h.orders

  pub Held-add :
      Grown t (buys c) p q h.orders orders'
      → n + q < 2 ^ 63
      → Held (record (set_book i (add_to_book c (pos q) p shown.book) h) { orders = orders' })
  Held-add grown fits =
      let b = shown.book in
      let at = shown.sizes (buys c) p in
      Held-update h t i (add_to_book c (pos q) p b) orders' hd listed
        (ticker-add c n q p b at ∙ shown.ticker)
        (λ s. add_to_book-Distinct c n q p b at s shown.distinct)
        (λ s r.
          add_to_book-size c n q p b at s shown.distinct r fits
          ∙ ap (λ x. if same_side (buys c) s && p == r then pos (n + q) else x) (shown.sizes s r)
          ∙ Grown-size t (buys c) p q h.orders orders' s r grown)
        (λ u s r ne. ground (arith, grown u s r))
        (λ u s r.
          ground (arith, grown u s r, hd.bounded u s r, here-true t (buys c) p u s r h.orders))
        d a

  pub Held-remove :
      Fallen t (buys c) p q h.orders orders'
      → Held (record (set_book i (remove_from_book c (pos q) p shown.book) h) { orders = orders' })
  Held-remove fallen =
      let b = shown.book in
      let at = shown.sizes (buys c) p in
      let le : q ≤ n = ground (arith, fallen t (buys c) p, here_self t (buys c) p) in
      Held-update h t i (remove_from_book c (pos q) p b) orders' hd listed
        (ticker-remove c n q p b at ∙ shown.ticker)
        (λ s. remove_from_book-Distinct c n q p b at s shown.distinct)
        (λ s r.
          remove_from_book-size c n q p b at s shown.distinct r le (hd.bounded t (buys c) p)
          ∙ ap (λ x. if same_side (buys c) s && p == r then pos (n - q) else x) (shown.sizes s r)
          ∙ Fallen-size t (buys c) p q h.orders orders' s r fallen)
        (λ u s r ne. ground (arith, fallen u s r))
        (λ u s r. ground (arith, fallen u s r, hd.bounded u s r)) d a
