-- ===== src/OrderBook/Sides.antt =====
-- The two sides of a book, and the orders of a level without one of them.
use spot_exchange.Prelude.{ℕ, ◌≡◌, ◌≢◌, refl, ap, ◌⊎◌, inl, inr, List, [], ◌∷◌, ◌++◌}
use spot_exchange.Info.{Order}
use spot_exchange.Limits.{Side, ask, bid, Limits, Book}
use spot_exchange.OrderBook.{OrderBook, book_of, with_book}
use spot_exchange.OrderBook.View.{AllAt, side_code}

pub book_of-with_book :
    (side : Side) (levels : Book) (b : OrderBook) → book_of side (with_book side levels b) ≡ levels
book_of-with_book ask levels b = refl
book_of-with_book bid levels b = refl

pub book_of-with_book_ne :
    (side other : Side) (levels : Book) (b : OrderBook)
    → other ≢ side
    → book_of other (with_book side levels b) ≡ book_of other b
book_of-with_book_ne ask ask levels b ne = absurd (ne refl)
book_of-with_book_ne ask bid levels b ne = refl
book_of-with_book_ne bid ask levels b ne = refl
book_of-with_book_ne bid bid levels b ne = absurd (ne refl)

pub limitorders-with_book :
    (side : Side) (levels : Book) (b : OrderBook)
    → (with_book side levels b).limitorders ≡ b.limitorders
limitorders-with_book ask levels b = refl
limitorders-with_book bid levels b = refl

pub book_of-limits :
    (side : Side) (m : Limits) (b : OrderBook)
    → book_of side (record b { limitorders = m }) ≡ book_of side b
book_of-limits ask m b = refl
book_of-limits bid m b = refl

pub append-ne_nil : (xs : List Order) (y : Order) (ys : List Order) → xs ++ y ∷ ys ≢ []
append-ne_nil [] y ys e = cc
append-ne_nil (x ∷ xs) y ys e = cc

pub snoc-cases :
    (xs : List Order) → (xs ≡ []) ⊎ ((ys : List Order) × (y : Order) × (xs ≡ ys ++ y ∷ []))
snoc-cases [] = inl refl
snoc-cases (x ∷ xs) = elim (snoc-cases xs) [
  | inl e ↦ inr ([], x, ap (◌∷◌ x) e)
  | inr (ys, y, e) ↦ inr (x ∷ ys, y, ap (◌∷◌ x) e)
]

pub AllAt-drop :
    (side : Side) (price : ℕ) (xs : List Order) (o : Order) (zs : List Order)
    → AllAt side price (xs ++ o ∷ zs)
    → AllAt side price (xs ++ zs)
AllAt-drop side price [] o zs a = a.1
AllAt-drop side price (x ∷ xs) o zs a = (a.0, AllAt-drop side price xs o zs a.1)

pub AllAt-front :
    (side : Side) (price : ℕ) (xs zs : List Order)
    → AllAt side price (xs ++ zs)
    → AllAt side price xs
AllAt-front side price [] zs a = tt
AllAt-front side price (x ∷ xs) zs a = (a.0, AllAt-front side price xs zs a.1)

pub AllAt-at :
    (side : Side) (price : ℕ) (xs : List Order) (o : Order) (zs : List Order)
    → AllAt side price (xs ++ o ∷ zs)
    → (o.price ≡ price) × (o.is_buy_side ≡ side_code side)
AllAt-at side price [] o zs a = (a.0.0, a.0.1)
AllAt-at side price (x ∷ xs) o zs a = AllAt-at side price xs o zs a.1
