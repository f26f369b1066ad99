-- ===== src/OrderBook/Gone.antt =====
-- The book without its best level.
use spot_exchange.Prelude.{
  ℕ, ◌<◌, ◌≡◌, refl, ap, ◌∙◌, subst, none, some, List, [], ◌∷◌, arith, ◌-◌, find, erase,
}
use spot_exchange.Info.{Order}
use spot_exchange.Limits.{Side, LevelPtr, Level, Limits, Book}
use spot_exchange.Matching.Fifo.{left_qty, left_orders}
use spot_exchange.Matching.InLevel.{taken}
use spot_exchange.OrderBook.{OrderBook, book_of, with_book}
use spot_exchange.OrderBook.View.{
  Orders, View, orders_of, with_orders, level_ptr, IsLevel, IsRep, or_erase,
}
use spot_exchange.Matching.Remove.{Shrunk}
use spot_exchange.Matching.Full.{book_after}
use spot_exchange.OrderBook.Deplete.{depleted-IsRep}
use spot_exchange.OrderBook.Match.{find-first}

-- Nothing is left of a level that is smaller than the order.
pub more-left :
    (q : ℕ) (os : List Order) → 0 < left_qty q os → (left_orders q os ≡ []) × (taken q os ≡ os)
unfolding left_qty left_orders taken
more-left q [] h = (refl, refl)
more-left q (o ∷ os) h = ground (arith, more-left (q - o.current_quantity) os)

book_of-depleted :
    (side : Side) (k : ℕ) (level : Level) (rest : Book) (m' : Limits) (b : OrderBook)
    → book_of side b ≡ (k, level) ∷ rest
    → with_book side (erase k (book_of side b)) (record b { limitorders = m' })
      ≡ with_book side rest (record b { limitorders = m' })
unfolding erase
book_of-depleted side k level rest m' b e =
    rw e (ap (λ l. with_book side l (record b { limitorders = m' })) (ground arith))

erase_first : (k : ℕ) (os : List Order) (ys : Orders) → erase k ((k, os) ∷ ys) ≡ ys
unfolding erase
erase_first k os ys = ground arith

pub Shrunk-fresh :
    (ptr : LevelPtr) (os : List Order) (m m' : Limits) (id : ℕ)
    → Shrunk ptr os m m'
    → find id m ≡ none
    → find id m' ≡ none
Shrunk-fresh ptr os m m' id sh e = ground (arith, sh.keys id)

pub level-gone :
    (b : OrderBook) (v : View) (side : Side) (k q : ℕ) (level : Level) (os : List Order)
    (rest : Book) (ys : Orders) (m' : Limits)
    → IsRep b v
    → orders_of side v ≡ (k, os) ∷ ys
    → book_of side b ≡ (k, level) ∷ rest
    → IsLevel b.limitorders side k level os
    → Shrunk (level_ptr side k) os b.limitorders m'
    → 0 < left_qty q os
    → IsRep (with_book side rest (record b { limitorders = m' })) (with_orders side ys v)
level-gone b v side k q level os rest ys m' rep best e is sh more =
    let (none_left, all_taken) = more-left q os more in
    let found : find k (orders_of side v) ≡ some os = rw best (find-first k os ys) in
    let rep' =
      depleted-IsRep b v side k level os q m' rep found is (rw all_taken sh) (rw none_left tt) in
    subst (λ c. IsRep c (with_orders side ys v)) (book_of-depleted side k level rest m' b e)
      (subst
        (λ zs.
          IsRep (with_book side (erase k (book_of side b)) (record b { limitorders = m' }))
            (with_orders side zs v))
        (ap (erase k) best ∙ erase_first k os ys)
        (subst
          (λ l.
            IsRep
              (with_book side (book_after k level l (book_of side b))
                (record b { limitorders = m' }))
              (with_orders side (or_erase k l (orders_of side v)) v))
          none_left rep'))
