-- ===== src/OrderBook/Deplete.antt =====
-- The book after an order has taken what it wants from one level.
use spot_exchange.Prelude.{
  ℕ, ◌-◌, ◌≡◌, refl, sym, ◌∙◌, subst, true, false, ◌||◌, inl, inr, none, some, List, [], ◌∷◌, arith,
  Distinct, find, erase, erase-Below_self,
}
use spot_exchange.Info.{Order}
use spot_exchange.Limits.{Side, Limit, Level, Limits}
use spot_exchange.Limits.Segment.{has, Apart, first_or, last_or, linked, Seg, known}
use spot_exchange.Limits.Splice.{Seg-at}
use spot_exchange.Matching.Fifo.{left_orders}
use spot_exchange.Matching.Remove.{Shrunk}
use spot_exchange.Matching.Full.{book_after}
use spot_exchange.Matching.InLevel.{taken}
use spot_exchange.Matching.Left.{last_or-left, has-left_orders, has-taken, left_orders-Apart}
use spot_exchange.OrderBook.{OrderBook, book_of, with_book}
use spot_exchange.OrderBook.View.{
  AllAt, Orders, View, orders_of, with_orders, level_ptr, IsLevel, Levels, has_any, IsRep, or_erase,
}
use spot_exchange.OrderBook.View.Levels.{Sorted-Distinct, Levels-assign, Levels-erase}
use spot_exchange.OrderBook.View.Members.{has_any-find, Levels-not-has}
use spot_exchange.OrderBook.View.Update.{
  opposite, opposite-ne, Levels-frame_side, IsRep-update, IsRep-listed, has-split,
}
use spot_exchange.OrderBook.Sides.{
  book_of-with_book, book_of-with_book_ne, book_of-limits, limitorders-with_book,
}
use spot_exchange.OrderBook.Places.{has_any-or_erase, Sorted-or_erase, drop_listed}

pub left_orders-AllAt :
    (side : Side) (price q : ℕ) (os : List Order)
    → AllAt side price os
    → AllAt side price (left_orders q os)
unfolding left_orders
left_orders-AllAt side price q [] a = tt
left_orders-AllAt side price q (o ∷ os) a =
    ground (arith, left_orders-AllAt side price (q - o.current_quantity) os a.1)

module _ (b : OrderBook) (v : View) (side : Side) (k : ℕ) (level : Level) (os : List Order) (q : ℕ)
    (m' : Limits) (rep : IsRep b v) (found_orders : find k (orders_of side v) ≡ some os)
    (is : IsLevel b.limitorders side k level os)
    (shrunk : Shrunk (level_ptr side k) (taken q os) b.limitorders m')
    (seg : Seg m' (level_ptr side k) none (left_orders q os) none) where
  abbrev ys : Orders
  ys = orders_of side v

  ys-Distinct : Distinct ys
  ys-Distinct = Sorted-Distinct side ys (rep.sorted side)

  level_left :
      (zs : List Order)
      → left_orders q os ≡ zs
      → Levels m' side (book_after k level zs (book_of side b)) (or_erase k zs ys)
  level_left [] e =
      Levels-erase b.limitorders m' side k (book_of side b) ys shrunk.spares ys-Distinct
        (rep.levels side)
  level_left (z ∷ zs) e =
      Levels-assign b.limitorders m' side k _ (z ∷ zs) (book_of side b) ys shrunk.spares ys-Distinct
        (record {
          head = refl;
          tail = is.tail ∙ last_or-left q os (z ∷ zs) e (λ h. cc);
          seg = subst (λ l. Seg m' (level_ptr side k) none l none) e seg;
          apart = subst Apart e (left_orders-Apart q os is.apart);
          at = subst (AllAt side k) e (left_orders-AllAt side k q os is.at);
          ne_nil = λ h. cc;
        })
        (rep.levels side)

  module _ (j : ℕ) (hit : has j (taken q os) ≡ true) where
    limit_of :
        (l : Limit) × (find j b.limitorders ≡ some l) × (l.current_level ≡ some (level_ptr side k))
    limit_of =
        let (xs, o, zs, e, same) = has-split j os (has-taken q j os hit) in
        (
          linked (level_ptr side k) o (last_or none xs) (first_or none zs),
          rw (← same) (
              Seg-at b.limitorders (level_ptr side k) none none xs o zs
                (subst (λ l. Seg b.limitorders (level_ptr side k) none l none) e is.seg)),
          refl,
        )

    absent : has_any j (erase k ys) ≡ false
    absent =
        let (l, found, at) = limit_of in
        Levels-not-has b.limitorders side j l (level_ptr side k) (erase k (book_of side b))
          (erase k ys) found at (inr (erase-Below_self k ys ys-Distinct))
          (Levels-erase b.limitorders b.limitorders side k (book_of side b) ys (λ other xs ne s. s)
            ys-Distinct (rep.levels side))

    absent_opposite : has_any j (orders_of (opposite side) v) ≡ false
    absent_opposite =
        let (l, found, at) = limit_of in
        Levels-not-has b.limitorders (opposite side) j l (level_ptr side k)
          (book_of (opposite side) b) (orders_of (opposite side) v) found at
          (inl λ e. opposite-ne side (sym e)) (rep.levels (opposite side))

  listed :
      (j : ℕ)
      → known j m'
        ≡ (has_any j (or_erase k (left_orders q os) ys) || has_any j (orders_of (opposite side) v))
  listed j =
      drop_listed (has j (taken q os)) (known j b.limitorders) (known j m') (has_any j ys)
        (has_any j (or_erase k (left_orders q os) ys)) (has j os) (has j (left_orders q os))
        (has_any j (erase k ys)) (has_any j (orders_of (opposite side) v)) (shrunk.keys j)
        (IsRep-listed side b v j rep) (has_any-find j k os ys found_orders)
        (has_any-or_erase j k os (left_orders q os) ys found_orders)
        (has-left_orders q j os is.apart) (absent j) (absent_opposite j)

  abbrev pub depleted : OrderBook
  depleted =
      with_book side (book_after k level (left_orders q os) (book_of side b))
        (record b { limitorders = m' })

  pub depleted-IsRep : IsRep depleted (with_orders side (or_erase k (left_orders q os) ys) v)
  depleted-IsRep =
      let m_is =
        limitorders-with_book side (book_after k level (left_orders q os) (book_of side b))
          (record b { limitorders = m' }) in
      IsRep-update side b depleted v (or_erase k (left_orders q os) ys) rep
        (rw m_is shrunk.distinct)
        (rw (m_is, book_of-with_book) (level_left (left_orders q os) refl))
        (rw
          (
            m_is,
            book_of-with_book_ne side (opposite side)
                (book_after k level (left_orders q os) (book_of side b))
                (record b { limitorders = m' }) (opposite-ne side),
            book_of-limits (opposite side) m' b,
          )
          (Levels-frame_side b.limitorders m' side (opposite side) k _ _ shrunk.spares
            (opposite-ne side) (rep.levels (opposite side))))
        (Sorted-or_erase side k (left_orders q os) ys (rep.sorted side)) λ j. rw m_is (listed j)
