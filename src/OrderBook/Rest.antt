-- ===== src/OrderBook/Rest.antt =====
-- `placeOrderInBook` against the view, and `addOrder` of an order that does not cross.
use spot_exchange.Prelude.{
  ℕ, ◌<◌, ◌≡◌, refl, ap, subst, ◌∙◌, inl, inr, ◌||◌, none, some, List, [], ◌∷◌, ◌++◌, arith, ◌==◌,
  if◌then◌else◌, Option-cases, find, assign, emplace_by, find-none-Below,
}
use spot_exchange.Prelude.Run.{ok}
use spot_exchange.Info.{Order}
use spot_exchange.Limits.{Side, Level, Limits, Book, new_level}
use spot_exchange.Limits.Segment.{has, has-append}
use spot_exchange.OrderBook.{
  OrderBook, book_of, with_book, before, place_order_in_book, place_limit_in_book_level,
  get_side_level,
}
use spot_exchange.OrderBook.View.{
  Orders, View, orders_of, with_orders, level_ptr, side_code, IsLevel, Levels, Sorted, has_any,
  IsRep, put_order,
}
use spot_exchange.OrderBook.View.Levels.{
  Sorted-Distinct, Sorted-assign, Sorted-emplace, Levels-find, Levels-find-none, Levels-assign,
  Levels-emplace, Levels-Below, assign-emplace,
}
use spot_exchange.OrderBook.View.Members.{has_any-find, has_any-assign, has_any-emplace}
use spot_exchange.OrderBook.View.Update.{
  opposite, opposite-ne, Levels-frame_side, IsRep-update, IsRep-listed,
}
use spot_exchange.OrderBook.Sides.{
  book_of-limits, book_of-with_book, book_of-with_book_ne, limitorders-with_book, snoc-cases,
}
use spot_exchange.OrderBook.Place.{Added, place_limit_first, place_limit_last}

IsLevel-cong :
    (m : Limits) (side : Side) (price : ℕ) (level level' : Level) (os : List Order)
    → level'.head ≡ level.head
    → level'.tail ≡ level.tail
    → IsLevel m side price level os
    → IsLevel m side price level' os
IsLevel-cong m side price level level' os h t is = record {
  head = h ∙ is.head;
  tail = t ∙ is.tail;
  seg = is.seg;
  apart = is.apart;
  at = is.at;
  ne_nil = is.ne_nil;
}

-- What an order must be to rest on a side of the book.
pub record CanRest (side : Side) (o : Order) (b : OrderBook) : Type 0 where
  pub fresh : find o.order_id b.limitorders ≡ none
  pub code : o.is_buy_side ≡ side_code side
  pub positive : 0 < o.current_quantity

module _ (side : Side) (o : Order) (b : OrderBook) (v : View) (rep : IsRep b v)
    (can : CanRest side o b) where
  abbrev ys : Orders
  ys = orders_of side v

  abbrev books : Book
  books = book_of side b

  abbrev flagged : Level → Level
  flagged level = record level { is_buy_side = if o.is_buy_side == 0 then 0 else 1 }

  at : (o.price ≡ o.price) × (o.is_buy_side ≡ side_code side) × (0 < o.current_quantity)
  at = (refl, can.code, can.positive)

  -- The result, from the limits and the levels of the side after the step.
  finish :
      (m' : Limits) (levels : Book) (ys' : Orders)
      → Added (level_ptr side o.price) o.order_id b.limitorders m'
      → Levels m' side levels ys'
      → Sorted side ys'
      → ((j : ℕ) → has_any j ys' ≡ (j == o.order_id || has_any j ys))
      → IsRep (with_book side levels (record b { limitorders = m' })) (with_orders side ys' v)
  finish m' levels ys' added this sorted has =
      let b₁ = record b { limitorders = m' } in
      let same = limitorders-with_book side levels b₁ in
      IsRep-update side b (with_book side levels b₁) v ys' rep (rw same added.distinct)
        (rw (same, book_of-with_book side levels b₁) this)
        (rw
          (
            same,
            book_of-with_book_ne side (opposite side) levels b₁ (opposite-ne side),
            book_of-limits (opposite side) m' b,
          )
          (Levels-frame_side b.limitorders m' side (opposite side) o.price _ _ added.spares
            (opposite-ne side) (rep.levels (opposite side))))
        sorted (λ j. rw same (ground (arith, added.keys j, IsRep-listed side b v j rep, has j)))

  place_run :
      (levels : Book) (level level' : Level) (m' : Limits)
      → get_side_level side o.price books ≡ (level, levels)
      → place_limit_in_book_level side o.price (flagged level) o b.limitorders ≡ ok (level', m')
      → place_order_in_book side o b
        ≡ ok (with_book side (assign o.price level' levels) (record b { limitorders = m' }))
  unfolding place_order_in_book
  place_run levels level level' m' e run = rw (e, run)

  side_level_new :
      find o.price books ≡ none
      → get_side_level side o.price books
        ≡ (new_level o.price, emplace_by (before side) o.price (new_level o.price) books)
  unfolding get_side_level
  side_level_new e = rw (e, get_side_level)

  side_level_old :
      (level : Level)
      → find o.price books ≡ some level
      → get_side_level side o.price books ≡ (level, books)
  unfolding get_side_level
  side_level_old level e = rw (e, get_side_level)

  place_new :
      find o.price books ≡ none
      → (b' : OrderBook) × (place_order_in_book side o b ≡ ok b')
        × IsRep b' (with_orders side (put_order side o ys) v)
  unfolding put_order
  place_new e =
      let none_there = Levels-find-none b.limitorders side o.price books ys (rep.levels side) e in
      let below = find-none-Below o.price ys none_there in
      let (level', m', run, added, is) =
        place_limit_first b.limitorders side o.price rep.distinct o can.fresh at
          (flagged (new_level o.price)) refl in
      (
        with_book side
            (assign o.price level' (emplace_by (before side) o.price (new_level o.price) books))
            (record b { limitorders = m' }),
        place_run _ (new_level o.price) level' m' (side_level_new e) run,
        rw
            (
              assign-emplace side o.price (new_level o.price) level' books
                  (Levels-Below b.limitorders side o.price books ys (rep.levels side) below),
              none_there,
              put_order,
            )
            (finish m' _ (emplace_by (before side) o.price (o ∷ []) ys) added
              (Levels-emplace b.limitorders m' side o.price level' (o ∷ []) books ys added.spares
                below is (rep.levels side))
              (Sorted-emplace side o.price (o ∷ []) ys (rep.sorted side))
              (λ j. ground (arith, has_any-emplace j o.price side (o ∷ []) ys below))),
      )

  has_put :
      (j : ℕ) (xs : List Order) (x : Order)
      → find o.price ys ≡ some (xs ++ x ∷ [])
      → has_any j (assign o.price ((xs ++ x ∷ []) ++ o ∷ []) ys) ≡ (j == o.order_id || has_any j ys)
  has_put j xs x e = ground (
    arith,
    has_any-assign j o.price (xs ++ x ∷ []) ((xs ++ x ∷ []) ++ o ∷ []) ys e,
    has_any-find j o.price (xs ++ x ∷ []) ys e,
    has-append j (xs ++ x ∷ []) (o ∷ []),
  )

  place_old :
      (level : Level)
      → find o.price books ≡ some level
      → (b' : OrderBook) × (place_order_in_book side o b ≡ ok b')
        × IsRep b' (with_orders side (put_order side o ys) v)
  unfolding put_order
  place_old level e =
      let (os, found, is) =
        Levels-find b.limitorders side o.price books ys level (rep.levels side) e in
      elim (snoc-cases os) [
        | inl none_left ↦ absurd (is.ne_nil none_left)
        | inr (xs, x, e') ↦
            let (level', m', run, added, is') =
              place_limit_last b.limitorders side o.price rep.distinct o can.fresh at
                (flagged level) xs x
                (subst (IsLevel b.limitorders side o.price (flagged level)) e' (
                  IsLevel-cong b.limitorders side o.price level (flagged level) os refl refl is)) in
            let os' = (xs ++ x ∷ []) ++ o ∷ [] in
            (
              with_book side (assign o.price level' books) (record b { limitorders = m' }),
              place_run books level level' m' (side_level_old level e) run,
              rw (found ∙ ap some e', put_order)
                  (finish m' _ (assign o.price os' ys) added
                    (Levels-assign b.limitorders m' side o.price level' os' books ys added.spares
                      (Sorted-Distinct side ys (rep.sorted side)) is' (rep.levels side))
                    (Sorted-assign side o.price os' ys (rep.sorted side))
                    (λ j. has_put j xs x (found ∙ ap some e'))),
            )
      ]

  -- The order goes behind the others of its price.
  pub place_order_in_book-IsRep :
      (b' : OrderBook) × (place_order_in_book side o b ≡ ok b')
      × IsRep b' (with_orders side (put_order side o ys) v)
  place_order_in_book-IsRep = elim (Option-cases (find o.price books)) [
    | inl e ↦ place_new e
    | inr (level, e) ↦ place_old level e
  ]
