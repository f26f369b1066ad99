-- ===== src/OrderBook/Walk/Add.antt =====
-- `addOrder` with any order that meets the other side, through any number of its prices.
use spot_exchange.Prelude.{
  ℕ, ◌-◌, ◌<◌, ◌≡◌, refl, sym, ap, ◌∙◌, subst, inl, inr, ◌⊎◌, Bool, true, false, ◌||◌, none, List,
  [], ◌∷◌, ◌++◌, arith, ◌==◌, find,
}
use spot_exchange.Prelude.Run.{ok}
use spot_exchange.Info.{Order}
use spot_exchange.Limits.{Side, ask, bid, Limits, Book}
use spot_exchange.Limits.Segment.{has, known}
use spot_exchange.Limits.Replace.{with_qty}
use spot_exchange.Matching.{Match, fifo_match}
use spot_exchange.Matching.Fifo.{left_qty, left_orders}
use spot_exchange.OrderBook.{
  OrderBook, Junk, book_of, with_book, order_added, rest_order, add_order, match_or_rest,
  communicate_match_results, possible_matches,
}
use spot_exchange.OrderBook.View.{Orders, View, orders_of, with_orders, has_any, IsRep, put_order}
use spot_exchange.OrderBook.View.Update.{opposite, IsRep-listed}
use spot_exchange.OrderBook.Add.{crosses, add_order-side, possible_matches-crosses}
use spot_exchange.OrderBook.Rest.{CanRest, place_order_in_book-IsRep}
use spot_exchange.OrderBook.Walk.{
  rest_of, head_lost, side_left, side_fills, keep_level, fix_head, healed, Countable,
}
use spot_exchange.OrderBook.Walk.Start.{rest_of-head_lost}
use spot_exchange.OrderBook.Walk.Loop.{Walked}
use spot_exchange.OrderBook.Walk.Ends.{fifo_match-walks, orders_of-with_orders}
use spot_exchange.Matching.FirstLevel.{start}

has-left_orders : (q j : ℕ) (os : List Order) → has j (left_orders q os) ≡ true → has j os ≡ true
unfolding left_orders
has-left_orders q j [] h = h
has-left_orders q j (o ∷ os) h = ground (arith, has-left_orders (q - o.current_quantity) j os)

has_any-keep_level :
    (j k : ℕ) (zs : List Order) (ys : Orders)
    → has_any j (keep_level k zs ys) ≡ (has j zs || has_any j ys)
has_any-keep_level j k [] ys = refl
has_any-keep_level j k (z ∷ zs) ys = refl

-- An order that is left was there before.
has_any-side_left :
    (side : Side) (price q j : ℕ) (ys : Orders)
    → has_any j (side_left side price q ys) ≡ true
    → has_any j ys ≡ true
unfolding side_left
has_any-side_left side price q j [] h = h
has_any-side_left side price q j ((k, os) ∷ ys) h = ground (
  arith,
  has_any-keep_level j k (left_orders q os) ys,
  has-left_orders q j os,
  has_any-side_left side price (left_qty q os) j ys,
)

not_any : (a b c d : Bool) → (a || b) ≡ false → (c ≡ true → a ≡ true) → d ≡ b → (c || d) ≡ false
not_any a b c d e f g = ground arith

crosses-first :
    (side : Side) (o : Order) (ys : Orders)
    → crosses side o ys ≡ true
    → (k : ℕ) × (os : List Order) × (rest : Orders) × (ys ≡ (k, os) ∷ rest)
unfolding crosses
crosses-first side o [] e = cc
crosses-first side o ((k, os) ∷ ys) e = (k, os, ys, refl)

orders_of-opposite-with_orders :
    (side : Side) (ys : Orders) (v : View)
    → orders_of (opposite side) (with_orders side ys v) ≡ orders_of (opposite side) v
orders_of-opposite-with_orders ask ys v = refl
orders_of-opposite-with_orders bid ys v = refl

known-false : (id : ℕ) (m : Limits) → known id m ≡ false → find id m ≡ none
known-false id m e = ground arith

-- An order ID that is not in the book is not in what is left of it.
stays_fresh :
    (side : Side) (b b₁ : OrderBook) (v : View) (price q id : ℕ)
    → IsRep b v
    → IsRep b₁ (with_orders side (side_left side price q (orders_of side v)) v)
    → find id b.limitorders ≡ none
    → find id b₁.limitorders ≡ none
stays_fresh side b b₁ v price q id rep rep₁ e =
    let left = side_left side price q (orders_of side v) in
    known-false id b₁.limitorders (
      IsRep-listed side b₁ (with_orders side left v) id rep₁
      ∙ not_any (has_any id (orders_of side v)) (has_any id (orders_of (opposite side) v))
          (has_any id (orders_of side (with_orders side left v)))
          (has_any id (orders_of (opposite side) (with_orders side left v)))
          (sym (IsRep-listed side b v id rep) ∙ ground arith)
          (λ h.
            has_any-side_left side price q id (orders_of side v)
              (sym (ap (has_any id) (orders_of-with_orders side left v)) ∙ h))
          (ap (has_any id) (orders_of-opposite-with_orders side left v)))

-- What `addOrder` computes before it looks at what is left of the order.
module _ (junk : Junk) (now : ℕ) (side : Side) (o : Order) (b : OrderBook) (v : View)
    (rep : IsRep b v) (can : CanRest side o b)
    (meets : crosses (opposite side) o (orders_of (opposite side) v) ≡ true)
    (short : Countable (orders_of (opposite side) v)) where
  abbrev other : Side
  other = opposite side

  abbrev ys : Orders
  ys = orders_of other v

  abbrev left : Orders
  left = side_left other o.price o.current_quantity ys

  walk :
      (k : ℕ) × (t : Match) × (fifo_match junk.level now other o (book_of other b) b.limitorders
        ≡ ok t)
      × Walked false other b v ys (start now o k (book_of other b) b.limitorders) t
  walk =
      let (k, os, rest, e) = crosses-first other o ys meets in
      let (t, run, w) =
        fifo_match-walks junk.level now other o b v k os rest rep e (subst Countable e short)
          can.positive in
      (
        k,
        t,
        run,
        subst (λ ys. Walked false other b v ys (start now o k (book_of other b) b.limitorders) t)
            (sym e) w,
      )

  crossed : possible_matches other junk.price (book_of other b) o ≡ true
  crossed =
      possible_matches-crosses b.limitorders other junk.price o (book_of other b) ys
        (rep.levels other)
      ∙ meets

healed-with_book :
    (side : Side) (l : Book) (xs : Orders) (b : OrderBook)
    → healed side xs (with_book side l b) ≡ with_book side (fix_head xs l) b
healed-with_book ask l xs b = refl
healed-with_book bid l xs b = refl

-- A book whose best head is right needs no healing.
healed-kept :
    (side : Side) (l : Book) (xs : Orders) (b : OrderBook)
    → l ≡ fix_head xs l
    → with_book side l b ≡ healed side xs (with_book side l b)
healed-kept side l xs b e = ap (λ l. with_book side l b) e ∙ sym (healed-with_book side l xs b)

module _ (junk : Junk) (now : ℕ) (side : Side) (o : Order) (b : OrderBook) (v : View) where
  -- If the other side has fewer than 2^16 orders at each price: a new order (with an ID not in the
  -- book, a side and a quantity above 0) that it fills, whatever the number of prices it goes
  -- through, ends with no quantity and does not rest. The fills that are sent, and the orders that
  -- are left, are those of the walk from the best price on, first in, first out at each price. The
  -- book stands for what is left once the head of the best level is put right; and it stands for it
  -- as it is, unless `head_lost` holds: the order was filled at a price behind the best, and took
  -- the first order there and left others. Storage freed under `book_lvl` is taken to keep what was
  -- last written to it.
  pub add_order-walks :
      IsRep b v
      → CanRest side o b
      → crosses (opposite side) o (orders_of (opposite side) v) ≡ true
      → Countable (orders_of (opposite side) v)
      → rest_of (opposite side) o.price o.current_quantity (orders_of (opposite side) v) ≡ 0
      → let ys = orders_of (opposite side) v in
        let left = side_left (opposite side) o.price o.current_quantity ys in
        let o' = with_qty 0 o in
        (b' : OrderBook) × (add_order junk now o b
          ≡ ok (
            b',
            o',
            communicate_match_results (side_fills (opposite side) now o o.current_quantity ys) o',
          ))
        × IsRep (healed (opposite side) left b') (with_orders (opposite side) left v)
        × ((b' ≡ healed (opposite side) left b')
            ⊎ (head_lost false (opposite side) o.price o.current_quantity ys ≡ true))
  unfolding match_or_rest
  add_order-walks rep can meets short full =
      let other = opposite side in
      let ys = orders_of other v in
      let left = side_left other o.price o.current_quantity ys in
      let (k, t, run, w) = walk junk now side o b v rep can meets short in
      let b' = record b { limitorders = t.limits } in
      let order : t.order ≡ with_qty 0 o = w.order ∙ ap (λ q. with_qty q o) full in
      (
        with_book other t.book b',
        rw
            (
              add_order-side junk now side o b can.fresh can.code,
              crossed junk now side o b v rep can meets short,
              run,
              order,
              w.fills,
            )
            refl,
        rw (healed-with_book other t.book left b') w.rep,
        elim w.kept [ inl e ↦ inl (healed-kept other t.book left b' e) | inr lost ↦ inr lost ],
      )

  -- If the other side has fewer than 2^16 orders at each price, and storage freed under `book_lvl`
  -- keeps what was last written to it: a new order (with an ID not in the book, a side and a
  -- quantity above 0) that is larger than all that it meets takes every level that its price
  -- allows, however many, and what is left of it rests behind the orders of its own price, in a
  -- book that stands for the result; the fills are sent first, in the order of the walk, and then
  -- the new order.
  pub add_order-sweeps :
      IsRep b v
      → CanRest side o b
      → crosses (opposite side) o (orders_of (opposite side) v) ≡ true
      → Countable (orders_of (opposite side) v)
      → 0 < rest_of (opposite side) o.price o.current_quantity (orders_of (opposite side) v)
      → let ys = orders_of (opposite side) v in
        let left = side_left (opposite side) o.price o.current_quantity ys in
        let o' = with_qty (rest_of (opposite side) o.price o.current_quantity ys) o in
        let v' = with_orders (opposite side) left v in
        (b' : OrderBook) × (add_order junk now o b
          ≡ ok (
            b',
            o',
            communicate_match_results (side_fills (opposite side) now o o.current_quantity ys) o'
                ++ order_added now o' ∷ [],
          ))
        × IsRep b' (with_orders side (put_order side o' (orders_of side v')) v')
  unfolding match_or_rest rest_order
  add_order-sweeps rep can meets short more =
      let other = opposite side in
      let ys = orders_of other v in
      let left = side_left other o.price o.current_quantity ys in
      let (k, t, run, w) = walk junk now side o b v rep can meets short in
      let o' = with_qty (rest_of other o.price o.current_quantity ys) o in
      let b' = record b { limitorders = t.limits } in
      let v' = with_orders other left v in
      let kept : t.book ≡ fix_head left t.book = elim w.kept [
        | inl e ↦ e
        | inr lost ↦ cc (rest_of-head_lost false other o.price o.current_quantity ys more)
      ] in
      let rep₁ : IsRep (with_book other t.book b') v' =
        subst (λ l. IsRep (with_book other l b') v') (sym kept) w.rep in
      let fresh : find o.order_id (with_book other t.book b').limitorders ≡ none =
        stays_fresh other b (with_book other t.book b') v o.price o.current_quantity o.order_id rep
          rep₁ can.fresh in
      let (b₂, placed, rep₂) =
        place_order_in_book-IsRep side o' (with_book other t.book b') v' rep₁
          (record { fresh = fresh; code = can.code; positive = more }) in
      let some_left : (rest_of other o.price o.current_quantity ys == 0) ≡ false = ground arith in
      (
        b₂,
        rw
            (
              add_order-side junk now side o b can.fresh can.code,
              crossed junk now side o b v rep can meets short,
              run,
              w.order,
              w.fills,
              some_left,
              placed,
            )
            refl,
        rep₂,
      )
