-- ===== src/OrderBook/Cancel.antt =====
-- `cancelOrder` against the view: what it takes out, what it sends, and what it refuses.
use spot_exchange.Prelude.{
  ℕ, ◌≡◌, ◌≢◌, refl, sym, ap, ◌∙◌, ◌⊎◌, inl, inr, false, ◌||◌, none, some, List, [], ◌∷◌, ◌++◌,
  arith, ◌==◌, if◌then◌else◌, Distinct, find, erase, assign, erase-Distinct, erase-Below_self,
  find-erase, Option,
}
use spot_exchange.Prelude.Run.{ok}
use spot_exchange.Info.{Order, CancelOrder}
use spot_exchange.Messages.{Rejection, order_not_found, wrong_user_id, send_rejection}
use spot_exchange.Limits.{LevelPtr, Limit, Level, Limits}
use spot_exchange.Limits.Segment.{
  has, first_or, last_or, linked, Seg, known, Spares, Seg-not-has, Seg-erase,
}
use spot_exchange.Limits.Edit.{known-erase}
use spot_exchange.Limits.Splice.{Seg-at}
use spot_exchange.Limits.Segment.{Apart-not-has}
use spot_exchange.OrderBook.{OrderBook, book_of, cancel_order, order_cancelled}
use spot_exchange.OrderBook.View.{
  Orders, View, orders_of, with_orders, level_ptr, IsLevel, Levels, has_any, IsRep, take_order,
  remove_order, or_erase, side_of, side_of-code,
}
use spot_exchange.OrderBook.View.Levels.{Sorted-Distinct, Levels-assign, Levels-erase}
use spot_exchange.OrderBook.View.Members.{has_any-find, Levels-not-has}
use spot_exchange.OrderBook.View.Update.{
  opposite, opposite-ne, Levels-frame_side, IsRep-update, IsRep-listed, has-drop, remove_order_lem,
}
use spot_exchange.OrderBook.Unlink.{Unlinked, unlink_lem}
use spot_exchange.OrderBook.Sides.{AllAt-at, book_of-limits}
use spot_exchange.OrderBook.Places.{
  Place, place_of, Place-limit, cancel_at, or_erase-nil, or_erase-ne_nil, has_any-or_erase,
  Sorted-or_erase, ==→eq, eq→==, drop_listed,
}

module _ (b b' : OrderBook) (v : View) (id : ℕ) (p : Place b v id) (rep : IsRep b v)
    (un : Unlinked p.side p.price p.order (p.front ++ p.rest) b b') where
  open p use {side, price, order, front, rest}

  abbrev os : List Order
  os = front ++ rest

  abbrev m' : Limits
  m' = erase order.order_id b'.limitorders

  abbrev ys : Orders
  ys = orders_of side v

  this :
      find order.order_id b.limitorders
      ≡ some (linked (level_ptr side price) order (last_or none front) (first_or none rest))
  this = Seg-at b.limitorders (level_ptr side price) none none front order rest p.is.seg

  out_of :
      (other : LevelPtr) (xs : List Order)
      → other ≢ level_ptr side price
      → Seg b.limitorders other none xs none
      → has order.order_id xs ≡ false
  out_of other xs ne s =
      Seg-not-has b.limitorders other none none xs order.order_id s _ this λ e. ne (ground arith)

  spares : Spares (level_ptr side price) b.limitorders m'
  spares other xs ne s =
      Seg-erase b'.limitorders other none none xs order.order_id un.edit.distinct
        (out_of other xs ne s) (un.edit.spares other xs ne s)

  ys-Distinct : Distinct ys
  ys-Distinct = Sorted-Distinct side ys (rep.sorted side)

  level_result :
      (os ≡ []) × (book_of side b' ≡ erase price (book_of side b))
        ⊎ ((level : Level) × (book_of side b' ≡ assign price level (book_of side b))
            × IsLevel m' side price level os)
      → Levels m' side (book_of side b') (or_erase price os ys)
  level_result (inl (none_left, e)) =
      rw (or_erase-nil price os ys none_left, e)
        (Levels-erase b.limitorders m' side price (book_of side b) ys spares ys-Distinct
          (rep.levels side))
  level_result (inr (level, e, is)) =
      rw (or_erase-ne_nil price os ys is.ne_nil, e)
        (Levels-assign b.limitorders m' side price level os (book_of side b) ys spares ys-Distinct
          is (rep.levels side))

  absent : has_any order.order_id (erase price ys) ≡ false
  absent =
      Levels-not-has b.limitorders side order.order_id _ (level_ptr side price)
        (erase price (book_of side b)) (erase price ys) this refl
        (inr (erase-Below_self price ys ys-Distinct))
        (Levels-erase b.limitorders b.limitorders side price (book_of side b) ys
          (λ other xs ne s. s) ys-Distinct (rep.levels side))

  absent_opposite : has_any order.order_id (orders_of (opposite side) v) ≡ false
  absent_opposite =
      Levels-not-has b.limitorders (opposite side) order.order_id _ (level_ptr side price)
        (book_of (opposite side) b) (orders_of (opposite side) v) this refl
        (inl λ e. opposite-ne side (sym e)) (rep.levels (opposite side))

  listed :
      (j : ℕ)
      → known j m' ≡ (has_any j (or_erase price os ys) || has_any j (orders_of (opposite side) v))
  listed j =
      drop_listed (j == order.order_id) (known j b.limitorders) (known j m') (has_any j ys)
        (has_any j (or_erase price os ys)) (has j (front ++ order ∷ rest)) (has j os)
        (has_any j (erase price ys)) (has_any j (orders_of (opposite side) v))
        (known-erase b'.limitorders order.order_id j un.edit.distinct
          ∙ ap (λ k. if j == order.order_id then false else k) (un.edit.keys j))
        (IsRep-listed side b v j rep)
        (has_any-find j price (front ++ order ∷ rest) ys p.found_orders)
        (has_any-or_erase j price (front ++ order ∷ rest) os ys p.found_orders)
        (has-drop j front order rest p.is.apart) (λ e. rw (==→eq j order.order_id e) absent)
        (λ e. rw (==→eq j order.order_id e) absent_opposite)

  -- The book without the order stands for the view without it.
  cancelled : IsRep (record b' { limitorders = m' }) (with_orders side (or_erase price os ys) v)
  cancelled =
      IsRep-update side b (record b' { limitorders = m' }) v (or_erase price os ys) rep
        (erase-Distinct order.order_id b'.limitorders un.edit.distinct)
        (rw (book_of-limits side m' b') (level_result un.level))
        (rw (book_of-limits (opposite side) m' b', un.other (opposite side) (opposite-ne side))
          (Levels-frame_side b.limitorders m' side (opposite side) price _ _ spares
            (opposite-ne side) (rep.levels (opposite side))))
        (Sorted-or_erase side price os ys (rep.sorted side)) listed

take_order_at :
    (id q p : ℕ) (os : List Order) (ys : Orders)
    → q ≡ p
    → find p ys ≡ some os
    → take_order id q ys ≡ or_erase p (remove_order id os) ys
unfolding take_order
take_order_at id q p xs zs e f =
    rw (e, f, take_order) (ap (λ k. or_erase k (remove_order id xs) zs) e)

module _ (now : ℕ) (c : CancelOrder) (b : OrderBook) (v : View) where
  take_order_lem :
      (p : Place b v c.order_id)
      → IsRep b v
      → take_order p.order.order_id p.order.price (orders_of p.side v)
        ≡ or_erase p.price (p.front ++ p.rest) (orders_of p.side v)
  take_order_lem p rep =
      take_order_at p.order.order_id p.order.price p.price _ (orders_of p.side v)
        (AllAt-at p.side p.price p.front p.order p.rest p.is.at).0 p.found_orders
      ∙ ap (λ os. or_erase p.price os (orders_of p.side v))
          (remove_order_lem p.front p.order p.rest
            (Apart-not-has p.order p.front p.rest p.is.apart))

  cancel_place :
      (p : Place b v c.order_id)
      → IsRep b v
      → p.order.user_id ≡ c.user_id
      → (b' : OrderBook) × (cancel_order now c b ≡ ok (b', order_cancelled now c ∷ []))
        × IsRep b' (cancel_at p.side p.order v)
        × (find c.order_id b'.limitorders ≡ none)
  unfolding cancel_order
  cancel_place p rep owner =
      let (b', run, un) =
        unlink_lem b p.side p.price p.level rep.distinct p.front p.order p.rest p.found p.is in
      (
        record b' { limitorders = erase c.order_id b'.limitorders },
        rw (Place-limit b v c.order_id p, cancel_order, eq→== p.order.user_id c.user_id owner, run),
        rw (take_order_lem p rep, ← p.same) (cancelled b b' v c.order_id p rep un),
        ground (arith, find-erase c.order_id c.order_id b'.limitorders un.edit.distinct),
      )

  -- When the sender owns the order, `cancelOrder` takes it out of the book and announces that; the
  -- order's level goes with its last order, and its ID is free again.
  pub cancel_order-IsRep :
      (limit : Limit)
      → IsRep b v
      → find c.order_id b.limitorders ≡ some limit
      → limit.order.user_id ≡ c.user_id
      → (b' : OrderBook) × (cancel_order now c b ≡ ok (b', order_cancelled now c ∷ []))
        × IsRep b' (cancel_at (side_of limit.order) limit.order v)
        × (find c.order_id b'.limitorders ≡ none)
  cancel_order-IsRep limit rep e owner =
      let p = place_of b v c.order_id limit rep e in
      let same : p.order ≡ limit.order = ground (arith, Place-limit b v c.order_id p) in
      rw
        (
          ← same,
          side_of-code p.side p.order (AllAt-at p.side p.price p.front p.order p.rest p.is.at).1,
        )
        (cancel_place p rep (ap (λ (o : Order). o.user_id) same ∙ owner))

-- Why a cancel request is refused, if it is.
abbrev pub cancel_refusal : CancelOrder → OrderBook → Option Rejection
cancel_refusal c b = elim (find c.order_id b.limitorders) [
  | none ↦ some order_not_found
  | some limit ↦ if limit.order.user_id == c.user_id then none else some wrong_user_id
]

-- A request for an order that is not there, or by another user than its owner, leaves the book alone
-- and is answered by one rejection, which says which of the two it is.
pub cancel_order-rejects :
    (now : ℕ) (c : CancelOrder) (b : OrderBook) (reason : Rejection)
    → cancel_refusal c b ≡ some reason
    → cancel_order now c b ≡ ok (b, send_rejection c.connection reason c.common ∷ [])
unfolding cancel_order
cancel_order-rejects now c b reason e = ground arith
