-- ===== src/OrderBook/Denied.antt =====
-- Cancel requests by another user than the owner, or for an order that is not there.
use spot_exchange.Prelude.{
  ℕ, ◌≡◌, ap, ◌∙◌, Bool, true, false, ◌&&◌, ◌||◌, some, List, [], ◌∷◌, ◌++◌, arith, ◌==◌,
  if◌then◌else◌, Bool-cases, Option-cases, inl, inr, find,
}
use spot_exchange.Prelude.Run.{ok}
use spot_exchange.Info.{Order, CancelOrder}
use spot_exchange.Messages.{send_rejection, order_not_found, wrong_user_id}
use spot_exchange.Limits.{Side, ask, bid, Limit}
use spot_exchange.OrderBook.{OrderBook, cancel_order}
use spot_exchange.OrderBook.View.{Orders, View, orders_of, has_any, IsRep}
use spot_exchange.OrderBook.Places.{place_of, Place-limit}
use spot_exchange.OrderBook.Cancel.{cancel_order-rejects}

-- The user has an order of that ID among the orders.
abbrev pub has_own : ℕ → ℕ → List Order → Bool
has_own user id [] = false
has_own user id (o ∷ os) = (o.order_id == id && o.user_id == user) || has_own user id os

abbrev pub owns_any : ℕ → ℕ → Orders → Bool
owns_any user id [] = false
owns_any user id ((p, os) ∷ ys) = has_own user id os || owns_any user id ys

abbrev pub listed : ℕ → View → Bool
listed id v = has_any id v.asks || has_any id v.bids

abbrev pub owns : ℕ → ℕ → View → Bool
owns user id v = owns_any user id v.asks || owns_any user id v.bids

has_own-at :
    (user id : ℕ) (xs : List Order) (o : Order) (zs : List Order)
    → o.order_id ≡ id
    → o.user_id ≡ user
    → has_own user id (xs ++ o ∷ zs) ≡ true
has_own-at user id [] o zs e f = ground arith
has_own-at user id (x ∷ xs) o zs e f = ground (arith, has_own-at user id xs o zs e f)

owns_any-find :
    (user id p : ℕ) (os : List Order) (ys : Orders)
    → find p ys ≡ some os
    → has_own user id os ≡ true
    → owns_any user id ys ≡ true
unfolding find
owns_any-find user id p os [] e h = cc
owns_any-find user id p os ((q, xs) ∷ ys) e h = ground (arith, owns_any-find user id p os ys)

owns-side :
    (side : Side) (user id : ℕ) (v : View)
    → owns_any user id (orders_of side v) ≡ true
    → owns user id v ≡ true
owns-side ask user id v h = ground arith
owns-side bid user id v h = ground arith

module _ (now : ℕ) (c : CancelOrder) (b : OrderBook) (v : View) (rep : IsRep b v) where
  -- The owner of a limit of the book owns it in the view.
  owner-owns :
      (limit : Limit)
      → find c.order_id b.limitorders ≡ some limit
      → limit.order.user_id ≡ c.user_id
      → owns c.user_id c.order_id v ≡ true
  owner-owns limit e own =
      let p = place_of b v c.order_id limit rep e in
      let same : p.order ≡ limit.order = ground (arith, Place-limit b v c.order_id p) in
      owns-side p.side c.user_id c.order_id v (
        owns_any-find c.user_id c.order_id p.price _ _ p.found_orders (
          has_own-at c.user_id c.order_id p.front p.order p.rest p.same
            (ap (λ (o : Order). o.user_id) same ∙ own)))

  -- In a book that stands for a view in which the sender has no order of the requested ID, a cancel
  -- request changes nothing and gets one rejection: for a wrong user if any order of either side has
  -- that ID, and for an unknown order otherwise.
  pub cancel_order-denied :
      owns c.user_id c.order_id v ≡ false
      → cancel_order now c b
        ≡ ok (
          b,
          send_rejection c.connection
                (if listed c.order_id v then wrong_user_id else order_not_found)
                c.common
              ∷ [],
        )
  cancel_order-denied stranger = elim (Option-cases (find c.order_id b.limitorders)) [
    | inl e ↦
        let gone : listed c.order_id v ≡ false = ground (arith, rep.listed c.order_id) in
        rw gone (cancel_order-rejects now c b order_not_found (ground arith))
    | inr (limit, e) ↦
        let there : listed c.order_id v ≡ true = ground (arith, rep.listed c.order_id) in
        rw there (
          cancel_order-rejects now c b wrong_user_id
            (elim (Bool-cases (limit.order.user_id == c.user_id)) [
              | inl own ↦ let wrong = owner-owns limit e (ground arith) in cc
              | inr other ↦ ground arith
            ]))
  ]
