-- ===== src/OrderBook/Places.antt =====
-- Where the orders of a book stand, and what the view holds after one has left.
use spot_exchange.Prelude.{
  ℕ, ◌≡◌, ◌≢◌, refl, ap, subst, ◌∙◌, inl, inr, Bool, true, false, ◌||◌, none, some, List, [], ◌∷◌,
  ◌++◌, arith, ◌==◌, if◌then◌else◌, Bool-cases, find, erase, assign,
}
use spot_exchange.Info.{Order}
use spot_exchange.Limits.{Side, ask, bid, Limit, Level}
use spot_exchange.Limits.Segment.{has, first_or, last_or, linked}
use spot_exchange.Limits.Splice.{Seg-at}
use spot_exchange.OrderBook.{OrderBook, book_of}
use spot_exchange.OrderBook.View.{
  Orders, View, orders_of, with_orders, level_ptr, IsLevel, Sorted, has_any, IsRep, take_order,
  or_erase,
}
use spot_exchange.OrderBook.View.Levels.{
  Sorted-Distinct, Sorted-assign, Sorted-erase, Levels-find_orders,
}
use spot_exchange.OrderBook.View.Members.{has_any-assign, has_any-some}
use spot_exchange.OrderBook.View.Update.{has-split}

-- Where an ID of the book stands.
pub record Place (b : OrderBook) (v : View) (id : ℕ) : Type 0 where
  pub side : Side
  pub price : ℕ
  pub level : Level
  pub front : List Order
  pub order : Order
  pub rest : List Order
  pub same : order.order_id ≡ id
  pub found : find price (book_of side b) ≡ some level
  pub found_orders : find price (orders_of side v) ≡ some (front ++ order ∷ rest)
  pub is : IsLevel b.limitorders side price level (front ++ order ∷ rest)

pub place_on :
    (b : OrderBook) (v : View) (id : ℕ) (side : Side)
    → IsRep b v
    → has_any id (orders_of side v) ≡ true
    → Place b v id
place_on b v id side rep e =
    let ys = orders_of side v in
    let (p, os, found, here) = has_any-some id ys (Sorted-Distinct side ys (rep.sorted side)) e in
    let (level, found', is) =
      Levels-find_orders b.limitorders side p (book_of side b) ys os (rep.levels side) found in
    let (xs, o, zs, e', same) = has-split id os here in
    record {
      side = side;
      price = p;
      level = level;
      front = xs;
      order = o;
      rest = zs;
      same = same;
      found = found';
      found_orders = found ∙ ap some e';
      is = subst (IsLevel b.limitorders side p level) e' is;
    }

-- Every limit of the book stands in the list of a level.
pub place_of :
    (b : OrderBook) (v : View) (id : ℕ) (l : Limit)
    → IsRep b v
    → find id b.limitorders ≡ some l
    → Place b v id
place_of b v id l rep e = elim (Bool-cases (has_any id v.asks)) [
  | inl here ↦ place_on b v id ask rep here
  | inr there ↦ place_on b v id bid rep (ground (arith, rep.listed id))
]

pub Place-limit :
    (b : OrderBook) (v : View) (id : ℕ) (p : Place b v id)
    → find id b.limitorders
      ≡ some
          (linked (level_ptr p.side p.price) p.order (last_or none p.front) (first_or none p.rest))
Place-limit b v id p =
    rw (← p.same)
      (Seg-at b.limitorders (level_ptr p.side p.price) none none p.front p.order p.rest p.is.seg)

-- `o` leaves the view.
abbrev pub cancel_at : Side → Order → View → View
cancel_at side o v = with_orders side (take_order o.order_id o.price (orders_of side v)) v

pub or_erase-nil : (p : ℕ) (os : List Order) (ys : Orders) → os ≡ [] → or_erase p os ys ≡ erase p ys
or_erase-nil p os ys e = rw e

pub or_erase-ne_nil :
    (p : ℕ) (os : List Order) (ys : Orders) → os ≢ [] → or_erase p os ys ≡ assign p os ys
or_erase-ne_nil p [] ys ne = absurd (ne refl)
or_erase-ne_nil p (o ∷ os) ys ne = refl

pub has_any-or_erase :
    (id p : ℕ) (os os' : List Order) (ys : Orders)
    → find p ys ≡ some os
    → has_any id (or_erase p os' ys) ≡ (has id os' || has_any id (erase p ys))
has_any-or_erase id p os [] ys e = refl
has_any-or_erase id p os (o ∷ os') ys e = has_any-assign id p os (o ∷ os') ys e

pub Sorted-or_erase :
    (side : Side) (p : ℕ) (os : List Order) (ys : Orders)
    → Sorted side ys
    → Sorted side (or_erase p os ys)
Sorted-or_erase side p [] ys s = Sorted-erase side p [] ys s
Sorted-or_erase side p (o ∷ os) ys s = Sorted-assign side p (o ∷ os) ys s

pub ==→eq : (a b : ℕ) → (a == b) ≡ true → a ≡ b
==→eq a b e = ground arith

pub eq→== : (a b : ℕ) → a ≡ b → (a == b) ≡ true
eq→== a b e = ground arith

pub drop_listed :
    (hit k k' a a' h h' e o : Bool)
    → k' ≡ (if hit then false else k)
    → k ≡ (a || o)
    → a ≡ (h || e)
    → a' ≡ (h' || e)
    → h' ≡ (if hit then false else h)
    → (hit ≡ true → e ≡ false)
    → (hit ≡ true → o ≡ false)
    → k' ≡ (a' || o)
drop_listed true k k' a a' h h' e o p q r s t out out' = rw (p, s, t, out refl, out' refl)
drop_listed false k k' a a' h h' e o p q r s t out out' = rw (p, q, r, s, t)
