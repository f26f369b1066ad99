-- ===== src/OrderBook/View/Update.antt =====
-- A new representation from one that differs on a single side.
use spot_exchange.Prelude.{
  ℕ, ◌≡◌, ◌≢◌, refl, true, false, ◌||◌, List, [], ◌∷◌, ◌++◌, arith, ◌==◌, if◌then◌else◌, Bool-cases,
  inl, inr, Distinct,
}
use spot_exchange.Info.{Order}
use spot_exchange.Limits.{Side, ask, bid, Limits, Book}
use spot_exchange.Limits.Segment.{has, Apart, known, Spares, has-append}
use spot_exchange.OrderBook.{OrderBook, book_of}
use spot_exchange.OrderBook.View.{
  Orders, View, orders_of, with_orders, level_ptr, Levels, Sorted, has_any, IsRep, remove_order,
}

abbrev pub opposite : Side → Side
opposite ask = bid
opposite bid = ask

pub opposite-ne : (side : Side) → opposite side ≢ side
opposite-ne ask e = cc
opposite-ne bid e = cc

-- The levels of the other side.
pub Levels-frame_side :
    (m m' : Limits) (side other : Side) (k : ℕ) (ls : Book) (ys : Orders)
    → Spares (level_ptr side k) m m'
    → other ≢ side
    → Levels m other ls ys
    → Levels m' other ls ys
Levels-frame_side m m' side other k [] [] keep ne r = tt
Levels-frame_side m m' side other k [] (y ∷ ys) keep ne r = elim r [ ]
Levels-frame_side m m' side other k (l ∷ ls) [] keep ne r = elim r [ ]
Levels-frame_side m m' side other k ((p, l) ∷ ls) ((q, xs) ∷ ys) keep ne r =
    let is = r.1 in
    (
      r.0,
      record {
        head = is.head;
        tail = is.tail;
        seg = keep (level_ptr other p) xs (λ e. ne (ground arith)) is.seg;
        apart = is.apart;
        at = is.at;
        ne_nil = is.ne_nil;
      },
      Levels-frame_side m m' side other k ls ys keep ne r.2,
    )

pub IsRep-update :
    (side : Side) (b b' : OrderBook) (v : View) (ys : Orders)
    → IsRep b v
    → Distinct b'.limitorders
    → Levels b'.limitorders side (book_of side b') ys
    → Levels b'.limitorders
        (opposite side)
        (book_of (opposite side) b')
        (orders_of (opposite side) v)
    → Sorted side ys
    → ((id : ℕ)
        → known id b'.limitorders ≡ (has_any id ys || has_any id (orders_of (opposite side) v)))
    → IsRep b' (with_orders side ys v)
IsRep-update ask b b' v ys rep d this other s l = record {
  distinct = d;
  levels = elim [ ask ↦ this | bid ↦ other ];
  sorted = elim [ ask ↦ s | bid ↦ rep.sorted bid ];
  listed = l;
}
IsRep-update bid b b' v ys rep d this other s l = record {
  distinct = d;
  levels = elim [ ask ↦ other | bid ↦ this ];
  sorted = elim [ ask ↦ rep.sorted ask | bid ↦ s ];
  listed = λ id. ground (arith, l id);
}

pub IsRep-listed :
    (side : Side) (b : OrderBook) (v : View) (id : ℕ)
    → IsRep b v
    → known id b.limitorders
      ≡ (has_any id (orders_of side v) || has_any id (orders_of (opposite side) v))
IsRep-listed ask b v id rep = rep.listed id
IsRep-listed bid b v id rep = ground (arith, rep.listed id)

-- An order ID of a list stands at one place in it.
pub has-split :
    (id : ℕ) (os : List Order)
    → has id os ≡ true
    → (xs : List Order) × (o : Order) × (zs : List Order) × (os ≡ xs ++ o ∷ zs) × (o.order_id ≡ id)
has-split id [] e = cc
has-split id (x ∷ os) e = elim (Bool-cases (x.order_id == id)) [
  | inl hit ↦ ([], x, os, refl, ground arith)
  | inr miss ↦
      let (xs, o, zs, e', same) = has-split id os (ground arith) in
      (x ∷ xs, o, zs, ground arith, same)
]

pub has-drop :
    (id : ℕ) (xs : List Order) (o : Order) (zs : List Order)
    → Apart (xs ++ o ∷ zs)
    → has id (xs ++ zs) ≡ (if id == o.order_id then false else has id (xs ++ o ∷ zs))
has-drop id [] o zs a = ground arith
has-drop id (x ∷ xs) o zs a =
    ground (arith, has-append x.order_id xs (o ∷ zs), has-drop id xs o zs a.1)

pub remove_order_lem :
    (xs : List Order) (o : Order) (zs : List Order)
    → has o.order_id xs ≡ false
    → remove_order o.order_id (xs ++ o ∷ zs) ≡ xs ++ zs
unfolding remove_order
remove_order_lem [] o zs out = ground arith
remove_order_lem (x ∷ xs) o zs out = ground (arith, remove_order_lem xs o zs)
