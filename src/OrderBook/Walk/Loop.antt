-- ===== src/OrderBook/Walk/Loop.antt =====
-- What the rounds of `FIFOMatch` make of a book that stands for a view.
use mathlib.Core.List.{append_assoc, append-nil}
use spot_exchange.Prelude.{
  ℕ, ◌<◌, ◌≡◌, refl, sym, ap, ◌∙◌, subst, inl, inr, ◌⊎◌, Bool, true, false, List, [], ◌∷◌, ◌++◌,
  arith, ◌==◌, erase, assign, ◌&&◌, Bool-cases,
}
use spot_exchange.Info.{Order}
use spot_exchange.Limits.{Side, ask, bid, Level, Limits, Book}
use spot_exchange.Limits.Replace.{with_qty}
use spot_exchange.Matching.{LevelRef, in_book, Match, no_matching_level}
use spot_exchange.Matching.Fifo.{left_qty, left_orders}
use spot_exchange.Matching.Full.{finished, book_after, book_with}
use spot_exchange.Matching.Sweep.{met, level_fills-qty}
use spot_exchange.Matching.NextLevel.{past}
use spot_exchange.OrderBook.{OrderBook, book_of, with_book}
use spot_exchange.OrderBook.View.{
  Orders, View, orders_of, with_orders, IsLevel, Levels, IsRep, or_erase,
}
use spot_exchange.OrderBook.Walk.{
  rest_of, head_lost, side_left, side_fills, keep_level, loses_first, fix_head,
}
use spot_exchange.OrderBook.Walk.Start.{fix_head-Levels, book_after-fix, book_kept}

-- What the loop makes of the book `b`, which stands for `v`, when it goes from `s` to `t`; the side
-- has the orders `ys`.
pub record Walked (copy : Bool) (side : Side) (b : OrderBook) (v : View) (ys : Orders) (s t : Match)
    : Type 0 where
  pub order : t.order ≡ with_qty (rest_of side s.order.price s.order.current_quantity ys) s.order
  pub fills :
      t.result.fills ≡ s.result.fills ++ side_fills side s.now s.order s.order.current_quantity ys
  pub rep :
      IsRep
        (with_book side
          (fix_head (side_left side s.order.price s.order.current_quantity ys) t.book)
          (record b { limitorders = t.limits }))
        (with_orders side (side_left side s.order.price s.order.current_quantity ys) v)
  pub kept :
      (t.book ≡ fix_head (side_left side s.order.price s.order.current_quantity ys) t.book)
      ⊎ (head_lost copy side s.order.price s.order.current_quantity ys ≡ true)

-- The reference names the best level, and a copy of it only if `copy`.
abbrev pub Mode : Bool → Orders → Match → Type 0
Mode copy [] s = Unit
Mode copy ((k, os) ∷ ys) s = (copy ≡ true) ⊎ (s.lvl ≡ in_book k)

with_book-id : (side : Side) (b : OrderBook) → with_book side (book_of side b) b ≡ b
with_book-id ask b = refl
with_book-id bid b = refl

with_orders-id : (side : Side) (v : View) → with_orders side (orders_of side v) v ≡ v
with_orders-id ask v = refl
with_orders-id bid v = refl

with_book-again :
    (side : Side) (l l' : Book) (m m' : Limits) (b : OrderBook)
    → with_book side l'
        (record (with_book side l (record b { limitorders = m })) { limitorders = m' })
      ≡ with_book side l' (record b { limitorders = m' })
with_book-again ask l l' m m' b = refl
with_book-again bid l l' m m' b = refl

with_orders-again :
    (side : Side) (ys ys' : Orders) (v : View)
    → with_orders side ys' (with_orders side ys v) ≡ with_orders side ys' v
with_orders-again ask ys ys' v = refl
with_orders-again bid ys ys' v = refl

-- A representation does not depend on how its book and view are written.
IsRep-eq : (b b' : OrderBook) (v v' : View) → b ≡ b' → v ≡ v' → IsRep b v → IsRep b' v'
IsRep-eq b b' v v' e f rep = subst (IsRep b') f (subst (λ b. IsRep b v) e rep)

side_fills-qty :
    (side : Side) (now : ℕ) (o : Order) (n q : ℕ) (ys : Orders)
    → side_fills side now (record o { current_quantity = n }) q ys ≡ side_fills side now o q ys
unfolding side_fills
side_fills-qty side now o n q [] = refl
side_fills-qty side now o n q ((k, os) ∷ ys) =
    rw (level_fills-qty, side_fills-qty side now o n (left_qty q os) ys) refl

or_erase_first :
    (k : ℕ) (os zs : List Order) (ys : Orders) → or_erase k zs ((k, os) ∷ ys) ≡ keep_level k zs ys
unfolding erase assign
or_erase_first k os [] ys = ground arith
or_erase_first k os (z ∷ zs) ys = ground arith

module _ (copy : Bool) (side : Side) (b : OrderBook) (v : View) (s : Match) (rep : IsRep b v)
    (same_book : s.book ≡ book_of side b) (same_limits : s.limits ≡ b.limitorders) where
  -- The order meets nothing.
  pub Walked-stops :
      (ys : Orders)
      → orders_of side v ≡ ys
      → rest_of side s.order.price s.order.current_quantity ys ≡ s.order.current_quantity
      → side_left side s.order.price s.order.current_quantity ys ≡ ys
      → side_fills side s.now s.order s.order.current_quantity ys ≡ []
      → Walked copy side b v ys s s
  Walked-stops ys best no_rest no_left no_fills =
      let fixed : fix_head ys s.book ≡ s.book = rw same_book (
        fix_head-Levels b.limitorders side (book_of side b) ys
          (subst (Levels b.limitorders side (book_of side b)) best (rep.levels side))) in
      record {
        order = rw no_rest refl;
        fills = rw (no_fills, append-nil) refl;
        rep =
            rw (no_left, fixed, same_book, same_limits)
              (IsRep-eq b _ v _ (sym (with_book-id side b))
                (sym (ap (λ ys. with_orders side ys v) (sym best) ∙ with_orders-id side v)) rep);
        kept = inl (rw no_left (sym fixed));
      }

  module _ (k : ℕ) (os : List Order) (ys : Orders) (level : Level) (rest : Book)
      (best : orders_of side v ≡ (k, os) ∷ ys)
      (meets : no_matching_level side s.order.price k ≡ false)
      (e : book_of side b ≡ (k, level) ∷ rest) (is : IsLevel b.limitorders side k level os) where
    -- The level fills the order.
    pub Walked-fills :
        (m' : Limits)
        → Mode copy ((k, os) ∷ ys) s
        → left_qty s.order.current_quantity os ≡ 0
        → IsRep
            (with_book side
              (book_after k level (left_orders s.order.current_quantity os) (book_of side b))
              (record b { limitorders = m' }))
            (with_orders side
              (or_erase k (left_orders s.order.current_quantity os) (orders_of side v))
              v)
        → Walked copy side b v
            ((k, os) ∷ ys)
            s
            (finished k level (left_orders s.order.current_quantity os) m' (met os s))
    unfolding rest_of side_left side_fills head_lost
    Walked-fills m' mode full rep' =
        let zs = left_orders s.order.current_quantity os in
        let levels : Levels b.limitorders side ((k, level) ∷ rest) ((k, os) ∷ ys) =
          subst (λ l. Levels b.limitorders side l ((k, os) ∷ ys)) e
            (subst (Levels b.limitorders side (book_of side b)) best (rep.levels side)) in
        let left : or_erase k zs (orders_of side v) ≡ keep_level k zs ys =
          rw best (or_erase_first k os zs ys) in
        let fixed : book_after k level zs (book_of side b)
            ≡ fix_head (keep_level k zs ys) (book_with s.lvl k level zs s.book) =
          rw (same_book, e)
            (sym (book_after-fix k level rest b.limitorders side zs ys levels.2 s.lvl)) in
        record {
          order = rw (meets, full) refl;
          fills = rw (meets, full, append-nil) refl;
          rep =
              rw (meets, full)
                (IsRep-eq _ _ _ _ (ap (λ l. with_book side l (record b { limitorders = m' })) fixed)
                  (ap (λ ys. with_orders side ys v) left) rep');
          kept =
              rw (meets, full)
                (elim (Bool-cases (copy && loses_first s.order.current_quantity os)) [
                  | inl lost ↦ inr lost
                  | inr stays ↦ inl (
                      rw (same_book, e)
                        (book_kept k level rest copy s.lvl s.order.current_quantity os mode is.head
                          stays)
                      ∙ fixed)
                ]);
        }

    -- The level goes, and the loop walks on.
    pub Walked-next :
        (m₁ : Limits) (lvl : LevelRef) (t : Match)
        → 0 < left_qty s.order.current_quantity os
        → Walked true side
            (with_book side rest (record b { limitorders = m₁ }))
            (with_orders side ys v)
            ys
            (past os rest m₁ lvl s)
            t
        → Walked copy side b v ((k, os) ∷ ys) s t
    unfolding rest_of side_left side_fills head_lost
    Walked-next m₁ lvl t more w =
        let go : (left_qty s.order.current_quantity os == 0) ≡ false = ground arith in
        record {
          order = rw (meets, go) w.order;
          fills = rw (meets, go) (w.fills ∙ rw (side_fills-qty, append_assoc) refl);
          rep =
              rw (meets, go)
                (IsRep-eq _ _ _ _ (with_book-again side rest _ m₁ t.limits b)
                  (with_orders-again side ys _ v) w.rep);
          kept = rw (meets, go) w.kept;
        }
