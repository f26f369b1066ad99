-- ===== src/OrderBook/View/Members.antt =====
-- Which order IDs a side of the view holds, and what the map operations do to that.
use spot_exchange.Prelude.{
  ℕ, ◌≡◌, ◌≢◌, ◌⊎◌, refl, true, false, ◌||◌, none, some, List, [], ◌∷◌, arith, Bool-cases, inl, inr,
  Below, Distinct, find, erase, assign, emplace_by, find-Below,
}
use spot_exchange.Info.{Order}
use spot_exchange.Limits.{Side, LevelPtr, Limit, Limits, Book}
use spot_exchange.Limits.Segment.{has, Seg-not-has, Seg-fresh}
use spot_exchange.OrderBook.{before}
use spot_exchange.OrderBook.View.{Orders, level_ptr, Levels, has_any}
use spot_exchange.OrderBook.View.Levels.{before-total}

module _ (id k : ℕ) where
  pub has_any-find :
      (os : List Order) (ys : Orders)
      → find k ys ≡ some os
      → has_any id ys ≡ (has id os || has_any id (erase k ys))
  unfolding find erase
  has_any-find os [] e = cc
  has_any-find os ((q, xs) ∷ ys) e = ground (arith, has_any-find os ys)

  pub has_any-assign :
      (os os' : List Order) (ys : Orders)
      → find k ys ≡ some os
      → has_any id (assign k os' ys) ≡ (has id os' || has_any id (erase k ys))
  unfolding find erase assign
  has_any-assign os os' [] e = cc
  has_any-assign os os' ((q, xs) ∷ ys) e = ground (arith, has_any-assign os os' ys)

  pub has_any-emplace :
      (side : Side) (os : List Order) (ys : Orders)
      → Below k ys
      → has_any id (emplace_by (before side) k os ys) ≡ (has id os || has_any id ys)
  unfolding emplace_by
  has_any-emplace side os [] b = refl
  has_any-emplace side os ((q, xs) ∷ ys) b =
      ground (arith, has_any-emplace side os ys b.1, before-total side k q)

some_ptr-ne :
    (l : Limit) (ptr : LevelPtr) (side : Side) (p : ℕ)
    → l.current_level ≡ some ptr
    → (ptr.side ≢ side) ⊎ (p ≢ ptr.price)
    → l.current_level ≢ some (level_ptr side p)
some_ptr-ne l ptr side p e (inl d) h = d (ground arith)
some_ptr-ne l ptr side p e (inr d) h = d (ground arith)

module _ (m : Limits) (side : Side) (id : ℕ) where
  -- A limit is in the level that it points to and in no other.
  pub Levels-not-has :
      (l : Limit) (ptr : LevelPtr) (ls : Book) (ys : Orders)
      → find id m ≡ some l
      → l.current_level ≡ some ptr
      → (ptr.side ≢ side) ⊎ Below ptr.price ys
      → Levels m side ls ys
      → has_any id ys ≡ false
  Levels-not-has l ptr [] [] e at out r = refl
  Levels-not-has l ptr [] (y ∷ ys) e at out r = elim r [ ]
  Levels-not-has l ptr (x ∷ ls) [] e at out r = elim r [ ]
  Levels-not-has l ptr ((p, level) ∷ ls) ((q, xs) ∷ ys) e at (inl d) r =
      let here =
        Seg-not-has m (level_ptr side p) none none xs id r.1.seg l e
          (some_ptr-ne l ptr side p at (inl d)) in
      rw here (Levels-not-has l ptr ls ys e at (inl d) r.2)
  Levels-not-has l ptr ((p, level) ∷ ls) ((q, xs) ∷ ys) e at (inr d) r =
      let here =
        Seg-not-has m (level_ptr side p) none none xs id r.1.seg l e
          (some_ptr-ne l ptr side p at (inr (λ e. d.0 (ground arith)))) in
      rw here (Levels-not-has l ptr ls ys e at (inr d.1) r.2)

  pub Levels-fresh :
      (ls : Book) (ys : Orders) → find id m ≡ none → Levels m side ls ys → has_any id ys ≡ false
  Levels-fresh [] [] e r = refl
  Levels-fresh [] (y ∷ ys) e r = elim r [ ]
  Levels-fresh (x ∷ ls) [] e r = elim r [ ]
  Levels-fresh ((p, level) ∷ ls) ((q, xs) ∷ ys) e r =
      ground
        (arith, Seg-fresh m (level_ptr side p) none none xs id r.1.seg e, Levels-fresh ls ys e r.2)

-- The price of a level that holds the order.
pub has_any-some :
    (id : ℕ) (ys : Orders)
    → Distinct ys
    → has_any id ys ≡ true
    → (p : ℕ) × (os : List Order) × (find p ys ≡ some os) × (has id os ≡ true)
unfolding find
has_any-some id [] d e = cc
has_any-some id ((q, xs) ∷ ys) d e = elim (Bool-cases (has id xs)) [
  | inl here ↦ (q, xs, ground arith, here)
  | inr there ↦
      let (p, os, found, e') = has_any-some id ys d.1 (ground arith) in
      (p, os, ground (arith, find-Below q ys d.0), e')
]
