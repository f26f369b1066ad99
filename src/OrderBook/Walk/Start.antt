-- ===== src/OrderBook/Walk/Start.antt =====
-- The first level of a book that stands for a view, and the references to it.
use spot_exchange.Matching.NextLevel.{assign_first, erase_first}
use spot_exchange.Prelude.{
  suc, ℕ, ◌<◌, ◌≡◌, refl, sym, ap, ◌∙◌, inl, inr, ◌⊎◌, Bool, true, false, none, some, List, [], ◌∷◌,
  arith, ◌==◌, length, ◌&&◌, not,
}
use spot_exchange.Info.{Order}
use spot_exchange.Limits.{Side, Level, Limits, Book}
use spot_exchange.Limits.Segment.{first_or}
use spot_exchange.Matching.{LevelRef, in_book, freed}
use spot_exchange.Matching.Fifo.{left_qty, left_orders}
use spot_exchange.Matching.Full.{book_after, book_with}
use spot_exchange.OrderBook.View.{Orders, Levels}
use spot_exchange.OrderBook.Walk.{rest_of, head_lost, keep_level, loses_first, fix_head}

pub Levels-length :
    (m : Limits) (side : Side) (ls : Book) (ys : Orders)
    → Levels m side ls ys
    → length ls ≡ length ys
Levels-length m side [] [] r = refl
Levels-length m side [] (y ∷ ys) r = elim r [ ]
Levels-length m side (l ∷ ls) [] r = elim r [ ]
Levels-length m side ((p, l) ∷ ls) ((q, os) ∷ ys) r = ap suc (Levels-length m side ls ys r.2)

pub Levels-empty : (m : Limits) (side : Side) (ls : Book) → Levels m side ls [] → ls ≡ []
Levels-empty m side [] r = refl
Levels-empty m side (l ∷ ls) r = elim r [ ]

-- The head of the best level is right in a book that stands for the orders.
pub fix_head-Levels :
    (m : Limits) (side : Side) (ls : Book) (ys : Orders) → Levels m side ls ys → fix_head ys ls ≡ ls
fix_head-Levels m side [] [] r = refl
fix_head-Levels m side [] (y ∷ ys) r = elim r [ ]
fix_head-Levels m side (l ∷ ls) [] r = elim r [ ]
fix_head-Levels m side ((p, l) ∷ ls) ((q, os) ∷ ys) r =
    ap (λ h. (p, record l { head = h }) ∷ ls) (sym r.1.head)

-- An order that is not filled leaves every head in its place.
pub rest_of-head_lost :
    (copy : Bool) (side : Side) (price q : ℕ) (ys : Orders)
    → 0 < rest_of side price q ys
    → head_lost copy side price q ys ≡ false
unfolding rest_of head_lost
rest_of-head_lost copy side price q [] h = refl
rest_of-head_lost copy side price q ((k, os) ∷ ys) h =
    ground (arith, rest_of-head_lost true side price (left_qty q os) ys)

-- The book after the last level, and the same with its head put right.
module _ (k : ℕ) (level : Level) (rest : Book) where
  pub book_after-fix :
      (m : Limits) (side : Side) (zs : List Order) (ys : Orders)
      → Levels m side rest ys
      → (lvl : LevelRef)
      → fix_head (keep_level k zs ys) (book_with lvl k level zs ((k, level) ∷ rest))
        ≡ book_after k level zs ((k, level) ∷ rest)
  book_after-fix m side [] ys r (in_book j) =
      rw (erase_first k level rest) (fix_head-Levels m side rest ys r)
  book_after-fix m side [] ys r (freed old) =
      rw (erase_first k level rest) (fix_head-Levels m side rest ys r)
  book_after-fix m side (z ∷ zs) ys r (in_book j) =
      rw (assign_first k level rest (record level { head = some z.order_id })) refl
  book_after-fix m side (z ∷ zs) ys r (freed old) =
      rw (assign_first k level rest (record level { head = some z.order_id })) refl

  copy_kept :
      (old : Level) (o : Order) (zs : List Order)
      → level.head ≡ some o.order_id
      → (elim zs [ [] ↦ false | z ∷ zs ↦ not (z.order_id == o.order_id) ]) ≡ false
      → book_with (freed old) k level zs ((k, level) ∷ rest)
        ≡ book_after k level zs ((k, level) ∷ rest)
  copy_kept old o [] h e = refl
  copy_kept old o (z ∷ zs) h e =
      let same : z.order_id ≡ o.order_id = ground arith in
      let level' : level ≡ record level { head = some z.order_id } =
        ap (λ h. record level { head = h }) (h ∙ ap some (sym same)) in
      ap (λ l. (k, l) ∷ rest) level'
      ∙ sym (assign_first k level rest (record level { head = some z.order_id }))

  pub book_kept :
      (copy : Bool) (lvl : LevelRef) (q : ℕ) (os : List Order)
      → (copy ≡ true) ⊎ (lvl ≡ in_book k)
      → level.head ≡ first_or none os
      → (copy && loses_first q os) ≡ false
      → book_with lvl k level (left_orders q os) ((k, level) ∷ rest)
        ≡ book_after k level (left_orders q os) ((k, level) ∷ rest)
  unfolding left_orders
  book_kept copy (in_book j) q os mode h e = refl
  book_kept copy (freed old) q [] mode h e = refl
  book_kept copy (freed old) q (o ∷ os) (inl c) h e =
      copy_kept old o (left_orders q (o ∷ os)) h (rw c at e)
  book_kept copy (freed old) q (o ∷ os) (inr c) h e = cc
