-- ===== src/Limits/Replace.antt =====
-- A change of quantity of one order in the list of a level.
use spot_exchange.Prelude.{
  ℕ, ◌≡◌, refl, ap, ◌∙◌, ◌||◌, Option, some, List, [], ◌∷◌, ◌++◌, arith, ◌==◌, assign, find-assign,
}
use spot_exchange.Info.{Order}
use spot_exchange.Limits.{LevelPtr, Limits}
use spot_exchange.Limits.Segment.{
  has, Apart, first_or, last_or, linked, Seg, has-append, Seg-assign, first_or-append,
}

-- The same order with another quantity.
abbrev pub with_qty : ℕ → Order → Order
with_qty q o = record o { current_quantity = q }

pub has-replace :
    (id q : ℕ) (xs : List Order) (o : Order) (zs : List Order)
    → has id (xs ++ with_qty q o ∷ zs) ≡ has id (xs ++ o ∷ zs)
has-replace id q [] o zs = refl
has-replace id q (x ∷ xs) o zs = ap (λ h. (x.order_id == id) || h) (has-replace id q xs o zs)

pub Apart-replace :
    (q : ℕ) (xs : List Order) (o : Order) (zs : List Order)
    → Apart (xs ++ o ∷ zs)
    → Apart (xs ++ with_qty q o ∷ zs)
Apart-replace q [] o zs a = a
Apart-replace q (x ∷ xs) o zs a =
    (has-replace x.order_id q xs o zs ∙ a.0, Apart-replace q xs o zs a.1)

module _ (m : Limits) (ptr : LevelPtr) (q : ℕ) where
  pub Seg-replace :
      (prev next : Option ℕ) (xs : List Order) (o : Order) (zs : List Order)
      → Apart (xs ++ o ∷ zs)
      → Seg m ptr prev (xs ++ o ∷ zs) next
      → Seg
          (assign o.order_id (linked ptr (with_qty q o) (last_or prev xs) (first_or next zs)) m)
          ptr
          prev
          (xs ++ with_qty q o ∷ zs)
          next
  Seg-replace prev next [] o zs a s = (
    ground (
      arith,
      find-assign o.order_id o.order_id (linked ptr (with_qty q o) prev (first_or next zs)) m,
    ),
    Seg-assign m ptr (some o.order_id) next zs o.order_id _ a.0 s.1,
  )
  Seg-replace prev next (x ∷ xs) o zs a s = (
    ground (
      arith,
      has-append x.order_id xs (o ∷ zs),
      first_or-append next xs (o ∷ zs),
      first_or-append next xs (with_qty q o ∷ zs),
      find-assign o.order_id x.order_id
          (linked ptr (with_qty q o) (last_or (some x.order_id) xs) (first_or next zs)) m,
    ),
    Seg-replace (some x.order_id) next xs o zs a.1 s.1,
  )
