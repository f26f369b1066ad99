-- ===== src/Limits/Segment.antt =====
-- The doubly linked list of a price level, as a list of orders.
use spot_exchange.Prelude.{
  ℕ, ◌≡◌, refl, ◌≢◌, Bool, true, false, ◌||◌, Option, none, some, List, [], ◌∷◌, ◌++◌, arith, ◌==◌,
  find, erase, assign, Distinct, find-assign, find-erase,
}
use spot_exchange.Info.{Order}
use spot_exchange.Limits.{LevelPtr, Limit, Limits}

abbrev pub has : ℕ → List Order → Bool
has id [] = false
has id (o ∷ os) = (o.order_id == id) || has id os

-- No order ID twice.
abbrev pub Apart : List Order → Type 0
Apart [] = Unit
Apart (o ∷ os) = (has o.order_id os ≡ false) × Apart os

-- The pointers to the first and to the last of some orders, or the given one if there is none.
abbrev pub first_or : Option ℕ → List Order → Option ℕ
first_or p [] = p
first_or p (o ∷ os) = some o.order_id

abbrev pub last_or : Option ℕ → List Order → Option ℕ
last_or p [] = p
last_or p (o ∷ os) = last_or (some o.order_id) os

abbrev pub linked : LevelPtr → Order → Option ℕ → Option ℕ → Limit
linked ptr o prev next = record {
  order = o;
  next_limit = next;
  prev_limit = prev;
  current_level = some ptr;
}

-- `xs` stand one behind the other, after `prev` and before `next`.
abbrev pub Seg : Limits → LevelPtr → Option ℕ → List Order → Option ℕ → Type 0
Seg m ptr prev [] next = Unit
Seg m ptr prev (o ∷ os) next =
    (find o.order_id m ≡ some (linked ptr o prev (first_or next os)))
    × Seg m ptr (some o.order_id) os next

abbrev pub known : ℕ → Limits → Bool
known id m = elim (find id m) [ none ↦ false | some l ↦ true ]

-- A change of the limits that spares every level but the one at `ptr`.
abbrev pub Spares : LevelPtr → Limits → Limits → Type 0
Spares ptr m m' =
    (other : LevelPtr) (os : List Order)
    → other ≢ ptr
    → Seg m other none os none
    → Seg m' other none os none

pub has-append : (id : ℕ) (xs ys : List Order) → has id (xs ++ ys) ≡ (has id xs || has id ys)
has-append id [] ys = refl
has-append id (x ∷ xs) ys = ground (arith, has-append id xs ys)

pub Apart-append : (xs ys : List Order) → Apart (xs ++ ys) → Apart xs × Apart ys
Apart-append [] ys a = (tt, a)
Apart-append (x ∷ xs) ys a = ground (arith, has-append x.order_id xs ys, Apart-append xs ys a.1)

pub Apart-not-has :
    (o : Order) (xs ys : List Order) → Apart (xs ++ o ∷ ys) → has o.order_id xs ≡ false
Apart-not-has o [] ys a = refl
Apart-not-has o (x ∷ xs) ys a =
    ground (arith, has-append x.order_id xs (o ∷ ys), Apart-not-has o xs ys a.1)

pub first_or-append :
    (p : Option ℕ) (xs ys : List Order) → first_or p (xs ++ ys) ≡ first_or (first_or p ys) xs
first_or-append p [] ys = refl
first_or-append p (x ∷ xs) ys = refl

pub last_or-append :
    (p : Option ℕ) (xs ys : List Order) → last_or p (xs ++ ys) ≡ last_or (last_or p xs) ys
last_or-append p [] ys = refl
last_or-append p (x ∷ xs) ys = last_or-append (some x.order_id) xs ys

module _ (m : Limits) (ptr : LevelPtr) where
  pub Seg-split :
      (prev next : Option ℕ) (xs ys : List Order)
      → Seg m ptr prev (xs ++ ys) next
      → Seg m ptr prev xs (first_or next ys) × Seg m ptr (last_or prev xs) ys next
  Seg-split prev next [] ys s = (tt, s)
  Seg-split prev next (x ∷ xs) ys s =
      ground (arith, first_or-append next xs ys, Seg-split (some x.order_id) next xs ys s.1)

  pub Seg-join :
      (prev next : Option ℕ) (xs ys : List Order)
      → Seg m ptr prev xs (first_or next ys)
      → Seg m ptr (last_or prev xs) ys next
      → Seg m ptr prev (xs ++ ys) next
  Seg-join prev next [] ys s t = t
  Seg-join prev next (x ∷ xs) ys s t =
      ground (arith, first_or-append next xs ys, Seg-join (some x.order_id) next xs ys s.1 t)

  -- A limit of another level is not in the segment.
  pub Seg-not-has :
      (prev next : Option ℕ) (xs : List Order) (id : ℕ)
      → Seg m ptr prev xs next
      → (l : Limit) → find id m ≡ some l
      → l.current_level ≢ some ptr
      → has id xs ≡ false
  Seg-not-has prev next [] id s l e d = refl
  Seg-not-has prev next (x ∷ xs) id s l e d =
      ground (arith, Seg-not-has (some x.order_id) next xs id s.1 l e d)

  pub Seg-fresh :
      (prev next : Option ℕ) (xs : List Order) (id : ℕ)
      → Seg m ptr prev xs next
      → find id m ≡ none
      → has id xs ≡ false
  Seg-fresh prev next [] id s e = refl
  Seg-fresh prev next (x ∷ xs) id s e = ground (arith, Seg-fresh (some x.order_id) next xs id s.1 e)

  -- Writes outside the segment leave it alone.
  pub Seg-assign :
      (prev next : Option ℕ) (xs : List Order) (id : ℕ) (v : Limit)
      → has id xs ≡ false
      → Seg m ptr prev xs next
      → Seg (assign id v m) ptr prev xs next
  Seg-assign prev next [] id v out s = tt
  Seg-assign prev next (x ∷ xs) id v out s =
      ground (arith, find-assign id x.order_id v m, Seg-assign (some x.order_id) next xs id v)

  pub Seg-erase :
      (prev next : Option ℕ) (xs : List Order) (id : ℕ)
      → Distinct m
      → has id xs ≡ false
      → Seg m ptr prev xs next
      → Seg (erase id m) ptr prev xs next
  Seg-erase prev next [] id d out s = tt
  Seg-erase prev next (x ∷ xs) id d out s =
      ground (arith, find-erase id x.order_id m d, Seg-erase (some x.order_id) next xs id d)

  pub Seg-cons :
      (prev next : Option ℕ) (xs : List Order) (id : ℕ) (v : Limit)
      → has id xs ≡ false
      → Seg m ptr prev xs next
      → Seg ((id, v) ∷ m) ptr prev xs next
  unfolding find
  Seg-cons prev next [] id v out s = tt
  Seg-cons prev next (x ∷ xs) id v out s = ground (arith, Seg-cons (some x.order_id) next xs id v)

  -- A new successor for the last limit of the segment, a new predecessor for the first.
  pub Seg-set_next :
      (prev next next' : Option ℕ) (xs : List Order) (o : Order)
      → Apart (xs ++ o ∷ [])
      → Seg m ptr prev (xs ++ o ∷ []) next
      → Seg
          (assign o.order_id (linked ptr o (last_or prev xs) next') m)
          ptr
          prev
          (xs ++ o ∷ [])
          next'
  Seg-set_next prev next next' [] o a s =
      ground (arith, find-assign o.order_id o.order_id (linked ptr o prev next') m)
  Seg-set_next prev next next' (x ∷ xs) o a s = ground (
    arith,
    has-append x.order_id xs (o ∷ []),
    first_or-append next xs (o ∷ []),
    first_or-append next' xs (o ∷ []),
    find-assign o.order_id x.order_id (linked ptr o (last_or (some x.order_id) xs) next') m,
    Seg-set_next (some x.order_id) next next' xs o a.1 s.1,
  )

  pub Seg-set_prev :
      (prev prev' next : Option ℕ) (o : Order) (xs : List Order)
      → Apart (o ∷ xs)
      → Seg m ptr prev (o ∷ xs) next
      → Seg (assign o.order_id (linked ptr o prev' (first_or next xs)) m) ptr prev' (o ∷ xs) next
  Seg-set_prev prev prev' next o xs a s = ground (
    arith,
    find-assign o.order_id o.order_id (linked ptr o prev' (first_or next xs)) m,
    Seg-assign (some o.order_id) next xs o.order_id (linked ptr o prev' (first_or next xs)) a.0 s.1,
  )
