-- ===== src/OrderBook/Place.antt =====
-- `placeOrderInBook`: a new order goes behind the others of its price.
use spot_exchange.Prelude.{
  ℕ, ◌<◌, ◌≡◌, ◌≢◌, refl, ◌∙◌, false, ◌||◌, none, some, List, [], ◌∷◌, ◌++◌, arith, ◌==◌, Distinct,
  find, assign, find-assign, find-none-Below,
}
use spot_exchange.Prelude.Run.{ok}
use spot_exchange.Info.{Order}
use spot_exchange.Limits.{Side, LevelPtr, Limit, Level, Limits, new_limit}
use spot_exchange.Limits.Segment.{
  has, Apart, first_or, last_or, linked, Seg, known, Spares, Seg-fresh, Seg-cons, Seg-assign,
  Seg-join, Seg-set_next, first_or-append, last_or-append, has-append,
}
use spot_exchange.Limits.Edit.{Edit, Edit-assign, Edit-assign-Owned, Edit-trans, none-Owned}
use spot_exchange.Limits.Splice.{Seg-at}
use spot_exchange.OrderBook.{place_limit_in_book_level}
use spot_exchange.OrderBook.View.{AllAt, IsLevel, level_ptr, side_code}
use spot_exchange.OrderBook.Sides.{append-ne_nil}

-- `m'` is `m` with the limit `id`, which belongs to the level at `ptr`.
pub record Added (ptr : LevelPtr) (id : ℕ) (m m' : Limits) : Type 0 where
  pub spares : Spares ptr m m'
  pub distinct : Distinct m'
  pub keys : (j : ℕ) → known j m' ≡ (j == id || known j m)

Apart-snoc :
    (xs : List Order) (o : Order) → Apart xs → has o.order_id xs ≡ false → Apart (xs ++ o ∷ [])
Apart-snoc [] o a out = (refl, tt)
Apart-snoc (x ∷ xs) o a out = ground (arith, has-append x.order_id xs (o ∷ []), Apart-snoc xs o a.1)

AllAt-snoc :
    (side : Side) (price : ℕ) (xs : List Order) (o : Order)
    → AllAt side price xs
    → (o.price ≡ price) × (o.is_buy_side ≡ side_code side) × (0 < o.current_quantity)
    → AllAt side price (xs ++ o ∷ [])
AllAt-snoc side price [] o a h = (h, tt)
AllAt-snoc side price (x ∷ xs) o a h = (a.0, AllAt-snoc side price xs o a.1 h)

module _ (m : Limits) (ptr : LevelPtr) (d : Distinct m) (o : Order)
    (fresh : find o.order_id m ≡ none) where
  abbrev m₁ : Limits
  m₁ = (o.order_id, new_limit o) ∷ m

  cons-Added : Added ptr o.order_id m m₁
  unfolding find
  cons-Added = record {
    spares = λ other os ne s.
        Seg-cons m other none none os o.order_id (new_limit o)
          (Seg-fresh m other none none os o.order_id s fresh) s;
    distinct = (find-none-Below o.order_id m fresh, d);
    keys = λ j. ground arith;
  }

  Added-Edit : (m' : Limits) → Edit ptr m₁ m' → Added ptr o.order_id m m'
  Added-Edit m' e = record {
    spares = λ other os ne s. e.spares other os ne (cons-Added.spares other os ne s);
    distinct = e.distinct;
    keys = λ j. e.keys j ∙ cons-Added.keys j;
  }

  at₁ : find o.order_id m₁ ≡ some (new_limit o)
  unfolding find
  at₁ = ground arith

  -- A level that was empty.
  place_first :
      let m' = assign o.order_id (linked ptr o none none) m₁ in
      Added ptr o.order_id m m' × Seg m' ptr none (o ∷ []) none
  place_first = (
    Added-Edit _ (
        Edit-assign-Owned ptr m₁ o.order_id (new_limit o) (linked ptr o none none)
          cons-Added.distinct at₁ (none-Owned ptr (new_limit o) refl)),
    ground (arith, at₁, find-assign o.order_id o.order_id (linked ptr o none none) m₁),
  )

  module _ (xs : List Order) (x : Order) (a : Apart (xs ++ x ∷ []))
      (s : Seg m ptr none (xs ++ x ∷ []) none) where
    abbrev waiting : Limit
    waiting = record (new_limit o) { prev_limit = some x.order_id }

    abbrev m₂ : Limits
    m₂ = assign o.order_id waiting m₁

    abbrev m₃ : Limits
    m₃ = assign x.order_id (linked ptr x (last_or none xs) (some o.order_id)) m₂

    abbrev m₄ : Limits
    m₄ = assign o.order_id (linked ptr o (some x.order_id) none) m₃

    out : has o.order_id (xs ++ x ∷ []) ≡ false
    out = Seg-fresh m ptr none none (xs ++ x ∷ []) o.order_id s fresh

    seg₂ : Seg m₂ ptr none (xs ++ x ∷ []) none
    seg₂ =
        Seg-assign m₁ ptr none none (xs ++ x ∷ []) o.order_id waiting out
          (Seg-cons m ptr none none (xs ++ x ∷ []) o.order_id (new_limit o) out s)

    at_x : find x.order_id m₂ ≡ some (linked ptr x (last_or none xs) none)
    at_x = Seg-at m₂ ptr none none xs x [] seg₂

    ne : x.order_id ≢ o.order_id
    ne = ground (arith, has-append o.order_id xs (x ∷ []), out)

    at_o : find o.order_id m₃ ≡ some waiting
    at_o = ground (
      arith,
      ne,
      at₁,
      find-assign x.order_id o.order_id (linked ptr x (last_or none xs) (some o.order_id)) m₂,
      find-assign o.order_id o.order_id waiting m₁,
    )

    edit₂ : Edit ptr m₁ m₂
    edit₂ =
        Edit-assign-Owned ptr m₁ o.order_id (new_limit o) waiting cons-Added.distinct at₁
          (none-Owned ptr (new_limit o) refl)

    edit₃ : Edit ptr m₂ m₃
    edit₃ = Edit-assign ptr m₂ x.order_id _ _ edit₂.distinct at_x refl

    edit₄ : Edit ptr m₃ m₄
    edit₄ =
        Edit-assign-Owned ptr m₃ o.order_id waiting _ edit₃.distinct at_o
          (none-Owned ptr waiting refl)

    -- A level that has orders: the new limit is linked behind the last.
    place_last : Added ptr o.order_id m m₄ × Seg m₄ ptr none ((xs ++ x ∷ []) ++ o ∷ []) none
    place_last = (
      Added-Edit m₄ (Edit-trans ptr m₁ m₂ m₄ edit₂ (Edit-trans ptr m₂ m₃ m₄ edit₃ edit₄)),
      Seg-join m₄ ptr none none (xs ++ x ∷ []) (o ∷ [])
          (Seg-assign m₃ ptr none (some o.order_id) (xs ++ x ∷ []) o.order_id _ out
            (Seg-set_next m₂ ptr none none (some o.order_id) xs x a seg₂))
          (rw (last_or-append none xs (x ∷ [])) (
            ground (
              arith,
              at_o,
              find-assign o.order_id o.order_id (linked ptr o (some x.order_id) none) m₃,
            ))),
    )

-- The level and the limits that `placeLimitInBookLevel` returns.
module _ (m : Limits) (side : Side) (price : ℕ) (d : Distinct m) (o : Order)
    (fresh : find o.order_id m ≡ none)
    (at : (o.price ≡ price) × (o.is_buy_side ≡ side_code side) × (0 < o.current_quantity)) where
  pub place_limit_first :
      (level : Level)
      → level.head ≡ none
      → (level' : Level) × (m' : Limits) × (place_limit_in_book_level side price level o m
          ≡ ok (level', m'))
        × Added (level_ptr side price) o.order_id m m'
        × IsLevel m' side price level' (o ∷ [])
  unfolding place_limit_in_book_level
  place_limit_first level e =
      let (added, seg) = place_first m (level_ptr side price) d o fresh in
      (
        record level { head = some o.order_id; tail = some o.order_id },
        _,
        ground (arith, fresh, e, at₁ m (level_ptr side price) d o fresh),
        added,
        record {
          head = refl;
          tail = refl;
          seg = seg;
          apart = (refl, tt);
          at = (at, tt);
          ne_nil = λ e. cc;
        },
      )

  pub place_limit_last :
      (level : Level) (xs : List Order) (x : Order)
      → IsLevel m side price level (xs ++ x ∷ [])
      → (level' : Level) × (m' : Limits) × (place_limit_in_book_level side price level o m
          ≡ ok (level', m'))
        × Added (level_ptr side price) o.order_id m m'
        × IsLevel m' side price level' ((xs ++ x ∷ []) ++ o ∷ [])
  unfolding place_limit_in_book_level
  place_limit_last level xs x is =
      let (added, seg) = place_last m (level_ptr side price) d o fresh xs x is.apart is.seg in
      let head : level.head ≡ first_or (some x.order_id) xs =
        is.head ∙ first_or-append none xs (x ∷ []) in
      let tail : level.tail ≡ some x.order_id = is.tail ∙ last_or-append none xs (x ∷ []) in
      (
        record level { tail = some o.order_id },
        _,
        ground (
          arith,
          fresh,
          head,
          tail,
          at₁ m (level_ptr side price) d o fresh,
          at_x m (level_ptr side price) d o fresh xs x is.apart is.seg,
          at_o m (level_ptr side price) d o fresh xs x is.apart is.seg,
        ),
        added,
        record {
          head = ground (
            arith,
            head,
            first_or-append none (xs ++ x ∷ []) (o ∷ []),
            first_or-append (some o.order_id) xs (x ∷ []),
          );
          tail = ground (arith, last_or-append none (xs ++ x ∷ []) (o ∷ []));
          seg = seg;
          apart =
              Apart-snoc (xs ++ x ∷ []) o is.apart
                (out m (level_ptr side price) d o fresh xs x is.apart is.seg);
          at = AllAt-snoc side price (xs ++ x ∷ []) o is.at at;
          ne_nil = append-ne_nil (xs ++ x ∷ []) o [];
        },
      )
