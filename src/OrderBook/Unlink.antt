-- ===== src/OrderBook/Unlink.antt =====
-- The four cases of `cancelOrder`: the level is left with its other orders, or goes.
use mathlib.Core.List.{append-nil}
use spot_exchange.Prelude.{
  subst, ℕ, ◌≡◌, ◌≢◌, refl, sym, ◌∙◌, ◌⊎◌, inl, inr, none, some, List, [], ◌∷◌, ◌++◌, arith,
  Distinct, find, erase, assign, assign_self,
}
use spot_exchange.Prelude.Run.{ok}
use spot_exchange.Info.{Order}
use spot_exchange.Limits.{Side, ask, bid, Level}
use spot_exchange.Limits.Segment.{
  Apart-append, first_or, last_or, linked, Seg-split, last_or-append, first_or-append,
}
use spot_exchange.Limits.Edit.{Edit, Edit-refl, set_next-ok, set_prev-ok}
use spot_exchange.Limits.Splice.{Apart-drop, Seg-at, unlink_head, unlink_tail, unlink_middle}
use spot_exchange.OrderBook.{OrderBook, book_of, with_book, unlink}
use spot_exchange.OrderBook.View.{IsLevel, level_ptr, side_code}
use spot_exchange.OrderBook.Sides.{
  book_of-with_book, book_of-with_book_ne, limitorders-with_book, book_of-limits, append-ne_nil,
  snoc-cases, AllAt-drop, AllAt-front,
}

-- `b'` is `b` without the limit `o`, whose level now has the orders `os`; `b'` still stores `o`.
pub record Unlinked (side : Side) (k : ℕ) (o : Order) (os : List Order) (b b' : OrderBook)
    : Type 0 where
  pub edit : Edit (level_ptr side k) b.limitorders b'.limitorders
  pub other : (s : Side) → s ≢ side → book_of s b' ≡ book_of s b
  pub level :
      ((os ≡ []) × (book_of side b' ≡ erase k (book_of side b)))
      ⊎ ((level : Level) × (book_of side b' ≡ assign k level (book_of side b))
          × IsLevel (erase o.order_id b'.limitorders) side k level os)

module _ (b : OrderBook) (side : Side) (k : ℕ) (level : Level) (d : Distinct b.limitorders) where
  unlink-alone :
      (o : Order)
      → IsLevel b.limitorders side k level (o ∷ [])
      → (b' : OrderBook) × (unlink (linked (level_ptr side k) o none none) b ≡ ok b')
        × Unlinked side k o [] b b'
  unfolding unlink
  unlink-alone o is = (
    with_book side (erase k (book_of side b)) b,
    alone side is.at.0.0 is.at.0.1,
    record {
      edit =
          rw (limitorders-with_book side (erase k (book_of side b)) b)
            (Edit-refl (level_ptr side k) b.limitorders d);
      other = λ s ne. book_of-with_book_ne side s _ b ne;
      level = inl (refl, book_of-with_book side _ b);
    },
  )
    where
      alone :
          (s : Side)
          → o.price ≡ k
          → o.is_buy_side ≡ side_code s
          → unlink (linked (level_ptr s k) o none none) b
            ≡ ok (with_book s (erase k (book_of s b)) b)
      alone ask p e = rw (p, e)
      alone bid p e = rw (p, e)

  unlink-middle :
      (xs : List Order) (x o z : Order) (zs : List Order)
      → find k (book_of side b) ≡ some level
      → IsLevel b.limitorders side k level ((xs ++ x ∷ []) ++ o ∷ z ∷ zs)
      → (b' : OrderBook) × (unlink
            (linked (level_ptr side k) o (some x.order_id) (some z.order_id))
            b
          ≡ ok b')
        × Unlinked side k o ((xs ++ x ∷ []) ++ z ∷ zs) b b'
  unfolding unlink
  unlink-middle xs x o z zs found is =
      let ptr = level_ptr side k in
      let m = b.limitorders in
      let (at, edit, seg) = unlink_middle m ptr d xs x o z zs is.apart is.seg in
      let at' = (Seg-split m ptr none none (xs ++ x ∷ []) (o ∷ z ∷ zs) is.seg).1.1.0 in
      let m' = assign z.order_id (linked ptr z (some x.order_id) (first_or none zs)) m in
      let m'' = assign x.order_id (linked ptr x (last_or none xs) (some z.order_id)) m' in
      (
        record b { limitorders = m'' },
        rw (
          set_prev-ok z.order_id (some x.order_id) _ m at',
          set_next-ok x.order_id (some z.order_id) _ m' at,
        ),
        record {
          edit = edit;
          other = λ s ne. book_of-limits s m'' b;
          level = inr (
            level,
            book_of-limits side m'' b ∙ sym (assign_self k level (book_of side b) found),
            record {
              head = ground (
                arith,
                is.head,
                first_or-append none (xs ++ x ∷ []) (o ∷ z ∷ zs),
                first_or-append (some o.order_id) xs (x ∷ []),
                first_or-append (some z.order_id) xs (x ∷ []),
                first_or-append none (xs ++ x ∷ []) (z ∷ zs),
              );
              tail = ground (
                arith,
                is.tail,
                last_or-append none (xs ++ x ∷ []) (o ∷ z ∷ zs),
                last_or-append none (xs ++ x ∷ []) (z ∷ zs),
              );
              seg = seg;
              apart = Apart-drop (xs ++ x ∷ []) o (z ∷ zs) is.apart;
              at = AllAt-drop side k (xs ++ x ∷ []) o (z ∷ zs) is.at;
              ne_nil = append-ne_nil (xs ++ x ∷ []) z zs;
            },
          );
        },
      )

  unlink-head :
      (o z : Order) (zs : List Order)
      → find k (book_of side b) ≡ some level
      → IsLevel b.limitorders side k level (o ∷ z ∷ zs)
      → (b' : OrderBook) × (unlink (linked (level_ptr side k) o none (some z.order_id)) b ≡ ok b')
        × Unlinked side k o (z ∷ zs) b b'
  unfolding unlink find assign
  unlink-head o z zs found is =
      let ptr = level_ptr side k in
      let m = b.limitorders in
      let (edit, seg) = unlink_head m ptr d o z zs is.apart is.seg in
      let m' = assign z.order_id (linked ptr z none (first_or none zs)) m in
      let level' = record level { head = some z.order_id } in
      let levels = assign k level' (book_of side b) in
      let b' = with_book side levels b in
      (
        record b' { limitorders = m' },
        rw (found, limitorders-with_book side levels b, set_prev-ok z.order_id none _ m is.seg.1.0),
        record {
          edit = edit;
          other = λ s ne. book_of-limits s m' b' ∙ book_of-with_book_ne side s levels b ne;
          level = inr (
            level',
            book_of-limits side m' b' ∙ book_of-with_book side levels b,
            record {
              head = refl;
              tail = is.tail;
              seg = seg;
              apart = is.apart.1;
              at = is.at.1;
              ne_nil = append-ne_nil [] z zs;
            },
          );
        },
      )

  unlink-tail :
      (xs : List Order) (x o : Order)
      → find k (book_of side b) ≡ some level
      → IsLevel b.limitorders side k level ((xs ++ x ∷ []) ++ o ∷ [])
      → (b' : OrderBook) × (unlink (linked (level_ptr side k) o (some x.order_id) none) b ≡ ok b')
        × Unlinked side k o (xs ++ x ∷ []) b b'
  unfolding unlink find assign
  unlink-tail xs x o found is =
      let ptr = level_ptr side k in
      let m = b.limitorders in
      let (edit, seg) = unlink_tail m ptr d xs x o is.apart is.seg in
      let front = (Seg-split m ptr none none (xs ++ x ∷ []) (o ∷ []) is.seg).0 in
      let at = Seg-at m ptr none (some o.order_id) xs x [] front in
      let m' = assign x.order_id (linked ptr x (last_or none xs) none) m in
      let level' = record level { tail = some x.order_id } in
      let levels = assign k level' (book_of side b) in
      let b' = with_book side levels b in
      (
        record b' { limitorders = m' },
        rw (found, limitorders-with_book side levels b, set_next-ok x.order_id none _ m at),
        record {
          edit = edit;
          other = λ s ne. book_of-limits s m' b' ∙ book_of-with_book_ne side s levels b ne;
          level = inr (
            level',
            book_of-limits side m' b' ∙ book_of-with_book side levels b,
            record {
              head = ground (
                arith,
                is.head,
                first_or-append none (xs ++ x ∷ []) (o ∷ []),
                first_or-append (some o.order_id) xs (x ∷ []),
                first_or-append none xs (x ∷ []),
              );
              tail = ground (arith, last_or-append none xs (x ∷ []));
              seg = seg;
              apart = (Apart-append (xs ++ x ∷ []) (o ∷ []) is.apart).0;
              at = AllAt-front side k (xs ++ x ∷ []) (o ∷ []) is.at;
              ne_nil = append-ne_nil xs x [];
            },
          );
        },
      )

  -- Whatever the place of the order in its level, `cancelOrder` unlinks it.
  pub unlink_lem :
      (xs : List Order) (o : Order) (zs : List Order)
      → find k (book_of side b) ≡ some level
      → IsLevel b.limitorders side k level (xs ++ o ∷ zs)
      → (b' : OrderBook) × (unlink
            (linked (level_ptr side k) o (last_or none xs) (first_or none zs))
            b
          ≡ ok b')
        × Unlinked side k o (xs ++ zs) b b'
  unlink_lem xs o zs found is = elim (snoc-cases xs) [
    | inl e ↦ first zs (subst (λ ys. IsLevel b.limitorders side k level (ys ++ o ∷ zs)) e is) e
    | inr (ys, y, e) ↦
        later ys y zs (subst (λ ys. IsLevel b.limitorders side k level (ys ++ o ∷ zs)) e is) e
  ]
    where
      Goal : List Order → List Order → Type 0
      Goal xs zs =
          (b' : OrderBook) × (unlink
              (linked (level_ptr side k) o (last_or none xs) (first_or none zs)) b
            ≡ ok b')
          × Unlinked side k o (xs ++ zs) b b'

      first : (zs : List Order) → IsLevel b.limitorders side k level (o ∷ zs) → xs ≡ [] → Goal xs zs
      first [] is e = rw e (unlink-alone o is)
      first (z ∷ zs) is e = rw e (unlink-head o z zs found is)

      later :
          (ys : List Order) (y : Order) (zs : List Order)
          → IsLevel b.limitorders side k level ((ys ++ y ∷ []) ++ o ∷ zs)
          → xs ≡ ys ++ y ∷ []
          → Goal xs zs
      later ys y [] is e =
          rw (e, last_or-append none ys (y ∷ []), append-nil (ys ++ y ∷ []))
            (unlink-tail ys y o found is)
      later ys y (z ∷ zs) is e =
          rw (e, last_or-append none ys (y ∷ [])) (unlink-middle ys y o z zs found is)
