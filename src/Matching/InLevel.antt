-- ===== src/Matching/InLevel.antt =====
-- `orderFullyMatchedInLevel` at the first level of the book, when its orders fill the incoming one.
use mathlib.Core.List.{append_assoc}
use spot_exchange.Prelude.{
  subst, ℕ, zero, suc, ◌-◌, ◌^◌, ◌≤◌, ◌<◌, ◌≡◌, refl, sym, ap, ◌∙◌, true, false, Bool-cases, inl,
  inr, Option, none, some, List, [], ◌∷◌, arith, ltb, ◌==◌, if◌then◌else◌, min, Distinct, length,
}
use spot_exchange.Prelude.Run.{ok}
use spot_exchange.Info.{Order}
use spot_exchange.Limits.{LevelPtr, Level, Limits}
use spot_exchange.Limits.Segment.{Apart, first_or, Seg}
use spot_exchange.Limits.Edit.{deref-ok}
use spot_exchange.Limits.Replace.{with_qty}
use spot_exchange.Matching.{Match, match_in_level}
use spot_exchange.Matching.Fifo.{Positive, left_qty, left_orders, level_fills}
use spot_exchange.Matching.Trade.{traded, trade_lem}
use spot_exchange.Matching.Remove.{Shrunk, Shrunk-trans, moved}
use spot_exchange.Matching.Step.{on_true, traded-Shrunk, traded-Seg, round_sweeps}
use spot_exchange.Matching.Sweep.{met, level_fills-qty}
use spot_exchange.Matching.Full.{
  eq→==, At, At-read, At-moved, finished-moved, finished, kept, emptied, fully_matched_lem,
}

-- The orders that an order of quantity `q` empties.
unfoldable pub taken : ℕ → List Order → List Order
taken q [] = []
taken q (o ∷ os) =
    if ltb o.current_quantity q
    then o ∷ taken (q - o.current_quantity) os
    else if o.current_quantity == q
    then o ∷ []
    else []

module _ (ptr : LevelPtr) (k : ℕ) (level : Level) (o : Order) (os : List Order) (s : Match) where
  abbrev q : ℕ
  q = s.order.current_quantity

  kept-left :
      q ≤ o.current_quantity
      → kept (with_qty (o.current_quantity - q) o) os ≡ left_orders q (o ∷ os)
  unfolding left_orders
  kept-left h = ground arith

  last-met :
      (m' : Limits)
      → q ≤ o.current_quantity
      → finished k level (left_orders q (o ∷ os)) m' (traded ptr none (first_or none os) o q s)
        ≡ finished k level (left_orders q (o ∷ os)) m' (met (o ∷ os) s)
  unfolding left_qty level_fills
  last-met m' h =
      let less : ltb o.current_quantity q ≡ false = ground arith in
      let amount : min o.current_quantity q ≡ q = omega arith in
      let none_left : q - q ≡ 0 = omega arith in rw (less, amount, none_left) refl

  emptied-taken :
      (m m' : Limits)
      → q ≤ o.current_quantity
      → Shrunk ptr (emptied (with_qty (o.current_quantity - q) o)) m m'
      → Shrunk ptr (taken q (o ∷ os)) m m'
  unfolding taken
  emptied-taken m m' h sh = record {
    spares = sh.spares;
    distinct = sh.distinct;
    keys = λ j. ground (arith, sh.keys j);
  }

  last_round :
      (n : ℕ)
      → Distinct s.limits
      → At k level s
      → Apart (o ∷ os)
      → Seg s.limits ptr none (o ∷ os) none
      → level.head ≡ some o.order_id
      → length (o ∷ os) < 2 ^ 16
      → Positive os
      → q ≤ o.current_quantity
      → (m' : Limits) × (match_in_level (suc n) k (some o.order_id) s
          ≡ ok (true, finished k level (left_orders q (o ∷ os)) m' (met (o ∷ os) s)))
        × Shrunk ptr (taken q (o ∷ os)) s.limits m'
        × Seg m' ptr none (left_orders q (o ∷ os)) none
  unfolding match_in_level
  last_round n d at_k a sg h f p le =
      let amount : min o.current_quantity q ≡ q = omega arith in
      let at = At-read k level s at_k in
      let s' = traded ptr none (first_or none os) o q s in
      let sh = traded-Shrunk ptr level o os s d at a sg q in
      let (m', run, sh', sg') =
        fully_matched_lem ptr k level (with_qty (o.current_quantity - q) o) os s' sh.distinct at_k a
          (traded-Seg ptr level o os s d at a sg q) h f p in
      (
        m',
        rw (deref-ok o.order_id _ s.limits sg.0, trade_lem ptr none (first_or none os) o s, amount)
            (on_true _ _ _ (eq→== (q - q) 0 (omega arith))
              ∙ rw (run, kept-left le) (ap (λ t. ok (true, t)) (last-met m' le))),
        emptied-taken s.limits m' le (Shrunk-trans ptr [] _ s.limits s'.limits m' sh sh'),
        subst (λ t. Seg m' ptr none t none) (kept-left le) sg',
      )

less-left :
    (q : ℕ) (o : Order) (os : List Order)
    → ltb o.current_quantity q ≡ true
    → (left_qty q (o ∷ os) ≡ left_qty (q - o.current_quantity) os)
      × (left_orders q (o ∷ os) ≡ left_orders (q - o.current_quantity) os)
      × (taken q (o ∷ os) ≡ o ∷ taken (q - o.current_quantity) os)
unfolding left_qty left_orders taken
less-left q o os e = (rw e refl, rw e refl, rw e refl)

module _ (ptr : LevelPtr) (k : ℕ) where
  next-met :
      (level : Level) (o : Order) (os : List Order) (m m' : Limits) (s : Match) (nxt : Option ℕ)
      → At k level s
      → o.current_quantity < s.order.current_quantity
      → let s' =
          moved (record level { head = nxt }) m (traded ptr none nxt o o.current_quantity s) in
        finished k
          (record level { head = nxt })
          (left_orders s'.order.current_quantity os)
          m'
          (met os s')
        ≡ finished k level (left_orders s.order.current_quantity (o ∷ os)) m' (met (o ∷ os) s)
  unfolding left_qty left_orders level_fills
  next-met level o os m m' s nxt at h =
      let less : ltb o.current_quantity s.order.current_quantity ≡ true = ground arith in
      let amount : min o.current_quantity s.order.current_quantity ≡ o.current_quantity =
        omega arith in
      rw
        (
          finished-moved k nxt level
              (left_orders (s.order.current_quantity - o.current_quantity) os) m m'
              (met os (traded ptr none nxt o o.current_quantity s)) at,
          less,
          amount,
          level_fills-qty,
          append_assoc,
        )
        refl

  -- When the orders of the first level fill the incoming order, they lose what it takes in the order
  -- they came, and the level goes with the last of them.
  pub level_matches :
      (n : ℕ) (os : List Order) (level : Level) (s : Match)
      → Distinct s.limits
      → At k level s
      → Apart os
      → Seg s.limits ptr none os none
      → level.head ≡ first_or none os
      → length os < 2 ^ 16
      → length os < n
      → Positive os
      → 0 < s.order.current_quantity
      → left_qty s.order.current_quantity os ≡ 0
      → (m' : Limits) × (match_in_level n k (first_or none os) s
          ≡ ok (true, finished k level (left_orders s.order.current_quantity os) m' (met os s)))
        × Shrunk ptr (taken s.order.current_quantity os) s.limits m'
        × Seg m' ptr none (left_orders s.order.current_quantity os) none
  unfolding left_qty
  level_matches zero os level s d at a sg h f fuel p pos full = absurd (omega arith)
  level_matches (suc n) [] level s d at a sg h f fuel p pos full = absurd (omega arith)
  level_matches (suc n) (o ∷ os) level s d at a sg h f fuel p pos full =
      elim (Bool-cases (ltb o.current_quantity s.order.current_quantity)) [
        | inl e ↦
            let less : o.current_quantity < s.order.current_quantity = ground arith in
            let (m, run, sh, sg') =
              round_sweeps ptr level o os s d (At-read k level s at) a sg n k less in
            let (qty, orders, gone) = less-left s.order.current_quantity o os e in
            let level' : Level = record level { head = first_or none os } in
            let s' = moved level' m (traded ptr none (first_or none os) o o.current_quantity s) in
            let (m', run', sh', sg'') =
              level_matches n os level' s' sh.distinct (At-moved k (first_or none os) level m s at)
                a.1 sg' refl (omega arith) (omega arith) p.1 (omega arith) (sym qty ∙ full) in
            (
              m',
              run
                  ∙ run'
                  ∙ ap (λ t. ok (true, t)) (next-met level o os m m' s (first_or none os) at less),
              rw gone (Shrunk-trans ptr (o ∷ []) _ s.limits m m' sh sh'),
              rw orders sg'',
            )
        | inr e ↦ last_round ptr k level o os s n d at a sg h f p.1 (ground arith)
      ]
