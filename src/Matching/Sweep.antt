-- ===== src/Matching/Sweep.antt =====
-- `orderFullyMatchedInLevel` for an order that is larger than the whole level.
use mathlib.Core.List.{append_assoc, append-nil}
use spot_exchange.Prelude.{
  ℕ, zero, suc, ◌-◌, ◌<◌, ◌≡◌, refl, sym, ap, ◌∙◌, true, false, Option, none, List, [], ◌∷◌, ◌++◌,
  arith, ltb, min, Distinct, length,
}
use spot_exchange.Prelude.Run.{ok}
use spot_exchange.Info.{Order}
use spot_exchange.Limits.{LevelPtr, Level, Limits}
use spot_exchange.Limits.Segment.{Apart, first_or, Seg}
use spot_exchange.Matching.{Match, read_level, match_in_level}
use spot_exchange.Matching.Fifo.{left_qty, level_fills}
use spot_exchange.Matching.Trade.{traded}
use spot_exchange.Matching.Remove.{
  Shrunk, Shrunk-trans, Edit-Shrunk, moved, read-write, write_book-write, write_ref-write,
  write_book_self, write_ref_self,
}
use spot_exchange.Limits.Edit.{Edit-refl}
use spot_exchange.Matching.Step.{round_sweeps}

-- The fills do not depend on the quantity that is stored in the incoming order.
pub level_fills-qty :
    (now : ℕ) (i : Order) (k q : ℕ) (os : List Order)
    → level_fills now (record i { current_quantity = k }) q os ≡ level_fills now i q os
unfolding level_fills
level_fills-qty now i k q [] = refl
level_fills-qty now i k q (o ∷ os) =
    ground (arith, level_fills-qty now i k (q - o.current_quantity) os)

-- The state after the orders `os` of the level have met the incoming order: what is left of it, and
-- the fills.
abbrev pub met : List Order → Match → Match
met os s = record s {
  order = record s.order { current_quantity = left_qty s.order.current_quantity os };
  result = record s.result {
    fills = s.result.fills ++ level_fills s.now s.order s.order.current_quantity os;
  };
}

abbrev pub swept : Level → List Order → Limits → Match → Match
swept level os m' s = moved (record level { head = none }) m' (met os s)

left_qty-more :
    (q : ℕ) (o : Order) (os : List Order)
    → 0 < left_qty q (o ∷ os)
    → (o.current_quantity < q) × (0 < left_qty (q - o.current_quantity) os)
unfolding left_qty
left_qty-more q o os h = ground arith

module _ (ptr : LevelPtr) (k : ℕ) where
  swept-nil :
      (level : Level) (s : Match)
      → read_level s.lvl s.book ≡ ok level
      → level.head ≡ none
      → s ≡ swept level [] s.limits s
  unfolding left_qty level_fills
  swept-nil level s at h =
      let e : record level { head = none } ≡ level = ap (λ h. record level { head = h }) (sym h) in
      rw
        (e, write_book_self s.lvl level s.book at, write_ref_self s.lvl level s.book at, append-nil)
        refl

  swept-cons :
      (level : Level) (o : Order) (os : List Order) (m m' : Limits) (s : Match) (nxt : Option ℕ)
      → o.current_quantity < s.order.current_quantity
      → swept
          (record level { head = nxt })
          os
          m'
          (moved (record level { head = nxt }) m (traded ptr none nxt o o.current_quantity s))
        ≡ swept level (o ∷ os) m' s
  unfolding left_qty level_fills
  swept-cons level o os m m' s nxt h =
      let less : ltb o.current_quantity s.order.current_quantity ≡ true = ground arith in
      let amount : min o.current_quantity s.order.current_quantity ≡ o.current_quantity =
        omega arith in
      rw (write_book-write, write_ref-write, less, amount, level_fills-qty, append_assoc) refl

  -- An order that is larger than the level takes all of its orders, and the level loses its head.
  pub level_sweeps :
      (n : ℕ) (os : List Order) (level : Level) (s : Match)
      → Distinct s.limits
      → Apart os
      → Seg s.limits ptr none os none
      → read_level s.lvl s.book ≡ ok level
      → level.head ≡ first_or none os
      → 0 < left_qty s.order.current_quantity os
      → length os < n
      → (m' : Limits) × (match_in_level n k (first_or none os) s ≡ ok (false, swept level os m' s))
        × Shrunk ptr os s.limits m'
  unfolding match_in_level
  level_sweeps zero os level s d a sg at h more f = absurd (omega arith)
  level_sweeps (suc n) [] level s d a sg at h more f = (
    s.limits,
    ap (λ t. ok (false, t)) (swept-nil level s at h),
    Edit-Shrunk ptr s.limits s.limits (Edit-refl ptr s.limits d),
  )
  level_sweeps (suc n) (o ∷ os) level s d a sg at h more f =
      let (less, more') = left_qty-more s.order.current_quantity o os more in
      let (m, run, sh, sg') = round_sweeps ptr level o os s d at a sg n k less in
      let s' =
        moved (record level { head = first_or none os }) m
          (traded ptr none (first_or none os) o o.current_quantity s) in
      let (m', run', sh') =
        level_sweeps n os (record level { head = first_or none os }) s' sh.distinct a.1 sg'
          (read-write s.lvl level (record level { head = first_or none os }) s.book at) refl more'
          (omega arith) in
      (
        m',
        run ∙ run' ∙ ap (λ t. ok (false, t)) (swept-cons level o os m m' s (first_or none os) less),
        Shrunk-trans ptr (o ∷ []) os s.limits m m' sh sh',
      )
