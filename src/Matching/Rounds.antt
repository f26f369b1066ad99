-- ===== src/Matching/Rounds.antt =====
-- One round of the loop of `FIFOMatch`.
use spot_exchange.Prelude.{
  ℕ, suc, ◌^◌, ◌<◌, ◌≡◌, refl, ap, ◌∙◌, true, false, none, some, List, ◌∷◌, arith, Distinct,
  first_key, length,
}
use spot_exchange.Prelude.Run.{ok}
use spot_exchange.Info.{Order}
use spot_exchange.Limits.{Side, LevelPtr, Level, Limits, Book, rounds}
use spot_exchange.Limits.Segment.{Apart, first_or, Seg}
use spot_exchange.Limits.Count.{Seg-length}
use spot_exchange.Matching.{LevelRef, Match, match_loop, match_in_level, no_matching_level}
use spot_exchange.Matching.Fifo.{Positive, left_qty, left_orders}
use spot_exchange.Matching.Remove.{Shrunk}
use spot_exchange.Matching.Sweep.{met, level_sweeps}
use spot_exchange.Matching.Full.{At, At-read, finished}
use spot_exchange.Matching.InLevel.{taken, level_matches}
use spot_exchange.Matching.NextLevel.{First, past, next_round-past}

module _ (junk : Level) (side : Side) (n : ℕ) (s : Match) where
  pub loop_ends : match_loop junk side (suc n) none s ≡ ok s
  unfolding match_loop
  loop_ends = refl

  pub loop_stops :
      (k : ℕ)
      → no_matching_level side s.order.price k ≡ true
      → match_loop junk side (suc n) (some k) s ≡ ok s
  unfolding match_loop
  loop_stops k stop = rw (match_loop, stop) refl

  module _ (ptr : LevelPtr) (k : ℕ) (level : Level) (os : List Order)
      (meets : no_matching_level side s.order.price k ≡ false) (d : Distinct s.limits)
      (at : At k level s) (a : Apart os) (sg : Seg s.limits ptr none os none)
      (h : level.head ≡ first_or none os) where
    -- The level fills the order.
    pub loop_fills :
        length os < 2 ^ 16
        → Positive os
        → 0 < s.order.current_quantity
        → left_qty s.order.current_quantity os ≡ 0
        → (m' : Limits) × (match_loop junk side (suc n) (some k) s
            ≡ ok (finished k level (left_orders s.order.current_quantity os) m' (met os s)))
          × Shrunk ptr (taken s.order.current_quantity os) s.limits m'
          × Seg m' ptr none (left_orders s.order.current_quantity os) none
    unfolding match_loop
    loop_fills f p pos full =
        let (m', run, sh, sg') =
          level_matches ptr k (rounds s.limits) os level s d at a sg h f
            (omega (arith, Seg-length ptr none none os s.limits d a sg)) p pos full in
        (
          m',
          rw
              (
                match_loop,
                meets,
                At-read k level s at,
                ap (λ p. match_in_level (rounds s.limits) k p s) h ∙ run,
              )
              refl,
          sh,
          sg',
        )

    -- The order takes the whole level, and the next round starts with the next.
    pub loop_next :
        (rest : Book)
        → s.book ≡ (k, level) ∷ rest
        → 0 < left_qty s.order.current_quantity os
        → (m' : Limits) × (lvl : LevelRef) × (match_loop junk side (suc n) (some k) s
            ≡ match_loop junk side n (first_key rest) (past os rest m' lvl s))
          × Shrunk ptr os s.limits m'
          × First rest (past os rest m' lvl s)
    unfolding match_loop
    loop_next rest e more =
        let (m', run, sh) =
          level_sweeps ptr k (rounds s.limits) os level s d a sg (At-read k level s at) h more
            (omega (arith, Seg-length ptr none none os s.limits d a sg)) in
        let (lvl, run', first) = next_round-past junk ptr k level os rest m' s sh.distinct e at in
        (
          m',
          lvl,
          rw
              (
                match_loop,
                meets,
                At-read k level s at,
                ap (λ p. match_in_level (rounds s.limits) k p s) h ∙ run,
                run',
              )
              refl,
          sh,
          first,
        )
