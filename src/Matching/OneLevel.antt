-- ===== src/Matching/OneLevel.antt =====
-- `FIFOMatch` when the order is larger than the best level and meets no other.
use spot_exchange.Prelude.{
  ℕ, suc, ◌<◌, ◌≡◌, refl, ◌∙◌, inl, Bool, true, false, none, List, [], ◌∷◌, Distinct, first_key,
  length,
}
use spot_exchange.Prelude.Run.{ok}
use spot_exchange.Info.{Order}
use spot_exchange.Limits.{Side, LevelPtr, Level, Limits, Book}
use spot_exchange.Limits.Segment.{Apart, first_or, Seg}
use spot_exchange.Matching.{LevelRef, Match, fifo_match, match_loop, no_matching_level}
use spot_exchange.Matching.Fifo.{left_qty}
use spot_exchange.Matching.Remove.{Shrunk}
use spot_exchange.Matching.FirstLevel.{start}
use spot_exchange.Matching.NextLevel.{past, find_first}
use spot_exchange.Matching.Rounds.{loop_ends, loop_stops, loop_next}

-- The order does not meet the next level, or there is none.
abbrev pub stops : Side → Order → Book → Bool
stops side o [] = true
stops side o ((k, level) ∷ rest) = no_matching_level side o.price k

module _ (junk : Level) (side : Side) (o : Order) where
  loop-stops :
      (n : ℕ) (rest : Book) (s : Match)
      → s.order.price ≡ o.price
      → stops side o rest ≡ true
      → match_loop junk side (suc n) (first_key rest) s ≡ ok s
  unfolding first_key
  loop-stops n [] s e st = loop_ends junk side n s
  loop-stops n ((j, level₂) ∷ rest) s e st = loop_stops junk side n s j (rw e st)

module _ (junk : Level) (now : ℕ) (side : Side) (o : Order) (ptr : LevelPtr) (k : ℕ) (level : Level)
    (limits : Limits) where
  -- The order takes the whole level, which goes, and keeps the rest of its quantity.
  pub fifo_match-sweeps :
      (os : List Order) (rest : Book)
      → no_matching_level side o.price k ≡ false
      → stops side o rest ≡ true
      → Distinct limits
      → Apart os
      → Seg limits ptr none os none
      → level.head ≡ first_or none os
      → 0 < left_qty o.current_quantity os
      → (m' : Limits) × (lvl : LevelRef) × (fifo_match junk now side o ((k, level) ∷ rest) limits
          ≡ ok (past os rest m' lvl (start now o k ((k, level) ∷ rest) limits)))
        × Shrunk ptr os limits m'
  unfolding fifo_match first_key
  fifo_match-sweeps os rest meets st d a sg h more =
      let s = start now o k ((k, level) ∷ rest) limits in
      let (m', lvl, run, sh, first) =
        loop_next junk side (suc (length rest)) s ptr k level os meets d
          (inl (refl, find_first k level rest)) a sg h rest refl more in
      (m', lvl, run ∙ loop-stops junk side o (length rest) rest _ refl st, sh)
