-- ===== src/Matching/FirstLevel.antt =====
-- `FIFOMatch` when the best level fills the incoming order.
use spot_exchange.Prelude.{
  ℕ, ◌^◌, ◌<◌, ◌≡◌, refl, inl, suc, false, none, List, ◌∷◌, Distinct, first_key, length,
}
use spot_exchange.Prelude.Run.{ok}
use spot_exchange.Info.{Order, no_match}
use spot_exchange.Limits.{Side, LevelPtr, Level, Limits, Book}
use spot_exchange.Limits.Segment.{Apart, first_or, Seg}
use spot_exchange.Matching.{in_book, Match, fifo_match, no_matching_level}
use spot_exchange.Matching.Fifo.{Positive, left_qty, left_orders}
use spot_exchange.Matching.Remove.{Shrunk}
use spot_exchange.Matching.Sweep.{met}
use spot_exchange.Matching.NextLevel.{find_first}
use spot_exchange.Matching.Rounds.{loop_fills}
use spot_exchange.Matching.Full.{finished}
use spot_exchange.Matching.InLevel.{taken}

-- The variables of `FIFOMatch` before its loop.
abbrev pub start : ℕ → Order → ℕ → Book → Limits → Match
start now o k book limits = record {
  order = o;
  book = book;
  limits = limits;
  result = no_match;
  lvl = in_book k;
  now = now;
}

module _ (junk : Level) (now : ℕ) (side : Side) (o : Order) (ptr : LevelPtr) (k : ℕ) (level : Level)
    (rest : Book) (limits : Limits) where
  pub fifo_match-fills :
      (os : List Order)
      → no_matching_level side o.price k ≡ false
      → Distinct limits
      → Apart os
      → Seg limits ptr none os none
      → level.head ≡ first_or none os
      → length os < 2 ^ 16
      → Positive os
      → 0 < o.current_quantity
      → left_qty o.current_quantity os ≡ 0
      → (m' : Limits) × (fifo_match junk now side o ((k, level) ∷ rest) limits
          ≡ ok (
              finished k level
                (left_orders o.current_quantity os)
                m'
                (met os (start now o k ((k, level) ∷ rest) limits))))
        × Shrunk ptr (taken o.current_quantity os) limits m'
        × Seg m' ptr none (left_orders o.current_quantity os) none
  unfolding fifo_match first_key
  fifo_match-fills os meets d a sg h f p pos full =
      loop_fills junk side (suc (length rest)) (start now o k ((k, level) ∷ rest) limits) ptr k
        level os meets d (inl (refl, find_first k level rest)) a sg h f p pos full
