-- ===== src/Matching/NextLevel.antt =====
-- `FIFOMatch` from one level to the next.
use spot_exchange.Prelude.{
  ℕ, ◌≡◌, refl, inl, inr, none, some, List, [], ◌∷◌, arith, Distinct, find, erase, assign,
  first_key, after,
}
use spot_exchange.Prelude.Run.{ok}
use spot_exchange.Info.{Order}
use spot_exchange.Limits.{LevelPtr, Level, Limits, Book, level_order_count}
use spot_exchange.Limits.Count.{level_order_count-live, live}
use spot_exchange.Matching.{
  LevelRef, in_book, freed, Match, next_round, next_level, erase_level, read_level,
}
use spot_exchange.Matching.Sweep.{met, swept}
use spot_exchange.Matching.Full.{eq→==, At}

-- The state once the best level is gone.
abbrev pub past : List Order → Book → Limits → LevelRef → Match → Match
past os rest m' lvl s = record (met os s) { book = rest; limits = m'; lvl = lvl }

-- The reference names the first level of the book, in the book or as a copy.
abbrev pub First : Book → Match → Type 0
First [] s = Unit
First ((k, level) ∷ rest) s = At k level s

module _ (k : ℕ) (l : Level) (rest : Book) where
  pub assign_first : (l' : Level) → assign k l' ((k, l) ∷ rest) ≡ (k, l') ∷ rest
  unfolding assign
  assign_first l' = ground arith

  pub erase_first : erase k ((k, l) ∷ rest) ≡ rest
  unfolding erase
  erase_first = ground arith

  after_first : after k ((k, l) ∷ rest) ≡ first_key rest
  unfolding after
  after_first = ground arith

  pub find_first : find k ((k, l) ∷ rest) ≡ some l
  unfolding find
  find_first = ground arith

  pub read_first : read_level (in_book k) ((k, l) ∷ rest) ≡ ok l
  unfolding read_level find
  read_first = rw (read_level, eq→== k k refl) refl

module _ (junk : Level) (ptr : LevelPtr) (k : ℕ) (level : Level) where
  emptied_count :
      (m' : Limits) → Distinct m' → level_order_count (record level { head = none }) m' ≡ ok 0
  unfolding live
  emptied_count m' d = level_order_count-live m' ptr (record level { head = none }) [] d tt tt refl

  -- The emptied level is erased, and the reference gets a copy of the next.
  pub next_round-past :
      (os : List Order) (rest : Book) (m' : Limits) (s : Match)
      → Distinct m'
      → s.book ≡ (k, level) ∷ rest
      → At k level s
      → (lvl : LevelRef) × (next_round junk k (swept level os m' s)
          ≡ ok (first_key rest, past os rest m' lvl s))
        × First rest (past os rest m' lvl s)
  unfolding next_round erase_level next_level first_key
  next_round-past os [] m' s d e (inl (in_k, found)) = (
    freed junk,
    rw
        (
          in_k,
          e,
          assign_first k level [] (record level { head = none }),
          read_first k (record level { head = none }) [],
          emptied_count m' d,
          after_first k (record level { head = none }) [],
          erase_first k (record level { head = none }) [],
          eq→== k k refl,
        )
        refl,
    tt,
  )
  next_round-past os ((j, level₂) ∷ rest) m' s d e (inl (in_k, found)) = (
    freed level₂,
    rw
        (
          in_k,
          e,
          assign_first k level ((j, level₂) ∷ rest) (record level { head = none }),
          read_first k (record level { head = none }) ((j, level₂) ∷ rest),
          emptied_count m' d,
          after_first k (record level { head = none }) ((j, level₂) ∷ rest),
          erase_first k (record level { head = none }) ((j, level₂) ∷ rest),
          eq→== k k refl,
          read_first j level₂ rest,
        )
        refl,
    inr refl,
  )
  next_round-past os [] m' s d e (inr copy) = (
    freed junk,
    rw (copy, e, read_level, emptied_count m' d, after_first k level [], erase_first k level [])
        refl,
    tt,
  )
  next_round-past os ((j, level₂) ∷ rest) m' s d e (inr copy) = (
    freed level₂,
    rw
        (
          copy,
          e,
          read_level,
          emptied_count m' d,
          after_first k level ((j, level₂) ∷ rest),
          erase_first k level ((j, level₂) ∷ rest),
          read_first j level₂ rest,
        )
        refl,
    inr refl,
  )
