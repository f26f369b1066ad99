-- ===== src/Matching/Full.antt =====
-- `orderFullyMatchedInLevel` for an order that the first level of the book fills.
use spot_exchange.Prelude.{
  ◌⊎◌, Bool-cases, inl, inr, ℕ, ◌%◌, ◌^◌, ◌<◌, ◌≡◌, refl, sym, ap, ◌∙◌, true, false, Option, none,
  some, List, [], ◌∷◌, arith, ◌==◌, if◌then◌else◌, Distinct, find, erase, assign, find-assign,
  assign-assign, assign_self, erase-assign, length,
}
use spot_exchange.Prelude.Run.{ok}
use spot_exchange.Info.{Order, set_order_filled}
use spot_exchange.Limits.{LevelPtr, Level, Limits, Book}
use spot_exchange.Limits.Segment.{Apart, first_or, Seg}
use spot_exchange.Limits.Edit.{Edit-refl}
use spot_exchange.Limits.Count.{live, level_order_count-live}
use spot_exchange.Matching.{
  LevelRef, in_book, freed, Match, read_level, close_level, fully_matched, erase_level,
}
use spot_exchange.Matching.Fifo.{Positive, live-Positive}
use spot_exchange.Matching.Remove.{Shrunk, Edit-Shrunk, moved, remove_lem}

-- The book once the level at `k` has the orders `os`.
abbrev pub book_after : ℕ → Level → List Order → Book → Book
book_after k level [] book = erase k book
book_after k level (o ∷ os) book = assign k (record level { head = some o.order_id }) book

-- The reference names the level at `k`: in the book, or the copy of it.
abbrev pub At : ℕ → Level → Match → Type 0
At k level s = ((s.lvl ≡ in_book k) × (find k s.book ≡ some level)) ⊎ (s.lvl ≡ freed level)

-- The same, when the writes went through the reference: a copy leaves the book as it is until the
-- level is erased.
abbrev pub book_with : LevelRef → ℕ → Level → List Order → Book → Book
book_with (in_book j) k level os book = book_after k level os book
book_with (freed old) k level [] book = erase k book
book_with (freed old) k level (o ∷ os) book = book

abbrev pub ref_with : LevelRef → ℕ → Level → List Order → LevelRef
ref_with (in_book j) k level [] = freed (record level { head = none })
ref_with (in_book j) k level (o ∷ os) = in_book k
ref_with (freed old) k level [] = freed (record level { head = none })
ref_with (freed old) k level (o ∷ os) = freed (record level { head = some o.order_id })

abbrev pub finished : ℕ → Level → List Order → Limits → Match → Match
finished k level os m' s = record s {
  book = book_with s.lvl k level os s.book;
  lvl = ref_with s.lvl k level os;
  limits = m';
  result = set_order_filled s.result;
}

module _ (k : ℕ) (h : Option ℕ) (level : Level) where
  book_after-write :
      (os : List Order) (book : Book)
      → book_after k (record level { head = h }) os (assign k (record level { head = h }) book)
        ≡ book_after k level os book
  book_after-write [] book = erase-assign k (record level { head = h }) book
  book_after-write (o ∷ os) book =
      assign-assign k (record level { head = h }) (record level { head = some o.order_id }) book

  -- A write to the level before does not show in the result.
  pub finished-moved :
      (os : List Order) (m m' : Limits) (s : Match)
      → At k level s
      → finished k (record level { head = h }) os m' (moved (record level { head = h }) m s)
        ≡ finished k level os m' s
  finished-moved [] m m' s (inl (e, f)) = rw (e, book_after-write [] s.book) refl
  finished-moved (o ∷ os) m m' s (inl (e, f)) = rw (e, book_after-write (o ∷ os) s.book) refl
  finished-moved [] m m' s (inr e) = rw e refl
  finished-moved (o ∷ os) m m' s (inr e) = rw e refl

  pub At-moved :
      (m : Limits) (s : Match)
      → At k level s
      → At k (record level { head = h }) (moved (record level { head = h }) m s)
  At-moved m s (inl (e, f)) =
      inl (rw e refl, rw e (ground (arith, find-assign k k (record level { head = h }) s.book)))
  At-moved m s (inr e) = inr (rw e refl)

-- What is left of the level behind a resting order that a trade may have emptied.
abbrev pub kept : Order → List Order → List Order
kept o os = if o.current_quantity == 0 then os else o ∷ os

abbrev pub emptied : Order → List Order
emptied o = if o.current_quantity == 0 then o ∷ [] else []

pub eq→== : (a b : ℕ) → a ≡ b → (a == b) ≡ true
eq→== a b e = ground arith

some_left : (n : ℕ) → 0 < n → n < 2 ^ 16 → (n % 2 ^ 16 == 0) ≡ false
some_left n pos small = ground arith

pub At-read :
    (k : ℕ) (level : Level) (s : Match) → At k level s → read_level s.lvl s.book ≡ ok level
unfolding read_level
At-read k level s (inl (e, f)) = rw (e, read_level, f) refl
At-read k level s (inr e) = rw e refl

module _ (ptr : LevelPtr) (k : ℕ) where
  close_level-finished :
      (level : Level) (s : Match) (os : List Order)
      → Distinct s.limits
      → At k level s
      → Apart os
      → Seg s.limits ptr none os none
      → level.head ≡ first_or none os
      → length os < 2 ^ 16
      → Positive os
      → close_level k s ≡ ok (finished k level os s.limits s)
  unfolding close_level erase_level live
  close_level-finished level s [] d at a sg h f p =
      let e : record level { head = none } ≡ level = ap (λ h. record level { head = h }) (sym h) in
      let count = level_order_count-live s.limits ptr level [] d a sg h in
      let read = At-read k level s at in
      elim at [
        | inl (in_k, found) ↦ rw (read, count, in_k, e, eq→== k k refl) refl
        | inr copy ↦ rw (read, count, copy, e) refl
      ]
  close_level-finished level s (o ∷ os) d at a sg h f p =
      let e : record level { head = some o.order_id } ≡ level =
        ap (λ h. record level { head = h }) (sym h) in
      let c : (live (o ∷ os) % 2 ^ 16 == 0) ≡ false =
        rw (live-Positive (o ∷ os) p) (some_left (length (o ∷ os)) (omega arith) f) in
      let count = level_order_count-live s.limits ptr level (o ∷ os) d a sg h in
      let read = At-read k level s at in
      elim at [
        | inl (in_k, found) ↦
            rw (read, count, c, in_k, e, assign_self k level s.book found, ← in_k) refl
        | inr copy ↦ rw (read, count, c, copy, e, ← copy) refl
      ]

  -- The incoming order is filled by a trade with `o`, which leaves if that emptied it.
  pub fully_matched_lem :
      (level : Level) (o : Order) (os : List Order) (s : Match)
      → Distinct s.limits
      → At k level s
      → Apart (o ∷ os)
      → Seg s.limits ptr none (o ∷ os) none
      → level.head ≡ some o.order_id
      → length (o ∷ os) < 2 ^ 16
      → Positive os
      → (m' : Limits) × (fully_matched k o.order_id o.current_quantity s
          ≡ ok (finished k level (kept o os) m' s))
        × Shrunk ptr (emptied o) s.limits m'
        × Seg m' ptr none (kept o os) none
  unfolding fully_matched
  fully_matched_lem level o os s d at a sg h f p = elim (Bool-cases (o.current_quantity == 0)) [
    | inl e ↦
        let (m', run, sh, sg') = remove_lem ptr level s d (At-read k level s at) o os a sg in
        let head' = first_or none os in
        let s' = moved (record level { head = head' }) m' s in
        (
          m',
          rw (e, run)
              (close_level-finished (record level { head = head' }) s' os sh.distinct
                  (At-moved k head' level m' s at) a.1 sg' refl (omega arith) p
                ∙ ap ok (finished-moved k head' level os m' m' s at)),
          rw e sh,
          rw e sg',
        )
    | inr e ↦ (
      s.limits,
      rw e (close_level-finished level s (o ∷ os) d at a sg h f (ground arith, p)),
      rw e (Edit-Shrunk ptr s.limits s.limits (Edit-refl ptr s.limits d)),
      rw e sg,
    )
  ]
