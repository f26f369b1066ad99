-- ===== src/Matching/Remove.antt =====
-- `removeOrderFromBook`: the first limit of a level goes.
use spot_exchange.Prelude.{
  ℕ, ◌≡◌, refl, false, none, some, List, [], ◌∷◌, ◌++◌, arith, if◌then◌else◌, Distinct, find, erase,
  find-assign, assign-assign, assign_self, erase-Distinct,
}
use spot_exchange.Prelude.Run.{ok}
use spot_exchange.Info.{Order}
use spot_exchange.Limits.{LevelPtr, Limit, Level, Limits, Book}
use spot_exchange.Limits.Segment.{
  has, Apart, first_or, Seg, known, Spares, Seg-erase, Seg-not-has, has-append,
}
use spot_exchange.Limits.Edit.{Edit, Edit-refl, known-erase, set_prev-ok, deref-ok, level-Owned}
use spot_exchange.Limits.Splice.{unlink_head}
use spot_exchange.Matching.{
  LevelRef, in_book, freed, Match, read_level, write_level, write_book, write_ref, clear_prev,
  remove_order_from_book,
}

-- Some limits of a level are gone.
pub record Shrunk (ptr : LevelPtr) (gone : List Order) (m m' : Limits) : Type 0 where
  pub spares : Spares ptr m m'
  pub distinct : Distinct m'
  pub keys : (j : ℕ) → known j m' ≡ (if has j gone then false else known j m)

pub Edit-Shrunk : (ptr : LevelPtr) (m m' : Limits) → Edit ptr m m' → Shrunk ptr [] m m'
Edit-Shrunk ptr m m' e = record { spares = e.spares; distinct = e.distinct; keys = e.keys }

pub Shrunk-trans :
    (ptr : LevelPtr) (xs ys : List Order) (m m' m'' : Limits)
    → Shrunk ptr xs m m'
    → Shrunk ptr ys m' m''
    → Shrunk ptr (xs ++ ys) m m''
Shrunk-trans ptr xs ys m m' m'' a b = record {
  spares = λ other os ne s. b.spares other os ne (a.spares other os ne s);
  distinct = b.distinct;
  keys = λ j. ground (arith, a.keys j, b.keys j, has-append j xs ys);
}

-- What is written through the reference is read back.
pub read-write :
    (lvl : LevelRef) (level level' : Level) (book : Book)
    → read_level lvl book ≡ ok level
    → read_level (write_ref lvl level') (write_book lvl level' book) ≡ ok level'
unfolding read_level
read-write (in_book k) level level' book e = ground (arith, find-assign k k level' book)
read-write (freed old) level level' book e = refl

pub write_book-write :
    (lvl : LevelRef) (level level' : Level) (book : Book)
    → write_book (write_ref lvl level) level' (write_book lvl level book)
      ≡ write_book lvl level' book
write_book-write (in_book k) level level' book = assign-assign k level level' book
write_book-write (freed old) level level' book = refl

pub write_ref-write :
    (lvl : LevelRef) (level level' : Level)
    → write_ref (write_ref lvl level) level' ≡ write_ref lvl level'
write_ref-write (in_book k) level level' = refl
write_ref-write (freed old) level level' = refl

-- Writing what is there changes nothing.
pub write_book_self :
    (lvl : LevelRef) (level : Level) (book : Book)
    → read_level lvl book ≡ ok level
    → write_book lvl level book ≡ book
unfolding read_level
write_book_self (in_book k) level book e = ground (arith, assign_self k level book)
write_book_self (freed old) level book e = refl

pub write_ref_self :
    (lvl : LevelRef) (level : Level) (book : Book)
    → read_level lvl book ≡ ok level
    → write_ref lvl level ≡ lvl
unfolding read_level
write_ref_self (in_book k) level book e = refl
write_ref_self (freed old) level book e = ground arith

pub Shrunk-erase :
    (ptr : LevelPtr) (o : Order) (m m' : Limits) (l : Limit)
    → Edit ptr m m'
    → find o.order_id m ≡ some l
    → l.current_level ≡ some ptr
    → Shrunk ptr (o ∷ []) m (erase o.order_id m')
Shrunk-erase ptr o m m' l edit e at = record {
  spares = λ other os ne s.
      Seg-erase m' other none none os o.order_id edit.distinct
        (Seg-not-has m other none none os o.order_id s l e (level-Owned ptr l at other ne))
        (edit.spares other os ne s);
  distinct = erase-Distinct o.order_id m' edit.distinct;
  keys = λ j. ground (arith, known-erase m' o.order_id j edit.distinct, edit.keys j);
}

-- The state after a step: the level through the reference, and the limits.
abbrev pub moved : Level → Limits → Match → Match
moved level m s = record (write_level level s) { limits = m }

module _ (ptr : LevelPtr) (level : Level) (s : Match) (d : Distinct s.limits)
    (at : read_level s.lvl s.book ≡ ok level) where
  pub remove_lem :
      (o : Order) (os : List Order)
      → Apart (o ∷ os)
      → Seg s.limits ptr none (o ∷ os) none
      → (m' : Limits) × (remove_order_from_book o.order_id s
          ≡ ok (first_or none os, moved (record level { head = first_or none os }) m' s))
        × Shrunk ptr (o ∷ []) s.limits m'
        × Seg m' ptr none os none
  unfolding remove_order_from_book clear_prev
  remove_lem o [] a sg = (
    erase o.order_id s.limits,
    rw (deref-ok o.order_id _ s.limits sg.0, at),
    Shrunk-erase ptr o s.limits s.limits _ (Edit-refl ptr s.limits d) sg.0 refl,
    tt,
  )
  remove_lem o (z ∷ zs) a sg =
      let (edit, sg') = unlink_head s.limits ptr d o z zs a sg in
      (
        _,
        rw (deref-ok o.order_id _ s.limits sg.0, set_prev-ok z.order_id none _ s.limits sg.1.0, at),
        Shrunk-erase ptr o s.limits _ _ edit sg.0 refl,
        sg',
      )
