-- ===== src/Matching/Step.antt =====
-- One round of `orderFullyMatchedInLevel` that empties the first order of the level.
use spot_exchange.Prelude.{
  ℕ, suc, ◌-◌, ◌<◌, ◌≡◌, refl, ◌∙◌, Bool, true, false, Option, none, some, List, [], ◌∷◌, arith,
  ◌==◌, min, Distinct,
}
use spot_exchange.Prelude.Run.{ok}
use spot_exchange.Info.{Order}
use spot_exchange.Limits.{LevelPtr, Level, Limits}
use spot_exchange.Limits.Segment.{Apart, first_or, Seg}
use spot_exchange.Limits.Edit.{Edit-assign, deref-ok}
use spot_exchange.Limits.Replace.{Seg-replace}
use spot_exchange.Matching.{Match, read_level, match_in_level}
use spot_exchange.Matching.Trade.{traded, trade_lem}
use spot_exchange.Matching.Remove.{Shrunk, Edit-Shrunk, Shrunk-trans, moved, remove_lem}

module _ {ℓ} {A : Type ℓ} where
  pub on_false : (b : Bool) (x y : A) → b ≡ false → elim b [ true ↦ x | false ↦ y ] ≡ y
  on_false true x y e = cc
  on_false false x y e = refl

  pub on_true : (b : Bool) (x y : A) → b ≡ true → elim b [ true ↦ x | false ↦ y ] ≡ x
  on_true true x y e = refl
  on_true false x y e = cc

module _ (ptr : LevelPtr) (level : Level) (o : Order) (os : List Order) (s : Match)
    (d : Distinct s.limits) (at : read_level s.lvl s.book ≡ ok level) (a : Apart (o ∷ os))
    (sg : Seg s.limits ptr none (o ∷ os) none) where
  abbrev pub next : Option ℕ
  next = first_or none os

  pub traded-Shrunk : (amount : ℕ) → Shrunk ptr [] s.limits (traded ptr none next o amount s).limits
  traded-Shrunk amount =
      Edit-Shrunk ptr s.limits _ (Edit-assign ptr s.limits o.order_id _ _ d sg.0 refl)

  pub traded-Seg :
      (amount : ℕ)
      → Seg
          (traded ptr none next o amount s).limits
          ptr
          none
          (record o { current_quantity = o.current_quantity - amount } ∷ os)
          none
  traded-Seg amount = Seg-replace s.limits ptr (o.current_quantity - amount) none none [] o os a sg

  pub round_sweeps :
      (n k : ℕ)
      → o.current_quantity < s.order.current_quantity
      → (m' : Limits) × (match_in_level (suc n) k (some o.order_id) s
          ≡ match_in_level n k next (
              moved
                (record level { head = next })
                m'
                (traded ptr none next o o.current_quantity s)))
        × Shrunk ptr (o ∷ []) s.limits m'
        × Seg m' ptr none os none
  unfolding match_in_level
  round_sweeps n k h =
      let amount : min o.current_quantity s.order.current_quantity ≡ o.current_quantity =
        omega arith in
      let more : (s.order.current_quantity - o.current_quantity == 0) ≡ false = ground arith in
      let o' : Order = record o { current_quantity = o.current_quantity - o.current_quantity } in
      let s' = traded ptr none next o o.current_quantity s in
      let sh = traded-Shrunk o.current_quantity in
      let (m', run, sh', sg') =
        remove_lem ptr level s' sh.distinct at o' os a (traded-Seg o.current_quantity) in
      (
        m',
        rw (deref-ok o.order_id _ s.limits sg.0, trade_lem ptr none next o s, amount)
            (on_false _ _ _ more ∙ rw run refl),
        Shrunk-trans ptr [] (o ∷ []) s.limits s'.limits m' sh
            (record { spares = sh'.spares; distinct = sh'.distinct; keys = sh'.keys }),
        sg',
      )
