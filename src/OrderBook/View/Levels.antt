-- ===== src/OrderBook/View/Levels.antt =====
-- How the two maps of `Levels` follow one another through the map operations.
use spot_exchange.Prelude.{
  ℕ, ◌≡◌, ◌≢◌, refl, true, false, none, some, List, [], ◌∷◌, arith, ◌==◌, Bool-cases, inl, inr, Map,
  Below, Distinct, find, erase, assign, emplace_by,
}
use spot_exchange.Info.{Order}
use spot_exchange.Limits.{Side, ask, bid, Level, Limits, Book}
use spot_exchange.Limits.Segment.{Spares}
use spot_exchange.OrderBook.{before}
use spot_exchange.OrderBook.View.{Orders, level_ptr, IsLevel, Levels, AllAfter, Sorted}

pub AllAfter-Below : (side : Side) (p : ℕ) (ys : Orders) → AllAfter side p ys → Below p ys
AllAfter-Below side p [] a = tt
AllAfter-Below ask p ((q, os) ∷ ys) a = ground (arith, AllAfter-Below ask p ys a.1)
AllAfter-Below bid p ((q, os) ∷ ys) a = ground (arith, AllAfter-Below bid p ys a.1)

pub Sorted-Distinct : (side : Side) (ys : Orders) → Sorted side ys → Distinct ys
Sorted-Distinct side [] s = tt
Sorted-Distinct side ((p, os) ∷ ys) s = (AllAfter-Below side p ys s.0, Sorted-Distinct side ys s.1)

module _ (side : Side) (k : ℕ) (os : List Order) where
  AllAfter-assign : (p : ℕ) (ys : Orders) → AllAfter side p ys → AllAfter side p (assign k os ys)
  unfolding assign
  AllAfter-assign p [] a = tt
  AllAfter-assign p ((q, xs) ∷ ys) a = ground (arith, AllAfter-assign p ys a.1)

  AllAfter-erase : (p : ℕ) (ys : Orders) → AllAfter side p ys → AllAfter side p (erase k ys)
  unfolding erase
  AllAfter-erase p [] a = tt
  AllAfter-erase p ((q, xs) ∷ ys) a = ground (arith, AllAfter-erase p ys a.1)

  pub Sorted-assign : (ys : Orders) → Sorted side ys → Sorted side (assign k os ys)
  unfolding assign
  Sorted-assign [] s = tt
  Sorted-assign ((q, xs) ∷ ys) s = ground (arith, Sorted-assign ys s.1, AllAfter-assign q ys s.0)

  pub Sorted-erase : (ys : Orders) → Sorted side ys → Sorted side (erase k ys)
  unfolding erase
  Sorted-erase [] s = tt
  Sorted-erase ((q, xs) ∷ ys) s = ground (arith, Sorted-erase ys s.1, AllAfter-erase q ys s.0)

AllAfter-emplace :
    (side : Side) (k : ℕ) (os : List Order) (p : ℕ) (ys : Orders)
    → before side p k ≡ true
    → AllAfter side p ys
    → AllAfter side p (emplace_by (before side) k os ys)
unfolding emplace_by
AllAfter-emplace side k os p [] b a = (b, tt)
AllAfter-emplace side k os p ((q, xs) ∷ ys) b a =
    ground (arith, AllAfter-emplace side k os p ys b a.1)

AllAfter-trans :
    (side : Side) (p q : ℕ) (ys : Orders)
    → before side p q ≡ true
    → AllAfter side q ys
    → AllAfter side p ys
AllAfter-trans side p q [] b a = tt
AllAfter-trans ask p q ((r, xs) ∷ ys) b a = ground (arith, AllAfter-trans ask p q ys b a.1)
AllAfter-trans bid p q ((r, xs) ∷ ys) b a = ground (arith, AllAfter-trans bid p q ys b a.1)

pub Sorted-emplace :
    (side : Side) (k : ℕ) (os : List Order) (ys : Orders)
    → Sorted side ys
    → Sorted side (emplace_by (before side) k os ys)
unfolding emplace_by
Sorted-emplace side k os [] s = (tt, tt)
Sorted-emplace side k os ((q, xs) ∷ ys) s = ground (
  arith,
  AllAfter-trans side k q ys,
  AllAfter-emplace side k os q ys,
  Sorted-emplace side k os ys s.1,
)

-- Lookup agrees.
pub Levels-find :
    (m : Limits) (side : Side) (k : ℕ) (ls : Book) (ys : Orders) (level : Level)
    → Levels m side ls ys
    → find k ls ≡ some level
    → (os : List Order) × (find k ys ≡ some os) × IsLevel m side k level os
unfolding find
Levels-find m side k [] [] level r e = cc
Levels-find m side k [] (y ∷ ys) level r e = elim r [ ]
Levels-find m side k (l ∷ ls) [] level r e = elim r [ ]
Levels-find m side k ((p, l) ∷ ls) ((q, xs) ∷ ys) level r e = elim (Bool-cases (p == k)) [
  | inl hit ↦
      let at : p ≡ k = ground arith in
      let same : l ≡ level = ground arith in (xs, ground arith, rw (← at, ← same) r.1)
  | inr miss ↦
      let (os, found, is) = Levels-find m side k ls ys level r.2 (ground arith) in
      (os, ground arith, is)
]

pub Levels-find_orders :
    (m : Limits) (side : Side) (k : ℕ) (ls : Book) (ys : Orders) (os : List Order)
    → Levels m side ls ys
    → find k ys ≡ some os
    → (level : Level) × (find k ls ≡ some level) × IsLevel m side k level os
unfolding find
Levels-find_orders m side k [] [] os r e = cc
Levels-find_orders m side k [] (y ∷ ys) os r e = elim r [ ]
Levels-find_orders m side k (l ∷ ls) [] os r e = elim r [ ]
Levels-find_orders m side k ((p, l) ∷ ls) ((q, xs) ∷ ys) os r e = elim (Bool-cases (p == k)) [
  | inl hit ↦
      let at : p ≡ k = ground arith in
      let same : xs ≡ os = ground arith in (l, ground arith, rw (← at, ← same) r.1)
  | inr miss ↦
      let (level, found, is) = Levels-find_orders m side k ls ys os r.2 (ground arith) in
      (level, ground arith, is)
]

pub Levels-find-none :
    (m : Limits) (side : Side) (k : ℕ) (ls : Book) (ys : Orders)
    → Levels m side ls ys
    → find k ls ≡ none
    → find k ys ≡ none
unfolding find
Levels-find-none m side k [] [] r e = refl
Levels-find-none m side k [] (y ∷ ys) r e = elim r [ ]
Levels-find-none m side k (l ∷ ls) [] r e = elim r [ ]
Levels-find-none m side k ((p, l) ∷ ls) ((q, xs) ∷ ys) r e =
    ground (arith, Levels-find-none m side k ls ys r.2)

pub before-total :
    (side : Side) (p q : ℕ) → before side p q ≡ false → before side q p ≡ false → q ≡ p
before-total ask p q a b = ground arith
before-total bid p q a b = ground arith

module _ (m m' : Limits) (side : Side) (k : ℕ) where
  pub IsLevel-frame :
      (p : ℕ) (level : Level) (os : List Order)
      → Spares (level_ptr side k) m m'
      → p ≢ k
      → IsLevel m side p level os
      → IsLevel m' side p level os
  IsLevel-frame p level os keep d is = record {
    head = is.head;
    tail = is.tail;
    seg = keep (level_ptr side p) os (ground arith) is.seg;
    apart = is.apart;
    at = is.at;
    ne_nil = is.ne_nil;
  }

  -- The levels of the other prices.
  pub Levels-frame :
      (ls : Book) (ys : Orders)
      → Spares (level_ptr side k) m m'
      → Below k ys
      → Levels m side ls ys
      → Levels m' side ls ys
  Levels-frame [] [] keep b r = tt
  Levels-frame [] (y ∷ ys) keep b r = elim r [ ]
  Levels-frame (l ∷ ls) [] keep b r = elim r [ ]
  Levels-frame ((p, l) ∷ ls) ((q, xs) ∷ ys) keep b r =
      (r.0, IsLevel-frame p l xs keep (ground arith) r.1, Levels-frame ls ys keep b.1 r.2)

  pub Levels-assign :
      (level : Level) (os : List Order) (ls : Book) (ys : Orders)
      → Spares (level_ptr side k) m m'
      → Distinct ys
      → IsLevel m' side k level os
      → Levels m side ls ys
      → Levels m' side (assign k level ls) (assign k os ys)
  unfolding assign
  Levels-assign level os [] [] keep d is r = tt
  Levels-assign level os [] (y ∷ ys) keep d is r = elim r [ ]
  Levels-assign level os (l ∷ ls) [] keep d is r = elim r [ ]
  Levels-assign level os ((p, l) ∷ ls) ((q, xs) ∷ ys) keep d is r = elim (Bool-cases (q == k)) [
    | inl hit ↦
        let at : q ≡ k = ground arith in
        let at' : p ≡ q = r.0 in
        rw (at', hit) (refl, rw at is, Levels-frame ls ys keep (rw at at d.0) r.2)
    | inr miss ↦
        let at : p ≡ q = r.0 in
        rw (at, miss)
          (
            refl,
            IsLevel-frame q l xs keep (ground arith) (rw at at r.1),
            Levels-assign level os ls ys keep d.1 is r.2,
          )
  ]

  pub Levels-erase :
      (ls : Book) (ys : Orders)
      → Spares (level_ptr side k) m m'
      → Distinct ys
      → Levels m side ls ys
      → Levels m' side (erase k ls) (erase k ys)
  unfolding erase
  Levels-erase [] [] keep d r = tt
  Levels-erase [] (y ∷ ys) keep d r = elim r [ ]
  Levels-erase (l ∷ ls) [] keep d r = elim r [ ]
  Levels-erase ((p, l) ∷ ls) ((q, xs) ∷ ys) keep d r =
      let at : p ≡ q = r.0 in
      elim (Bool-cases (q == k)) [
        | inl hit ↦
            let at' : q ≡ k = ground arith in
            rw (at, hit) (Levels-frame ls ys keep (rw at' at d.0) r.2)
        | inr miss ↦
            rw (at, miss)
              (
                refl,
                IsLevel-frame q l xs keep (ground arith) (rw at at r.1),
                Levels-erase ls ys keep d.1 r.2,
              )
      ]

  pub Levels-emplace :
      (level : Level) (os : List Order) (ls : Book) (ys : Orders)
      → Spares (level_ptr side k) m m'
      → Below k ys
      → IsLevel m' side k level os
      → Levels m side ls ys
      → Levels m' side (emplace_by (before side) k level ls) (emplace_by (before side) k os ys)
  unfolding emplace_by
  Levels-emplace level os [] [] keep b is r = (refl, is, tt)
  Levels-emplace level os [] (y ∷ ys) keep b is r = elim r [ ]
  Levels-emplace level os (l ∷ ls) [] keep b is r = elim r [ ]
  Levels-emplace level os ((p, l) ∷ ls) ((q, xs) ∷ ys) keep b is r =
      let at : p ≡ q = r.0 in
      let this = IsLevel-frame q l xs keep b.0 (rw at at r.1) in
      elim (Bool-cases (before side k q)) [
        | inl first ↦ rw (at, first) (refl, is, (refl, this, Levels-frame ls ys keep b.1 r.2))
        | inr later ↦ elim (Bool-cases (before side q k)) [
          | inl below ↦
              rw (at, later, below) (refl, this, Levels-emplace level os ls ys keep b.1 is r.2)
          | inr equal ↦ absurd (b.0 (before-total side k q later equal))
        ]
      ]

-- A new level that is written at once.
pub assign-emplace {ℓ} :
    {V : Type ℓ} (side : Side) (k : ℕ) (v w : V) (m : Map V)
    → Below k m
    → assign k w (emplace_by (before side) k v m) ≡ emplace_by (before side) k w m
unfolding assign emplace_by
assign-emplace side k v w [] b = ground arith
assign-emplace side k v w ((j, x) ∷ m) b =
    ground (arith, assign-emplace side k v w m b.1, before-total side k j)

pub Levels-Below :
    (m : Limits) (side : Side) (k : ℕ) (ls : Book) (ys : Orders)
    → Levels m side ls ys
    → Below k ys
    → Below k ls
Levels-Below m side k [] [] r b = tt
Levels-Below m side k [] (y ∷ ys) r b = elim r [ ]
Levels-Below m side k (l ∷ ls) [] r b = elim r [ ]
Levels-Below m side k ((p, l) ∷ ls) ((q, xs) ∷ ys) r b =
    (rw r.0 b.0, Levels-Below m side k ls ys r.2 b.1)
