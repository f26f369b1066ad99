-- ===== src/Matching/Left.antt =====
-- What an order leaves of a level is still a level.
use spot_exchange.Prelude.{
  ℕ, ◌-◌, ◌≡◌, ◌≢◌, ◌⊎◌, refl, sym, ap, ◌∙◌, true, false, inl, inr, Option, none, List, [], ◌∷◌,
  arith, if◌then◌else◌,
}
use spot_exchange.Info.{Order}
use spot_exchange.Limits.Segment.{has, Apart, last_or}
use spot_exchange.Matching.Fifo.{left_orders}
use spot_exchange.Matching.InLevel.{taken}

last_or-left_orders :
    (q : ℕ) (p : Option ℕ) (os : List Order)
    → (left_orders q os ≡ []) ⊎ (last_or p (left_orders q os) ≡ last_or p os)
unfolding left_orders
last_or-left_orders q p [] = inl refl
last_or-left_orders q p (o ∷ []) = ground arith
last_or-left_orders q p (o ∷ z ∷ os) =
    ground (arith, last_or-left_orders (q - o.current_quantity) p (z ∷ os))

pub last_or-left :
    (q : ℕ) (os zs : List Order)
    → left_orders q os ≡ zs
    → zs ≢ []
    → last_or none os ≡ last_or none zs
last_or-left q os zs e ne = elim (last_or-left_orders q none os) [
  | inl n ↦ absurd (ne (sym e ∙ n))
  | inr l ↦ sym l ∙ ap (last_or none) e
]

pub has-left_orders :
    (q j : ℕ) (os : List Order)
    → Apart os
    → has j (left_orders q os) ≡ (if has j (taken q os) then false else has j os)
unfolding left_orders taken
has-left_orders q j [] a = refl
has-left_orders q j (o ∷ os) a = ground (arith, has-left_orders (q - o.current_quantity) j os a.1)

pub has-taken : (q j : ℕ) (os : List Order) → has j (taken q os) ≡ true → has j os ≡ true
unfolding taken
has-taken q j [] h = h
has-taken q j (o ∷ os) h = ground (arith, has-taken (q - o.current_quantity) j os)

pub left_orders-Apart : (q : ℕ) (os : List Order) → Apart os → Apart (left_orders q os)
unfolding left_orders
left_orders-Apart q [] a = tt
left_orders-Apart q (o ∷ os) a = ground (arith, left_orders-Apart (q - o.current_quantity) os a.1)
