-- ===== src/Limits/Count.antt =====
-- The walks over a level: they end, and what they count.
use spot_exchange.Prelude.{
  ℕ, zero, suc, ◌+◌, ◌%◌, ◌^◌, ◌≤◌, ◌<◌, ◌≡◌, ap, ◌∙◌, Option, none, some, List, [], ◌∷◌, arith,
  ◌==◌, if◌then◌else◌, Distinct, erase, length, length-erase, erase-Distinct,
}
use spot_exchange.Prelude.Run.{ok}
use spot_exchange.Info.{Order}
use spot_exchange.Limits.{
  LevelPtr, Level, Limits, rounds, order_count_loop, order_quantity_loop, level_order_count,
  level_order_quantity,
}
use spot_exchange.Limits.Edit.{deref-ok}
use spot_exchange.Limits.Segment.{Apart, first_or, Seg, Seg-erase}

-- A list of the book is no longer than the book, so a walk along it has enough rounds.
pub Seg-length :
    (ptr : LevelPtr) (prev next : Option ℕ) (os : List Order) (m : Limits)
    → Distinct m
    → Apart os
    → Seg m ptr prev os next
    → length os ≤ length m
Seg-length ptr prev next [] m d a s = omega arith
Seg-length ptr prev next (o ∷ os) m d a s = omega (
  arith,
  length-erase o.order_id _ m s.0,
  Seg-length ptr (some o.order_id) next os (erase o.order_id m) (erase-Distinct o.order_id m d) a.1
      (Seg-erase m ptr (some o.order_id) next os o.order_id d a.0 s.1),
)

-- The orders with a quantity left, and the sum of the quantities.
unfoldable pub live : List Order → ℕ
live [] = 0
live (o ∷ os) = if o.current_quantity == 0 then live os else suc (live os)

unfoldable pub total : List Order → ℕ
total [] = 0
total (o ∷ os) = o.current_quantity + total os

module _ (m : Limits) (ptr : LevelPtr) where
  order_count_loop-live :
      (n : ℕ) (prev : Option ℕ) (os : List Order) (cnt : ℕ)
      → Seg m ptr prev os none
      → length os < n
      → cnt < 2 ^ 16
      → order_count_loop n (first_or none os) cnt m ≡ ok ((cnt + live os) % 2 ^ 16)
  unfolding order_count_loop live
  order_count_loop-live zero prev os cnt s f h = absurd (omega arith)
  order_count_loop-live (suc n) prev [] cnt s f h = ap (λ k. ok k) (omega arith)
  order_count_loop-live (suc n) prev (o ∷ os) cnt s f h = rw (deref-ok o.order_id _ m s.0) (
      order_count_loop-live n (some o.order_id) os
        (if o.current_quantity == 0 then cnt else (cnt + 1) % 2 ^ 16) s.1 (omega arith)
        (ground arith)
      ∙ ap (λ k. ok k) (ground arith))

  -- `getLevelOrderCount` counts the orders with a quantity left, modulo 2 ^ 16.
  pub level_order_count-live :
      (level : Level) (os : List Order)
      → Distinct m
      → Apart os
      → Seg m ptr none os none
      → level.head ≡ first_or none os
      → level_order_count level m ≡ ok (live os % 2 ^ 16)
  unfolding level_order_count
  level_order_count-live level os d a s h = rw h (
      order_count_loop-live (rounds m) none os 0 s
        (omega (arith, Seg-length ptr none none os m d a s)) (omega arith)
      ∙ ap (λ k. ok k) (omega arith))

  order_quantity_loop-total :
      (n : ℕ) (prev : Option ℕ) (os : List Order) (acc : ℕ)
      → Seg m ptr prev os none
      → length os < n
      → acc < 2 ^ 32
      → order_quantity_loop n (first_or none os) acc m ≡ ok ((acc + total os) % 2 ^ 32)
  unfolding order_quantity_loop total
  order_quantity_loop-total zero prev os acc s f h = absurd (omega arith)
  order_quantity_loop-total (suc n) prev [] acc s f h = ap (λ k. ok k) (omega arith)
  order_quantity_loop-total (suc n) prev (o ∷ os) acc s f h = rw (deref-ok o.order_id _ m s.0) (
      order_quantity_loop-total n (some o.order_id) os ((acc + o.current_quantity) % 2 ^ 32) s.1
        (omega arith) (omega arith)
      ∙ ap (λ k. ok k) (omega arith))

  -- `getLevelOrderQuantity` is the sum of the quantities, modulo 2 ^ 32.
  pub level_order_quantity-total :
      (level : Level) (os : List Order)
      → Distinct m
      → Apart os
      → Seg m ptr none os none
      → level.head ≡ first_or none os
      → level_order_quantity level m ≡ ok (total os % 2 ^ 32)
  unfolding level_order_quantity
  level_order_quantity-total level os d a s h = rw h (
      order_quantity_loop-total (rounds m) none os 0 s
        (omega (arith, Seg-length ptr none none os m d a s)) (omega arith)
      ∙ ap (λ k. ok k) (omega arith))
