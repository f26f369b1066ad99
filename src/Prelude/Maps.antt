-- ===== src/Prelude/Maps.antt =====
-- std::unordered_map and std::map as association lists.
--
-- `find`, `emplace`, `erase` and `assign` (a write through a reference to the value of a key) serve
-- both; an unordered map gets its new entries at the front. `emplace_by` keeps a list in the order
-- that its first argument gives, as std::map does, and `after` is `++itr`.
use Prim.Native.Nat.{ℕ, ◌+◌}
use mathlib.Core.Path.{◌≡◌, refl}
use mathlib.Core.Logic.{◌≢◌, inl, inr}
use mathlib.Core.Bool.{Bool, true, false}
use mathlib.Core.Option.{Option, none, some}
use mathlib.Core.List.{List, [], ◌∷◌}
use native.Mathlib.Omega.{arith}
use spot_exchange.Prelude.Tests.{◌==◌, if◌then◌else◌, Bool-cases}
use spot_exchange.Prelude.Lists.{length}

abbrev pub Map {ℓ} : Type ℓ → Type ℓ
Map V = List (ℕ × V)

module _ {ℓ} {V : Type ℓ} where
  unfoldable pub find : ℕ → Map V → Option V
  find k [] = none
  find k ((j, v) ∷ m) = if j == k then some v else find k m

  unfoldable pub erase : ℕ → Map V → Map V
  erase k [] = []
  erase k ((j, v) ∷ m) = if j == k then m else (j, v) ∷ erase k m

  unfoldable pub assign : ℕ → V → Map V → Map V
  assign k v [] = []
  assign k v ((j, w) ∷ m) = if j == k then (j, v) ∷ m else (j, w) ∷ assign k v m

  -- The new map, and whether the entry is new.
  unfoldable pub emplace : ℕ → V → Map V → Map V × Bool
  unfolding find
  emplace k v m = elim (find k m) [ none ↦ ((k, v) ∷ m, true) | some w ↦ (m, false) ]

  unfoldable pub emplace_by : (ℕ → ℕ → Bool) → ℕ → V → Map V → Map V
  emplace_by before k v [] = (k, v) ∷ []
  emplace_by before k v ((j, w) ∷ m) =
      if before k j
      then (k, v) ∷ (j, w) ∷ m
      else if before j k
      then (j, w) ∷ emplace_by before k v m
      else (j, w) ∷ m

  unfoldable pub first_key : Map V → Option ℕ
  first_key [] = none
  first_key ((k, v) ∷ m) = some k

  unfoldable pub after : ℕ → Map V → Option ℕ
  unfolding first_key
  after k [] = none
  after k ((j, v) ∷ m) = if j == k then first_key m else after k m

  -- No key twice.
  abbrev pub Below : ℕ → Map V → Type 0
  Below k [] = Unit
  Below k ((j, v) ∷ m) = (j ≢ k) × Below k m

  abbrev pub Distinct : Map V → Type 0
  Distinct [] = Unit
  Distinct ((j, v) ∷ m) = Below j m × Distinct m

  pub find-Below : (k : ℕ) (m : Map V) → Below k m → find k m ≡ none
  unfolding find
  find-Below k [] b = refl
  find-Below k ((j, v) ∷ m) b = ground (arith, find-Below k m b.1)

  pub find-none-Below : (k : ℕ) (m : Map V) → find k m ≡ none → Below k m
  unfolding find
  find-none-Below k [] e = tt
  find-none-Below k ((j, v) ∷ m) e = ground (arith, find-none-Below k m)

  pub find-assign :
      (k j : ℕ) (v : V) (m : Map V)
      → find j (assign k v m)
        ≡ (if j == k then (elim (find k m) [ none ↦ none | some w ↦ some v ]) else find j m)
  unfolding find assign
  find-assign k j v [] = ground arith
  find-assign k j v ((i, w) ∷ m) = ground (arith, find-assign k j v m)

  pub find-erase :
      (k j : ℕ) (m : Map V) → Distinct m → find j (erase k m) ≡ (if j == k then none else find j m)
  unfolding find erase
  find-erase k j [] d = ground arith
  find-erase k j ((i, w) ∷ m) d = ground (arith, find-erase k j m d.1, find-Below i m d.0)

  pub erase-Below : (k j : ℕ) (m : Map V) → Below j m → Below j (erase k m)
  unfolding erase
  erase-Below k j [] b = tt
  erase-Below k j ((i, w) ∷ m) b = ground (arith, erase-Below k j m b.1)

  pub erase-Distinct : (k : ℕ) (m : Map V) → Distinct m → Distinct (erase k m)
  unfolding erase
  erase-Distinct k [] d = tt
  erase-Distinct k ((i, w) ∷ m) d = ground (arith, erase-Distinct k m d.1, erase-Below k i m d.0)

  pub assign-Below : (k j : ℕ) (v : V) (m : Map V) → Below j m → Below j (assign k v m)
  unfolding assign
  assign-Below k j v [] b = tt
  assign-Below k j v ((i, w) ∷ m) b = ground (arith, assign-Below k j v m b.1)

  pub assign-Distinct : (k : ℕ) (v : V) (m : Map V) → Distinct m → Distinct (assign k v m)
  unfolding assign
  assign-Distinct k v [] d = tt
  assign-Distinct k v ((i, w) ∷ m) d =
      ground (arith, assign-Distinct k v m d.1, assign-Below k i v m d.0)

  pub length-assign : (k : ℕ) (v : V) (m : Map V) → length (assign k v m) ≡ length m
  unfolding assign
  length-assign k v [] = refl
  length-assign k v ((i, w) ∷ m) = ground (arith, length-assign k v m)

  pub length-erase :
      (k : ℕ) (v : V) (m : Map V) → find k m ≡ some v → length (erase k m) + 1 ≡ length m
  unfolding find erase
  length-erase k v [] e = cc
  length-erase k v ((i, w) ∷ m) e = ground (arith, length-erase k v m)

  pub erase-Below_self : (k : ℕ) (m : Map V) → Distinct m → Below k (erase k m)
  unfolding erase
  erase-Below_self k [] d = tt
  erase-Below_self k ((j, v) ∷ m) d = elim (Bool-cases (j == k)) [
    | inl hit ↦ let at : j ≡ k = ground arith in rw hit (rw at at d.0)
    | inr miss ↦ rw miss (ground arith, erase-Below_self k m d.1)
  ]

  pub assign_self : (k : ℕ) (v : V) (m : Map V) → find k m ≡ some v → assign k v m ≡ m
  unfolding find assign
  assign_self k v [] e = cc
  assign_self k v ((j, w) ∷ m) e = ground (arith, assign_self k v m)

  pub assign-assign : (k : ℕ) (v w : V) (m : Map V) → assign k w (assign k v m) ≡ assign k w m
  unfolding assign
  assign-assign k v w [] = refl
  assign-assign k v w ((j, x) ∷ m) = ground (arith, assign-assign k v w m)

  pub erase-assign : (k : ℕ) (v : V) (m : Map V) → erase k (assign k v m) ≡ erase k m
  unfolding assign erase
  erase-assign k v [] = refl
  erase-assign k v ((j, x) ∷ m) = ground (arith, erase-assign k v m)
