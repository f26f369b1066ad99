-- ===== src/ClientBook/Sizes.antt =====
-- What the two operations do to the size of each price.
use spot_exchange.Prelude.{
  ◌&&◌, ℕ, ◌+◌, ◌-◌, ◌^◌, ◌≤◌, ◌<◌, ◌≡◌, refl, sym, inl, inr, Bool, true, false, none, some, [],
  ◌∷◌, arith, ltb, ◌==◌, if◌then◌else◌, Bool-cases, Option-cases, Map, Distinct, Below, ◌≢◌,
  find-none-Below, assign-Distinct, erase-Distinct, find, erase, assign, emplace_by, find-assign,
  find-erase, ℤ, pos, ◌+ℤ◌, ◌-ℤ◌, ltb_ℤ, ltb_ℤ-pos, wrap, add-pos, sub-pos, wrap_64-small,
}
use spot_exchange.ClientBook.{
  ClientOrderBook, buys, sizes_of, with_sizes, add_to_book, remove_from_book, add_size, remove_size,
}

-- The size at a price, 0 where there is no entry.
abbrev pub size_at : ℕ → Map ℤ → ℤ
size_at price sizes = elim (find price sizes) [ none ↦ pos 0 | some size ↦ size ]

find-emplace_by :
    (k j : ℕ) (v : ℤ) (m : Map ℤ)
    → find k m ≡ none
    → find j (emplace_by ltb k v m) ≡ (if k == j then some v else find j m)
unfolding find emplace_by
find-emplace_by k j v [] e = ground arith
find-emplace_by k j v ((p, s) ∷ m) e = ground (arith, find-emplace_by k j v m)

emplace_by-Below :
    (k j : ℕ) (v : ℤ) (m : Map ℤ) → j ≢ k → Below j m → Below j (emplace_by ltb k v m)
unfolding emplace_by
emplace_by-Below k j v [] d b = (λ e. d (sym e), tt)
emplace_by-Below k j v ((p, s) ∷ m) d b = ground (arith, emplace_by-Below k j v m d b.1)

emplace_by-Distinct :
    (k : ℕ) (v : ℤ) (m : Map ℤ) → Below k m → Distinct m → Distinct (emplace_by ltb k v m)
unfolding emplace_by
emplace_by-Distinct k v [] b d = (tt, tt)
emplace_by-Distinct k v ((p, s) ∷ m) b d =
    ground (arith, emplace_by-Distinct k v m b.1 d.1, emplace_by-Below k p v m b.0 d.0)

module _ (sh : ℤ) (p : ℕ) (m : Map ℤ) where
  add_size-none : find p m ≡ none → add_size sh p m ≡ emplace_by ltb p (wrap 64 (pos 0 +ℤ sh)) m
  unfolding add_size
  add_size-none e = rw (e, add_size) refl

  add_size-some : (s : ℤ) → find p m ≡ some s → add_size sh p m ≡ assign p (wrap 64 (s +ℤ sh)) m
  unfolding add_size
  add_size-some s e = rw (e, add_size) refl

  remove_size-none : find p m ≡ none → remove_size sh p m ≡ m
  unfolding remove_size
  remove_size-none e = rw (e, remove_size) refl

  remove_size-some :
      (s : ℤ)
      → find p m ≡ some s
      → remove_size sh p m
        ≡ (if ltb_ℤ (pos 0) (wrap 64 (s -ℤ sh)) then assign p (wrap 64 (s -ℤ sh)) m else erase p m)
  unfolding remove_size
  remove_size-some s e = rw (e, remove_size) refl

module _ (p n q : ℕ) (m : Map ℤ) (at : size_at p m ≡ pos n) where
  pub add_size-Distinct : Distinct m → Distinct (add_size (pos q) p m)
  add_size-Distinct d = elim (Option-cases (find p m)) [
    | inl e ↦
        rw (add_size-none (pos q) p m e)
          (emplace_by-Distinct p (wrap 64 (pos 0 +ℤ pos q)) m (find-none-Below p m e) d)
    | inr (s, e) ↦ rw (add_size-some (pos q) p m s e) (assign-Distinct p (wrap 64 (s +ℤ pos q)) m d)
  ]

  pub remove_size-Distinct : Distinct m → Distinct (remove_size (pos q) p m)
  remove_size-Distinct d = elim (Option-cases (find p m)) [
    | inl e ↦ rw (remove_size-none (pos q) p m e) d
    | inr (s, e) ↦
        rw (remove_size-some (pos q) p m s e)
          (ground (arith, assign-Distinct p (wrap 64 (s -ℤ pos q)) m d, erase-Distinct p m d))
  ]

  pub size_at-add :
      (j : ℕ)
      → n + q < 2 ^ 63
      → size_at j (add_size (pos q) p m) ≡ (if p == j then pos (n + q) else size_at j m)
  size_at-add j h = elim (Option-cases (find p m)) [
    | inl e ↦
        let zero : n ≡ 0 = ground (arith, e, at) in
        rw (add_size-none (pos q) p m e, add-pos, wrap_64-small (0 + q) (omega arith), zero)
          (ground (arith, find-emplace_by p j (pos (0 + q)) m e))
    | inr (s, e) ↦
        let same : s ≡ pos n = ground (arith, e, at) in
        rw (add_size-some (pos q) p m s e, same, add-pos, wrap_64-small (n + q) h)
          (ground (arith, find-assign p j (pos (n + q)) m))
  ]

  pub size_at-remove :
      (j : ℕ)
      → Distinct m
      → q ≤ n
      → n < 2 ^ 63
      → size_at j (remove_size (pos q) p m) ≡ (if p == j then pos (n - q) else size_at j m)
  size_at-remove j d le h = elim (Option-cases (find p m)) [
    | inl e ↦
        let zero : n ≡ 0 = ground (arith, e, at) in
        rw (remove_size-none (pos q) p m e) (ground arith)
    | inr (s, e) ↦
        let same : s ≡ pos n = ground (arith, e, at) in
        rw
          (
            remove_size-some (pos q) p m s e,
            same,
            sub-pos n q le,
            wrap_64-small (n - q) (omega arith),
          )
          (ground (arith, ltb_ℤ-pos 0 (n - q), find-assign p j (pos (n - q)) m, find-erase p j m d))
  ]

abbrev pub same_side : Bool → Bool → Bool
same_side true s = s
same_side false true = false
same_side false false = true

sizes_of-with_sizes :
    (side s : Bool) (m : Map ℤ) (b : ClientOrderBook)
    → sizes_of s (with_sizes side m b) ≡ (if same_side side s then m else sizes_of s b)
sizes_of-with_sizes true true m b = refl
sizes_of-with_sizes true false m b = refl
sizes_of-with_sizes false true m b = refl
sizes_of-with_sizes false false m b = refl

pub same_side-true : (a s : Bool) → same_side a s ≡ true → a ≡ s
same_side-true true s e = sym e
same_side-true false true e = cc
same_side-true false false e = refl

ticker-with_sizes :
    (side : Bool) (m : Map ℤ) (b : ClientOrderBook) → (with_sizes side m b).ticker ≡ b.ticker
ticker-with_sizes true m b = refl
ticker-with_sizes false m b = refl

-- The two operations on a book, side by side.
module _ (c n q p : ℕ) (b : ClientOrderBook) (at : size_at p (sizes_of (buys c) b) ≡ pos n) where
  pub ticker-add : (add_to_book c (pos q) p b).ticker ≡ b.ticker
  unfolding add_to_book
  ticker-add = ticker-with_sizes (buys c) _ b

  pub ticker-remove : (remove_from_book c (pos q) p b).ticker ≡ b.ticker
  unfolding remove_from_book
  ticker-remove = ticker-with_sizes (buys c) _ b

  module _ (s : Bool) (d : (s : Bool) → Distinct (sizes_of s b)) where
    pub add_to_book-Distinct : Distinct (sizes_of s (add_to_book c (pos q) p b))
    unfolding add_to_book
    add_to_book-Distinct =
        rw (sizes_of-with_sizes (buys c) s (add_size (pos q) p (sizes_of (buys c) b)) b)
          (ground (arith, add_size-Distinct p n q (sizes_of (buys c) b) at (d (buys c)), d s))

    pub remove_from_book-Distinct : Distinct (sizes_of s (remove_from_book c (pos q) p b))
    unfolding remove_from_book
    remove_from_book-Distinct =
        rw (sizes_of-with_sizes (buys c) s (remove_size (pos q) p (sizes_of (buys c) b)) b)
          (ground (arith, remove_size-Distinct p n q (sizes_of (buys c) b) at (d (buys c)), d s))

    pub add_to_book-size :
        (r : ℕ)
        → n + q < 2 ^ 63
        → size_at r (sizes_of s (add_to_book c (pos q) p b))
          ≡ (if same_side (buys c) s && p == r then pos (n + q) else size_at r (sizes_of s b))
    unfolding add_to_book
    add_to_book-size r h =
        rw (sizes_of-with_sizes (buys c) s (add_size (pos q) p (sizes_of (buys c) b)) b)
          (elim (Bool-cases (same_side (buys c) s)) [
            | inl e ↦
                rw (e, ← same_side-true (buys c) s e)
                  (size_at-add p n q (sizes_of (buys c) b) at r h)
            | inr e ↦ rw e refl
          ])

    pub remove_from_book-size :
        (r : ℕ)
        → q ≤ n
        → n < 2 ^ 63
        → size_at r (sizes_of s (remove_from_book c (pos q) p b))
          ≡ (if same_side (buys c) s && p == r then pos (n - q) else size_at r (sizes_of s b))
    unfolding remove_from_book
    remove_from_book-size r le h =
        rw (sizes_of-with_sizes (buys c) s (remove_size (pos q) p (sizes_of (buys c) b)) b)
          (elim (Bool-cases (same_side (buys c) s)) [
            | inl e ↦
                rw (e, ← same_side-true (buys c) s e)
                  (size_at-remove p n q (sizes_of (buys c) b) at r (d (buys c)) le h)
            | inr e ↦ rw e refl
          ])
