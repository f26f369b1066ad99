-- ===== src/LogQueue/Cells.antt =====
-- The entries between the two ends of the queue, oldest first, and whether each is constructed.
use spot_exchange.Prelude.{
  ℕ, ◌+◌, ◌%◌, ◌^◌, ◌≤◌, ◌<◌, ◌≡◌, refl, ap, ◌∙◌, Bool, true, false, Option, none, some, List, [],
  ◌∷◌, ◌++◌, arith, ◌==◌, if◌then◌else◌, length,
}

module _ {E : Type 0} where
  -- What the slot `i` holds when the oldest entry has the ticket `n`.
  unfoldable pub slot_of : ℕ → List (E × Bool) → ℕ → Option E
  slot_of n [] i = none
  slot_of n ((v, constructed) ∷ cs) i =
      let rest = slot_of (n + 1) cs i in
      if i == n % 1024 then (if constructed then some v else none) else rest

  -- The producers that have a ticket and have not constructed.
  unfoldable pub waiting_of : ℕ → List (E × Bool) → List (ℕ × E)
  waiting_of n [] = []
  waiting_of n ((v, true) ∷ cs) = waiting_of (n + 1) cs
  waiting_of n ((v, false) ∷ cs) = (n % 2 ^ 64, v) ∷ waiting_of (n + 1) cs

  abbrev pub values : List (E × Bool) → List E
  values [] = []
  values ((v, constructed) ∷ cs) = v ∷ values cs

  pub slot_of-claim :
      (n i : ℕ) (v : E) (cs : List (E × Bool))
      → slot_of n (cs ++ (v, false) ∷ []) i ≡ slot_of n cs i
  unfolding slot_of
  slot_of-claim n i v [] = ground arith
  slot_of-claim n i v ((w, c) ∷ cs) = rw (slot_of-claim (n + 1) i v cs) refl

  pub waiting_of-claim :
      (n : ℕ) (v : E) (cs : List (E × Bool))
      → waiting_of n (cs ++ (v, false) ∷ []) ≡ waiting_of n cs ++ ((n + length cs) % 2 ^ 64, v) ∷ []
  unfolding waiting_of
  waiting_of-claim n v [] = ap (λ k. (k % 2 ^ 64, v) ∷ []) (omega arith)
  waiting_of-claim n v ((w, true) ∷ cs) =
      waiting_of-claim (n + 1) v cs
      ∙ ap (λ k. waiting_of (n + 1) cs ++ (k % 2 ^ 64, v) ∷ []) (omega arith)
  waiting_of-claim n v ((w, false) ∷ cs) = ap (◌∷◌ (n % 2 ^ 64, w)) (
      waiting_of-claim (n + 1) v cs
      ∙ ap (λ k. waiting_of (n + 1) cs ++ (k % 2 ^ 64, v) ∷ []) (omega arith))

  pub values-claim :
      (v : E) (c : Bool) (cs : List (E × Bool)) → values (cs ++ (v, c) ∷ []) ≡ values cs ++ v ∷ []
  values-claim v c [] = refl
  values-claim v c ((w, d) ∷ cs) = ap (◌∷◌ w) (values-claim v c cs)

  -- Within 1024 tickets no two have the same slot.
  pub slot_of-miss :
      (n m : ℕ) (cs : List (E × Bool))
      → n < m
      → m + length cs ≤ n + 1024
      → slot_of m cs (n % 1024) ≡ none
  unfolding slot_of
  slot_of-miss n m [] h l = refl
  slot_of-miss n m ((v, c) ∷ cs) h l =
      let differs : (n % 1024 == m % 1024) ≡ false = ground arith in
      rw (differs, slot_of-miss n (m + 1) cs (omega arith) (omega arith)) refl

  -- A construction in the middle.
  pub slot_of-construct :
      (n i : ℕ) (v : E) (fs gs : List (E × Bool))
      → length fs < 1024
      → slot_of n (fs ++ (v, true) ∷ gs) i
        ≡ (if i == (n + length fs) % 1024 then some v else slot_of n (fs ++ (v, false) ∷ gs) i)
  unfolding slot_of
  slot_of-construct n i v [] gs h = ground arith
  slot_of-construct n i v ((w, c) ∷ fs) gs h =
      ground (arith, slot_of-construct (n + 1) i v fs gs (omega arith))

  -- A waiting producer among the cells.
  pub waiting-split :
      (n t : ℕ) (v : E) (xs ys : List (ℕ × E)) (cs : List (E × Bool))
      → waiting_of n cs ≡ xs ++ (t, v) ∷ ys
      → (fs gs : List (E × Bool)) × (cs ≡ fs ++ (v, false) ∷ gs)
        × (t ≡ (n + length fs) % 2 ^ 64)
        × (waiting_of n (fs ++ (v, true) ∷ gs) ≡ xs ++ ys)
  unfolding waiting_of
  waiting-split n t v [] ys [] e = cc
  waiting-split n t v (x ∷ xs) ys [] e = cc
  waiting-split n t v xs ys ((w, true) ∷ cs) e =
      let (fs, gs, split, ticket, rest) = waiting-split (n + 1) t v xs ys cs e in
      ((w, true) ∷ fs, gs, ap (◌∷◌ (w, true)) split, ticket ∙ omega arith, rest)
  waiting-split n t v [] ys ((w, false) ∷ cs) e =
      let ticket : n % 2 ^ 64 ≡ t = cc in
      let entry : w ≡ v = cc in
      let rest : waiting_of (n + 1) cs ≡ ys = cc in
      ([], cs, ap (λ v. (v, false) ∷ cs) entry, omega arith, rest)
  waiting-split n t v (x ∷ xs) ys ((w, false) ∷ cs) e =
      let here : (n % 2 ^ 64, w) ≡ x = cc in
      let there : waiting_of (n + 1) cs ≡ xs ++ (t, v) ∷ ys = cc in
      let (fs, gs, split, ticket, rest) = waiting-split (n + 1) t v xs ys cs there in
      (
        (w, false) ∷ fs,
        gs,
        ap (◌∷◌ (w, false)) split,
        ticket ∙ omega arith,
        ap (λ l. (n % 2 ^ 64, w) ∷ l) rest ∙ ap (λ p. p ∷ (xs ++ ys)) here,
      )
