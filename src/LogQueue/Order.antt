-- ===== src/LogQueue/Order.antt =====
-- The entries come out in the order of their tickets.
use mathlib.Core.List.{append_assoc}
use spot_exchange.Prelude.{
  ℕ, suc, ◌+◌, ◌%◌, ◌^◌, ◌≤◌, ◌<◌, ◌≡◌, refl, sym, ap, ◌∙◌, subst, Bool-cases, inl, inr, Bool, true,
  false, none, some, List, [], ◌∷◌, ◌++◌, arith, length, length-append,
}
use spot_exchange.LogQueue.{Queue, put, claim, spins, construct, front, pop}
use spot_exchange.LogQueue.Cells.{
  slot_of, waiting_of, values, slot_of-claim, waiting_of-claim, values-claim, slot_of-miss,
  slot_of-construct, waiting-split,
}
use spot_exchange.LogQueue.Steps.{
  System, Room, claims, constructs, consumes, claiming, constructing, consuming, Reachable, begins,
  goes,
}

module _ {E : Type 0} where
  -- The queue holds the cells, from the ticket `n` on.
  pub record Holds (n : ℕ) (cs : List (E × Bool)) (s : System E) : Type 0 where
    pub slots : (i : ℕ) → s.queue.slots i ≡ slot_of n cs i
    pub head : s.queue.head ≡ (n + length cs) % 2 ^ 64
    pub tail : s.queue.tail ≡ n % 1024
    pub waiting : s.waiting ≡ waiting_of n cs
    pub count : length s.consumed ≡ n
    pub claimed : s.claimed ≡ s.consumed ++ values cs
    pub few : length cs ≤ 1024

  pub values-length : (cs : List (E × Bool)) → length (values cs) ≡ length cs
  values-length [] = refl
  values-length ((v, c) ∷ cs) = ap suc (values-length cs)

  values-split :
      (fs gs : List (E × Bool)) (v : E)
      → values (fs ++ (v, true) ∷ gs) ≡ values (fs ++ (v, false) ∷ gs)
  values-split [] gs v = refl
  values-split ((w, c) ∷ fs) gs v = ap (◌∷◌ w) (values-split fs gs v)

  length-split :
      (fs gs : List (E × Bool)) (v : E)
      → length (fs ++ (v, true) ∷ gs) ≡ length (fs ++ (v, false) ∷ gs)
  length-split [] gs v = refl
  length-split ((w, c) ∷ fs) gs v = ap suc (length-split fs gs v)

  Holds-claim :
      (n : ℕ) (cs : List (E × Bool)) (s : System E) (v : E)
      → Holds n cs s
      → Room s
      → Holds n (cs ++ (v, false) ∷ []) (claims v s)
  unfolding claim
  Holds-claim n cs s v h room = record {
    slots = λ i. h.slots i ∙ sym (slot_of-claim n i v cs);
    head = rw h.head omega (arith, length-append cs ((v, false) ∷ []));
    tail = h.tail;
    waiting =
        ap (λ w. w ++ (s.queue.head, v) ∷ []) h.waiting
        ∙ ap (λ t. waiting_of n cs ++ (t, v) ∷ []) h.head
        ∙ sym (waiting_of-claim n v cs);
    count = h.count;
    claimed =
        ap (λ l. l ++ v ∷ []) h.claimed
        ∙ append_assoc s.consumed (values cs) (v ∷ [])
        ∙ ap (λ l. s.consumed ++ l) (sym (values-claim v false cs));
    few = omega (
      arith,
      length-append cs ((v, false) ∷ []),
      length-append s.consumed (values cs),
      values-length cs,
      h.few,
      h.count,
      ap length h.claimed,
      room,
    );
  }

  -- The queue after the construction in the slot `i`.
  abbrev built : ℕ → E → Queue E → Queue E
  built t v q = record q { slots = put (t % 1024) (some v) q.slots }

  construct-built : (t : ℕ) (v : E) (q q' : Queue E) → construct t v q ≡ some q' → built t v q ≡ q'
  unfolding construct
  construct-built t v q q' e = elim (Bool-cases (spins t q)) [
    | inl y ↦ ground (arith, y, e)
    | inr n ↦ ground (arith, n, e)
  ]

  Holds-built :
      (n : ℕ) (fs gs : List (E × Bool)) (s : System E) (w : List (ℕ × E)) (t : ℕ) (v : E)
      → Holds n (fs ++ (v, false) ∷ gs) s
      → t ≡ (n + length fs) % 2 ^ 64
      → waiting_of n (fs ++ (v, true) ∷ gs) ≡ w
      → Holds n (fs ++ (v, true) ∷ gs) (constructs (built t v s.queue) w s)
  Holds-built n fs gs s w t v h ticket rest = record {
    slots = λ i.
        let small : length fs < 1024 = omega (arith, h.few, length-append fs ((v, false) ∷ gs)) in
        let same : t % 1024 ≡ (n + length fs) % 1024 = omega (arith, ticket) in
        rw (slot_of-construct n i v fs gs small, same, h.slots i) refl;
    head = h.head ∙ ap (λ k. (n + k) % 2 ^ 64) (sym (length-split fs gs v));
    tail = h.tail;
    waiting = sym rest;
    count = h.count;
    claimed = h.claimed ∙ ap (λ l. s.consumed ++ l) (sym (values-split fs gs v));
    few = omega (arith, h.few, length-split fs gs v);
  }

  Holds-construct :
      (n : ℕ) (cs : List (E × Bool)) (s : System E) (xs ys : List (ℕ × E)) (t : ℕ) (v : E)
      (q : Queue E)
      → Holds n cs s
      → s.waiting ≡ xs ++ (t, v) ∷ ys
      → construct t v s.queue ≡ some q
      → (cs' : List (E × Bool)) × Holds n cs' (constructs q (xs ++ ys) s)
  Holds-construct n cs s xs ys t v q h w e =
      let (fs, gs, split, ticket, rest) = waiting-split n t v xs ys cs (sym h.waiting ∙ w) in
      (
        fs ++ (v, true) ∷ gs,
        subst (λ q. Holds n (fs ++ (v, true) ∷ gs) (constructs q (xs ++ ys) s))
            (construct-built t v s.queue q e)
            (Holds-built n fs gs s (xs ++ ys) t v (subst (λ cs. Holds n cs s) split h) ticket rest),
      )

  -- The oldest cell is constructed, and its entry is what `front` finds.
  front-cell :
      (n : ℕ) (cs : List (E × Bool)) (s : System E) (v : E)
      → Holds n cs s
      → front s.queue ≡ some v
      → (ds : List (E × Bool)) × (cs ≡ (v, true) ∷ ds)
  unfolding front slot_of
  front-cell n [] s v h e = ground (arith, h.slots s.queue.tail)
  front-cell n ((w, false) ∷ cs) s v h e = ground (arith, h.slots s.queue.tail, h.tail)
  front-cell n ((w, true) ∷ cs) s v h e =
      let entry : w ≡ v = ground (arith, h.slots s.queue.tail, h.tail) in
      (cs, ap (λ w. (w, true) ∷ cs) entry)

  Holds-consume :
      (n : ℕ) (cs : List (E × Bool)) (s : System E) (v : E)
      → Holds n ((v, true) ∷ cs) s
      → Holds (n + 1) cs (consumes v s)
  unfolding pop slot_of waiting_of
  Holds-consume n cs s v h = record {
    slots = λ i.
        let miss : slot_of (n + 1) cs (n % 1024) ≡ none =
          slot_of-miss n (n + 1) cs (omega arith) (omega (arith, h.few)) in
        ground (arith, h.slots i, h.tail, miss);
    head = h.head ∙ omega arith;
    tail = rw h.tail omega arith;
    waiting = h.waiting;
    count = omega (arith, length-append s.consumed (v ∷ []), h.count);
    claimed = h.claimed ∙ sym (append_assoc s.consumed (v ∷ []) (values cs));
    few = omega (arith, h.few);
  }

  -- The cells of a state that can be reached.
  pub cells : (s : System E) → Reachable s → (n : ℕ) × (cs : List (E × Bool)) × Holds n cs s
  unfolding slot_of waiting_of
  cells s begins = (
    0,
    [],
    record {
      slots = λ i. refl;
      head = refl;
      tail = refl;
      waiting = refl;
      count = refl;
      claimed = refl;
      few = omega arith;
    },
  )
  cells s (goes _ _ before (claiming r v room)) =
      let (n, cs, h) = cells r before in (n, cs ++ (v, false) ∷ [], Holds-claim n cs r v h room)
  cells s (goes _ _ before (constructing r xs ys t v q w e)) =
      let (n, cs, h) = cells r before in
      let (ds, h') = Holds-construct n cs r xs ys t v q h w e in (n, ds, h')
  cells s (goes _ _ before (consuming r v e)) =
      let (n, cs, h) = cells r before in
      let (ds, split) = front-cell n cs r v h e in
      (n + 1, ds, Holds-consume n ds r v (subst (λ cs. Holds n cs r) split h))

  -- However the producers and the consumer take turns, as long as a producer claims a ticket only while
  -- fewer than 1024 entries are outstanding: what was consumed are the first of the entries claimed, each
  -- once and in the order of their tickets; at most 1024 are left; and if `front` finds an entry, it is
  -- the oldest that is left.
  pub queue-ordered :
      (s : System E)
      → Reachable s
      → (rest : List E) × (s.claimed ≡ s.consumed ++ rest)
        × (length rest ≤ 1024)
        × ((v : E) → front s.queue ≡ some v → (later : List E) × (rest ≡ v ∷ later))
  queue-ordered s r =
      let (n, cs, h) = cells s r in
      (
        values cs,
        h.claimed,
        omega (arith, values-length cs, h.few),
        λ v e. let (ds, split) = front-cell n cs s v h e in (values ds, ap values split),
      )
