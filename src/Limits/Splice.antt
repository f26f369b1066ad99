-- ===== src/Limits/Splice.antt =====
-- The pointer writes that take a limit out of its list, or put one behind the last.
use spot_exchange.Prelude.{
  ℕ, ◌≡◌, refl, true, false, Option, none, some, List, [], ◌∷◌, ◌++◌, arith, Bool-cases, inl, inr,
  Distinct, find, erase, assign,
}
use spot_exchange.Info.{Order}
use spot_exchange.Limits.{LevelPtr, Limits}
use spot_exchange.Limits.Segment.{
  has, Apart, first_or, last_or, linked, Seg, has-append, Apart-append, Apart-not-has,
  last_or-append, Seg-split, Seg-join, Seg-assign, Seg-erase, Seg-set_next, Seg-set_prev,
}
use spot_exchange.Limits.Edit.{Edit, Edit-assign, Edit-trans}

-- Orders of `xs ++ o ∷ zs` do not stand on both sides of `o`.
pub Apart-cross :
    (xs : List Order) (o : Order) (zs : List Order) (id : ℕ)
    → Apart (xs ++ o ∷ zs)
    → has id zs ≡ true
    → has id xs ≡ false
Apart-cross [] o zs id a h = refl
Apart-cross (x ∷ xs) o zs id a h =
    ground (arith, has-append x.order_id xs (o ∷ zs), Apart-cross xs o zs id a.1)

pub Apart-cross_back :
    (xs : List Order) (o : Order) (zs : List Order) (id : ℕ)
    → Apart (xs ++ o ∷ zs)
    → has id xs ≡ true
    → has id zs ≡ false
Apart-cross_back xs o zs id a h = elim (Bool-cases (has id zs)) [
  | inl both ↦ cc (Apart-cross xs o zs id a both)
  | inr out ↦ out
]

pub Apart-drop :
    (xs : List Order) (o : Order) (zs : List Order) → Apart (xs ++ o ∷ zs) → Apart (xs ++ zs)
Apart-drop [] o zs a = a.1
Apart-drop (x ∷ xs) o zs a =
    ground (
      arith,
      has-append x.order_id xs (o ∷ zs),
      has-append x.order_id xs zs,
      Apart-drop xs o zs a.1,
    )

-- The limit in the list.
pub Seg-at :
    (m : Limits) (ptr : LevelPtr) (prev next : Option ℕ) (xs : List Order) (o : Order)
    (zs : List Order)
    → Seg m ptr prev (xs ++ o ∷ zs) next
    → find o.order_id m ≡ some (linked ptr o (last_or prev xs) (first_or next zs))
Seg-at m ptr prev next xs o zs s = (Seg-split m ptr prev next xs (o ∷ zs) s).1.0

module _ (m : Limits) (ptr : LevelPtr) (d : Distinct m) where
  -- The first limit goes: its successor gets no predecessor.
  pub unlink_head :
      (o z : Order) (zs : List Order)
      → Apart (o ∷ z ∷ zs)
      → Seg m ptr none (o ∷ z ∷ zs) none
      → let m' = assign z.order_id (linked ptr z none (first_or none zs)) m in
        Edit ptr m m' × Seg (erase o.order_id m') ptr none (z ∷ zs) none
  unlink_head o z zs a s =
      let edit =
        Edit-assign ptr m z.order_id (linked ptr z (some o.order_id) (first_or none zs))
          (linked ptr z none (first_or none zs)) d s.1.0 refl in
      (
        edit,
        Seg-erase _ ptr none none (z ∷ zs) o.order_id edit.distinct a.0
            (Seg-set_prev m ptr (some o.order_id) none none z zs a.1 s.1),
      )

  -- The last limit goes: its predecessor gets no successor.
  pub unlink_tail :
      (xs : List Order) (x o : Order)
      → Apart ((xs ++ x ∷ []) ++ o ∷ [])
      → Seg m ptr none ((xs ++ x ∷ []) ++ o ∷ []) none
      → let m' = assign x.order_id (linked ptr x (last_or none xs) none) m in
        Edit ptr m m' × Seg (erase o.order_id m') ptr none (xs ++ x ∷ []) none
  unlink_tail xs x o a s =
      let front = (Seg-split m ptr none none (xs ++ x ∷ []) (o ∷ []) s).0 in
      let edit =
        Edit-assign ptr m x.order_id (linked ptr x (last_or none xs) (some o.order_id))
          (linked ptr x (last_or none xs) none) d
          (Seg-at m ptr none (some o.order_id) xs x [] front) refl in
      (
        edit,
        Seg-erase _ ptr none none (xs ++ x ∷ []) o.order_id edit.distinct
            (Apart-not-has o (xs ++ x ∷ []) [] a)
            (Seg-set_next m ptr none (some o.order_id) none xs x
              (Apart-append (xs ++ x ∷ []) (o ∷ []) a).0 front),
      )

  -- A limit in the middle goes: its neighbours are linked with one another.
  pub unlink_middle :
      (xs : List Order) (x o z : Order) (zs : List Order)
      → Apart ((xs ++ x ∷ []) ++ o ∷ z ∷ zs)
      → Seg m ptr none ((xs ++ x ∷ []) ++ o ∷ z ∷ zs) none
      → let m' = assign z.order_id (linked ptr z (some x.order_id) (first_or none zs)) m in
        let m'' = assign x.order_id (linked ptr x (last_or none xs) (some z.order_id)) m' in
        (find x.order_id m' ≡ some (linked ptr x (last_or none xs) (some o.order_id)))
        × Edit ptr m m''
        × Seg (erase o.order_id m'') ptr none ((xs ++ x ∷ []) ++ z ∷ zs) none
  unlink_middle xs x o z zs a s =
      let (front, back) = Seg-split m ptr none none (xs ++ x ∷ []) (o ∷ z ∷ zs) s in
      let (apart, apart') = Apart-append (xs ++ x ∷ []) (o ∷ z ∷ zs) a in
      let z_out = Apart-cross (xs ++ x ∷ []) o (z ∷ zs) z.order_id a (ground arith) in
      let z' = linked ptr z (some x.order_id) (first_or none zs) in
      let edit =
        Edit-assign ptr m z.order_id (linked ptr z (some o.order_id) (first_or none zs)) z' d
          back.1.0 refl in
      let m' = assign z.order_id z' m in
      let front' =
        Seg-assign m ptr none (some o.order_id) (xs ++ x ∷ []) z.order_id z' z_out front in
      let back' =
        Seg-set_prev m ptr (some o.order_id) (some x.order_id) none z zs apart'.1 back.1 in
      let at = Seg-at m' ptr none (some o.order_id) xs x [] front' in
      let x' = linked ptr x (last_or none xs) (some z.order_id) in
      let edit' =
        Edit-assign ptr m' x.order_id (linked ptr x (last_or none xs) (some o.order_id)) x'
          edit.distinct at refl in
      let front'' =
        Seg-set_next m' ptr none (some o.order_id) (some z.order_id) xs x apart front' in
      let x_out : has x.order_id (z ∷ zs) ≡ false =
        Apart-cross_back (xs ++ x ∷ []) o (z ∷ zs) x.order_id a
          (ground (arith, has-append x.order_id xs (x ∷ []))) in
      let back'' = Seg-assign m' ptr (some x.order_id) none (z ∷ zs) x.order_id x' x_out back' in
      (
        at,
        Edit-trans ptr m m' _ edit edit',
        Seg-join _ ptr none none (xs ++ x ∷ []) (z ∷ zs)
            (Seg-erase _ ptr none (some z.order_id) (xs ++ x ∷ []) o.order_id edit'.distinct
              (Apart-not-has o (xs ++ x ∷ []) (z ∷ zs) a) front'')
            (rw (last_or-append none xs (x ∷ [])) (
              Seg-erase _ ptr (some x.order_id) none (z ∷ zs) o.order_id edit'.distinct apart'.0
                back'')),
      )
