-- ===== src/Limits/Edit.antt =====
-- Writes to the limits of one level: what they keep.
use spot_exchange.Prelude.{
  ℕ, ◌≡◌, ◌≢◌, refl, ◌∙◌, false, Option, none, some, arith, ◌==◌, if◌then◌else◌, Distinct, find,
  erase, assign, find-assign, find-erase, assign-Distinct,
}
use spot_exchange.Prelude.Run.{ok}
use spot_exchange.Limits.{LevelPtr, Limit, Limits, deref, set_next, set_prev}
use spot_exchange.Limits.Segment.{known, Spares, Seg-not-has, Seg-assign}

pub deref-ok : (p : ℕ) (l : Limit) (m : Limits) → find p m ≡ some l → deref p m ≡ ok l
unfolding deref
deref-ok p l m e = ground arith

pub set_next-ok :
    (p : ℕ) (next : Option ℕ) (l : Limit) (m : Limits)
    → find p m ≡ some l
    → set_next p next m ≡ ok (assign p (record l { next_limit = next }) m)
unfolding set_next
set_next-ok p next l m e = ground arith

pub set_prev-ok :
    (p : ℕ) (prev : Option ℕ) (l : Limit) (m : Limits)
    → find p m ≡ some l
    → set_prev p prev m ≡ ok (assign p (record l { prev_limit = prev }) m)
unfolding set_prev
set_prev-ok p prev l m e = ground arith

-- Limits of the level at `ptr` change; none is added or removed.
pub record Edit (ptr : LevelPtr) (m m' : Limits) : Type 0 where
  pub spares : Spares ptr m m'
  pub distinct : Distinct m'
  pub keys : (id : ℕ) → known id m' ≡ known id m

module _ (ptr : LevelPtr) where
  pub Edit-refl : (m : Limits) → Distinct m → Edit ptr m m
  Edit-refl m d = record { spares = λ other os ne s. s; distinct = d; keys = λ id. refl }

  pub Edit-trans : (m m' m'' : Limits) → Edit ptr m m' → Edit ptr m' m'' → Edit ptr m m''
  Edit-trans m m' m'' e f = record {
    spares = λ other os ne s. f.spares other os ne (e.spares other os ne s);
    distinct = f.distinct;
    keys = λ id. f.keys id ∙ e.keys id;
  }

  -- The limit points to no level but the one at `ptr`.
  abbrev pub Owned : Limit → Type 0
  Owned l = (other : LevelPtr) → other ≢ ptr → l.current_level ≢ some other

  pub level-Owned : (l : Limit) → l.current_level ≡ some ptr → Owned l
  level-Owned l e other ne h = ne (ground arith)

  pub none-Owned : (l : Limit) → l.current_level ≡ none → Owned l
  none-Owned l e other ne h = cc

  pub Edit-assign-Owned :
      (m : Limits) (id : ℕ) (l v : Limit)
      → Distinct m
      → find id m ≡ some l
      → Owned l
      → Edit ptr m (assign id v m)
  Edit-assign-Owned m id l v d e own = record {
    spares = λ other os ne s.
        Seg-assign m other none none os id v
          (Seg-not-has m other none none os id s l e (own other ne)) s;
    distinct = assign-Distinct id v m d;
    keys = λ j. ground (arith, find-assign id j v m);
  }

  pub Edit-assign :
      (m : Limits) (id : ℕ) (l v : Limit)
      → Distinct m
      → find id m ≡ some l
      → l.current_level ≡ some ptr
      → Edit ptr m (assign id v m)
  Edit-assign m id l v d e at = Edit-assign-Owned m id l v d e (level-Owned l at)

pub known-erase :
    (m : Limits) (id j : ℕ)
    → Distinct m
    → known j (erase id m) ≡ (if j == id then false else known j m)
known-erase m id j d = ground (arith, find-erase id j m d)
