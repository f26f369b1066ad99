-- ===== src/OrderBook/Walk/Ends.antt =====
-- The loop of `FIFOMatch` ends on a book that stands for a view, and does what the view says.
use spot_exchange.Prelude.{
  ℕ, zero, suc, ◌<◌, ◌≡◌, refl, sym, ap, ◌∙◌, subst, inl, inr, Bool, true, false, none, some, List,
  [], ◌∷◌, arith, ◌==◌, first_key, Distinct, length, Bool-cases,
}
use spot_exchange.Prelude.Run.{ok}
use spot_exchange.Info.{Order}
use spot_exchange.Limits.{Side, ask, bid, Level}
use spot_exchange.Matching.{fifo_match, Match, match_loop, no_matching_level}
use spot_exchange.Matching.Fifo.{left_qty}
use spot_exchange.Matching.Full.{At}
use spot_exchange.Matching.InLevel.{taken}
use spot_exchange.Matching.NextLevel.{First, past, find_first}
use spot_exchange.OrderBook.{OrderBook, book_of, with_book}
use spot_exchange.OrderBook.View.{Orders, View, orders_of, with_orders, level_ptr, Levels, IsRep}
use spot_exchange.OrderBook.Deplete.{depleted-IsRep}
use spot_exchange.Matching.Rounds.{loop_ends, loop_stops, loop_fills, loop_next}
use spot_exchange.Matching.Remove.{Shrunk}
use spot_exchange.Limits.Segment.{Seg}
use spot_exchange.OrderBook.Sides.{book_of-with_book, limitorders-with_book}
use spot_exchange.OrderBook.Gone.{level-gone}
use spot_exchange.OrderBook.Match.{AllAt-Positive, Levels-first, find-first}
use spot_exchange.OrderBook.Walk.{rest_of, side_left, side_fills, Countable}
use spot_exchange.OrderBook.Walk.Loop.{Walked, Mode, Walked-stops, Walked-fills, Walked-next}
use spot_exchange.Matching.FirstLevel.{start}
use spot_exchange.OrderBook.Walk.Start.{Levels-empty, Levels-length}

Mode-copy : (ys : Orders) (s : Match) → Mode true ys s
Mode-copy [] s = tt
Mode-copy ((k, os) ∷ ys) s = inl refl

pub orders_of-with_orders :
    (side : Side) (ys : Orders) (v : View) → orders_of side (with_orders side ys v) ≡ ys
orders_of-with_orders ask ys v = refl
orders_of-with_orders bid ys v = refl

module _ (junk : Level) (side : Side) where
  -- The loop on a book that stands for a view: it ends, and what it leaves is what the walk along the
  -- orders of the view leaves.
  pub match_loop-walks :
      (n : ℕ) (copy : Bool) (ys : Orders) (b : OrderBook) (v : View) (s : Match)
      → IsRep b v
      → orders_of side v ≡ ys
      → s.book ≡ book_of side b
      → s.limits ≡ b.limitorders
      → First s.book s
      → Mode copy ys s
      → Countable ys
      → 0 < s.order.current_quantity
      → length ys < n
      → (t : Match) × (match_loop junk side n (first_key s.book) s ≡ ok t)
        × Walked copy side b v ys s t
  unfolding first_key rest_of side_left side_fills
  match_loop-walks zero copy ys b v s rep best eb el first mode short pos fuel =
      absurd (omega arith)
  match_loop-walks (suc n) copy [] b v s rep best eb el first mode short pos fuel =
      let empty : book_of side b ≡ [] =
        Levels-empty b.limitorders side (book_of side b)
          (subst (Levels b.limitorders side (book_of side b)) best (rep.levels side)) in
      (
        s,
        ap (λ l. match_loop junk side (suc n) (first_key l) s) (eb ∙ empty)
            ∙ loop_ends junk side n s,
        Walked-stops copy side b v s rep eb el [] best refl refl refl,
      )
  match_loop-walks (suc n) copy ((k, os) ∷ ys) b v s rep best eb el first mode short pos fuel =
      let (level, rest, e, is) =
        Levels-first b.limitorders side k os ys (book_of side b)
          (subst (Levels b.limitorders side (book_of side b)) best (rep.levels side)) in
      let begins : match_loop junk side (suc n) (first_key s.book) s
          ≡ match_loop junk side (suc n) (some k) s =
        ap (λ l. match_loop junk side (suc n) (first_key l) s) (eb ∙ e) in
      let at : At k level s = subst (λ l. First l s) (eb ∙ e) first in
      let d = subst Distinct (sym el) rep.distinct in
      let sg = subst (λ m. Seg m (level_ptr side k) none os none) (sym el) is.seg in
      elim (Bool-cases (no_matching_level side s.order.price k)) [
        | inl stop ↦ (
          s,
          begins ∙ loop_stops junk side n s k stop,
          Walked-stops copy side b v s rep eb el ((k, os) ∷ ys) best (rw stop refl) (rw stop refl)
              (rw stop refl),
        )
        | inr meets ↦ elim (Bool-cases (left_qty s.order.current_quantity os == 0)) [
          | inl full ↦
              let full' : left_qty s.order.current_quantity os ≡ 0 = ground arith in
              let (m', run, sh, sg') =
                loop_fills junk side n s (level_ptr side k) k level os meets d at is.apart sg
                  is.head short.0 (AllAt-Positive side k os is.at) pos full' in
              (
                _,
                begins ∙ run,
                Walked-fills copy side b v s rep eb el k os ys level rest best meets e is m' mode
                    full'
                    (depleted-IsRep b v side k level os s.order.current_quantity m' rep
                      (rw best (find-first k os ys)) is
                      (subst
                        (λ m. Shrunk (level_ptr side k) (taken s.order.current_quantity os) m m') el
                        sh)
                      sg'),
              )
          | inr unfilled ↦
              let more : 0 < left_qty s.order.current_quantity os = ground arith in
              let (m₁, lvl, run, sh, first') =
                loop_next junk side n s (level_ptr side k) k level os meets d at is.apart sg is.head
                  rest (eb ∙ e) more in
              let rep₁ =
                level-gone b v side k s.order.current_quantity level os rest ys m₁ rep best e is
                  (subst (λ m. Shrunk (level_ptr side k) os m m₁) el sh) more in
              let (t, run', w) =
                match_loop-walks n true ys (with_book side rest (record b { limitorders = m₁ }))
                  (with_orders side ys v) (past os rest m₁ lvl s) rep₁
                  (orders_of-with_orders side ys v)
                  (sym (book_of-with_book side rest (record b { limitorders = m₁ })))
                  (sym (limitorders-with_book side rest (record b { limitorders = m₁ }))) first'
                  (Mode-copy ys (past os rest m₁ lvl s)) short.1 more (omega arith) in
              (
                t,
                begins ∙ run ∙ run',
                Walked-next copy side b v s rep eb el k os ys level rest best meets e is m₁ lvl t
                    more w,
              )
        ]
      ]

-- `FIFOMatch` on the best price of a side that is not empty.
pub fifo_match-walks :
    (junk : Level) (now : ℕ) (side : Side) (o : Order) (b : OrderBook) (v : View) (k : ℕ)
    (os : List Order) (ys : Orders)
    → IsRep b v
    → orders_of side v ≡ (k, os) ∷ ys
    → Countable ((k, os) ∷ ys)
    → 0 < o.current_quantity
    → (t : Match) × (fifo_match junk now side o (book_of side b) b.limitorders ≡ ok t)
      × Walked false side b v ((k, os) ∷ ys) (start now o k (book_of side b) b.limitorders) t
unfolding fifo_match first_key
fifo_match-walks junk now side o b v k os ys rep best short pos =
    let levels = subst (Levels b.limitorders side (book_of side b)) best (rep.levels side) in
    let (level, rest, e, is) = Levels-first b.limitorders side k os ys (book_of side b) levels in
    let s = start now o k (book_of side b) b.limitorders in
    let at : At k level s = inl (refl, rw e (find_first k level rest)) in
    let (t, run, w) =
      match_loop-walks junk side (suc (length (book_of side b))) false ((k, os) ∷ ys) b v s rep best
        refl refl (subst (λ l. First l s) (sym e) at) (inr refl) short pos
        (omega (arith, Levels-length b.limitorders side (book_of side b) ((k, os) ∷ ys) levels)) in
    let key : first_key (book_of side b) ≡ some k = rw e refl in
    (
      t,
      rw (fifo_match, key)
          (ap (λ p. match_loop junk side (suc (length (book_of side b))) p s) (sym key) ∙ run),
      w,
    )
