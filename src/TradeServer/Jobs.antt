-- ===== src/TradeServer/Jobs.antt =====
-- What the jobs of a connection leave alone.
use spot_exchange.Prelude.{
  if_true, if_false, Bool-cases, inl, inr, sym, ℕ, ◌≡◌, ◌≢◌, ap, ◌∙◌, List, [], ◌∷◌, arith, find,
}
use spot_exchange.Prelude.Run.{ok, steps-ok, ok-injective}
use spot_exchange.Messages.{Effect, send_rejection, write_fill, write_market_data}
use spot_exchange.OrderBookManager.{add_order, modify_order, cancel_order}
use spot_exchange.OrderBookManager.Routes.{
  add_order-elsewhere, modify_order-elsewhere, cancel_order-elsewhere,
}
use spot_exchange.Connection.{
  Action, read_first, read_next, create_new_conn, add_job, modify_job, cancel_job,
}
use spot_exchange.TradeServer.{
  Server, Outside, connection_at, store, deliver, deliver_all, run_job, run_jobs,
}

deliver-books : (e : Effect) (s s' : Server) → deliver e s ≡ ok s' → s'.books ≡ s.books
unfolding deliver store
deliver-books (send_rejection conn reason common) s s' e =
    let (c, at, same) = steps-ok (connection_at conn s) _ _ e in ground (arith, same)
deliver-books (write_fill conn fill) s s' e =
    let (c, at, same) = steps-ok (connection_at conn s) _ _ e in ground (arith, same)
deliver-books (write_market_data message) s s' e = ground (arith, e)

deliver_all-books :
    (es : List Effect) (s s' : Server) → deliver_all es s ≡ ok s' → s'.books ≡ s.books
unfolding deliver_all
deliver_all-books [] s s' e = ground (arith, e)
deliver_all-books (x ∷ es) s s' e = elim (Bool-cases s.running) [
  | inl up ↦
      let (s₁, here, there) = steps-ok (deliver x s) _ _ (sym (if_true s.running _ _ up) ∙ e) in
      deliver_all-books es s₁ s' there ∙ deliver-books x s s₁ here
  | inr down ↦ ap (λ s. s.books) (sym (ok-injective s s' (sym (if_false s.running _ _ down) ∙ e)))
]

-- The job is not for the ticker `t`.
abbrev pub Spares : ℕ → Action → Type 0
Spares t (add_job o) = t ≢ o.ticker
Spares t (modify_job m) = t ≢ m.ticker
Spares t (cancel_job c) = t ≢ c.ticker
Spares t read_first = Unit
Spares t read_next = Unit
Spares t create_new_conn = Unit

abbrev pub AllSpare : ℕ → List Action → Type 0
AllSpare t [] = Unit
AllSpare t (job ∷ jobs) = Spares t job × AllSpare t jobs

run_job-elsewhere :
    (o : Outside) (t : ℕ) (job : Action) (s s' : Server)
    → Spares t job
    → run_job o job s ≡ ok s'
    → find t s'.books ≡ find t s.books
unfolding run_job
run_job-elsewhere o t (add_job order) s s' other e =
    let (r, made, sent) = steps-ok (add_order o.junk o.later order s.books) _ _ e in
    ap (find t) (deliver_all-books r.2 _ s' sent)
    ∙ add_order-elsewhere o.junk o.later t s.books order r other made
run_job-elsewhere o t (modify_job m) s s' other e =
    let (r, made, sent) = steps-ok (modify_order o.junk o.later m s.books) _ _ e in
    ap (find t) (deliver_all-books r.1 _ s' sent)
    ∙ modify_order-elsewhere o.junk o.later t s.books m r other made
run_job-elsewhere o t (cancel_job c) s s' other e =
    let (r, made, sent) = steps-ok (cancel_order o.later c s.books) _ _ e in
    ap (find t) (deliver_all-books r.1 _ s' sent)
    ∙ cancel_order-elsewhere o.junk o.later t s.books c r other made
run_job-elsewhere o t create_new_conn s s' other e = ground (arith, e)
run_job-elsewhere o t read_first s s' other e = ground (arith, e)
run_job-elsewhere o t read_next s s' other e = ground (arith, e)

-- Jobs touch the books of the tickers that they name.
pub run_jobs-elsewhere :
    (o : Outside) (t : ℕ) (jobs : List Action) (s s' : Server)
    → AllSpare t jobs
    → run_jobs o jobs s ≡ ok s'
    → find t s'.books ≡ find t s.books
unfolding run_jobs
run_jobs-elsewhere o t [] s s' spare e = ground (arith, e)
run_jobs-elsewhere o t (job ∷ jobs) s s' spare e =
    let (s₁, here, there) = steps-ok (run_job o job s) _ _ e in
    run_jobs-elsewhere o t jobs s₁ s' spare.1 there ∙ run_job-elsewhere o t job s s₁ spare.0 here
