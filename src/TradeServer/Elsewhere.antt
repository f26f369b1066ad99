-- ===== src/TradeServer/Elsewhere.antt =====
-- What an event of the server leaves alone: the books of the tickers that its request does not name.
use spot_exchange.Prelude.{
  ◌∙◌, if_true, if_false, sym, ap, ℕ, ◌≡◌, ◌≢◌, Bool, true, false, List, [], ◌∷◌, find, emplace,
  Option-cases, Bool-cases, inl, inr, subst, ◌++◌, ◌+◌, ◌%◌, ◌^◌,
}
use spot_exchange.Prelude.Run.{ok, steps-ok, ok-injective}
use spot_exchange.Info.{Conn, OrderCommon}
use spot_exchange.Connection.{
  Connection, Shared, Request, new_entry, modify_entry, cancel_entry, not_set, Action, read_next,
  common_of, member, async_op_finished, handle_order_type, user_id_usage_rejection, process_entry,
  with_id, add_of, modify_of, cancel_of, new_order_ack, modify_order_ack, cancel_order_ack,
  Response, read_order_entry_callback, verify_id, send_response_from_queue, initialise_oe_conn,
}
use spot_exchange.TradeServer.{
  Server, Outside, Event, initialised, first_read, next_read, write_done, stream_done,
  connection_at, store, callback, process_rpc,
}
use spot_exchange.TradeServer.Jobs.{Spares, AllSpare, run_jobs-elsewhere}

-- The request does not name the ticker `t`.
abbrev pub RequestSpares : ℕ → Request → Type 0
RequestSpares t (new_entry e) = t ≢ e.common.ticker
RequestSpares t (modify_entry e) = t ≢ e.common.ticker
RequestSpares t (cancel_entry common) = t ≢ common.ticker
RequestSpares t not_set = Unit

abbrev pub EventSpares : ℕ → Event → Type 0
EventSpares t (initialised success) = Unit
EventSpares t (first_read success request) = RequestSpares t request
EventSpares t (next_read success request) = RequestSpares t request
EventSpares t (write_done success) = Unit
EventSpares t stream_done = Unit

handle-AllSpare :
    (t : ℕ) (common : OrderCommon) (ack : Response) (job : Action) (c : Connection)
    → Spares t job
    → AllSpare t (handle_order_type common ack job c).1
unfolding handle_order_type
handle-AllSpare t common ack job c spare = elim (Bool-cases (user_id_usage_rejection common c).0) [
  | inl e ↦ rw e tt
  | inr e ↦ rw e (spare, tt)
]

entry-AllSpare :
    (t now : ℕ) (r : Request) (c : Connection) (sh : Shared)
    → RequestSpares t r
    → AllSpare t (process_entry now r c sh).2
unfolding process_entry
entry-AllSpare t now (new_entry e) c sh spare =
    let e' = with_id ((sh.orderid_generator + 1) % 2 ^ 64) e in
    handle-AllSpare t e'.common (new_order_ack now e') (add_of c.self e') c spare
entry-AllSpare t now (modify_entry e) c sh spare =
    handle-AllSpare t e.common (modify_order_ack now e) (modify_of c.self e) c spare
entry-AllSpare t now (cancel_entry common) c sh spare =
    handle-AllSpare t common (cancel_order_ack now common) (cancel_of c.self common) c spare
entry-AllSpare t now not_set c sh spare = tt

AllSpare-append :
    (t : ℕ) (jobs jobs' : List Action)
    → AllSpare t jobs
    → AllSpare t jobs'
    → AllSpare t (jobs ++ jobs')
AllSpare-append t [] jobs' a b = b
AllSpare-append t (job ∷ jobs) jobs' a b = (a.0, AllSpare-append t jobs jobs' a.1 b)

read-AllSpare :
    (t now : ℕ) (success : Bool) (r : Request) (c : Connection) (sh : Shared)
    (x : Connection × Shared × List Action)
    → RequestSpares t r
    → read_order_entry_callback now success r c sh ≡ ok x
    → AllSpare t x.2
unfolding read_order_entry_callback
read-AllSpare t now true r c sh x spare e =
    let (c₁, alive, same) = steps-ok (member (async_op_finished c sh).0) _ _ e in
    subst (λ x. AllSpare t x.2) (ok-injective _ x same)
      (AllSpare-append t _ (read_next ∷ []) (entry-AllSpare t now r c₁ _ spare) (tt, tt))
read-AllSpare t now false r c sh x spare e = subst (λ x. AllSpare t x.2) (ok-injective _ x e) tt

verify-AllSpare :
    (t now : ℕ) (success : Bool) (r : Request) (c : Connection) (sh : Shared)
    (x : Connection × Shared × List Action)
    → RequestSpares t r
    → verify_id now success r c sh ≡ ok x
    → AllSpare t x.2
unfolding verify_id
verify-AllSpare t now success r c sh x spare e = elim (Option-cases (common_of r)) [
  | inl unset ↦ let wrong = rw (unset, verify_id) at e in cc
  | inr (common, named) ↦ elim (Option-cases (find common.user_id sh.client_streams)) [
    | inl new ↦
        read-AllSpare t now success r (record c { user_id = common.user_id })
          (record sh { client_streams = (emplace common.user_id c.self sh.client_streams).0 }) x
          spare (rw (named, verify_id, new) at e)
    | inr (other, used) ↦
        let refuses = rw (named, verify_id, used) at e in
        let (c₁, alive, same) = steps-ok (member (async_op_finished c sh).0) _ _ refuses in
        subst (λ x. AllSpare t x.2) (ok-injective _ x same) tt
  ]
]

initialise-AllSpare :
    (t : ℕ) (success : Bool) (c : Connection) (sh : Shared) (x : Connection × Shared × List Action)
    → initialise_oe_conn success c sh ≡ ok x
    → AllSpare t x.2
unfolding initialise_oe_conn
initialise-AllSpare t true c sh x e =
    let (c₁, alive, same) = steps-ok (member (async_op_finished c sh).0) _ _ e in
    subst (λ x. AllSpare t x.2) (ok-injective _ x same) (tt, (tt, tt))
initialise-AllSpare t false c sh x e = subst (λ x. AllSpare t x.2) (ok-injective _ x e) (tt, tt)

callback-AllSpare :
    (o : Outside) (t : ℕ) (event : Event) (c : Connection) (sh : Shared)
    (x : Connection × Shared × List Action)
    → EventSpares t event
    → callback o event c sh ≡ ok x
    → AllSpare t x.2
unfolding callback
callback-AllSpare o t (initialised success) c sh x spare e = initialise-AllSpare t success c sh x e
callback-AllSpare o t (first_read success request) c sh x spare e =
    verify-AllSpare t o.now success request c sh x spare e
callback-AllSpare o t (next_read success request) c sh x spare e =
    read-AllSpare t o.now success request c sh x spare e
callback-AllSpare o t (write_done success) c sh x spare e =
    let (y, sent, same) = steps-ok (send_response_from_queue success c sh) _ _ e in
    subst (λ x. AllSpare t x.2) (ok-injective _ x same) tt
callback-AllSpare o t stream_done c sh x spare e =
    subst (λ x. AllSpare t x.2) (ok-injective _ x e) tt

-- Whatever a connection's event makes the server do, acknowledgements, fills to any client and market
-- data included, it leaves the book of every ticker that the request read does not name as it was.
pub process_rpc-elsewhere :
    (o : Outside) (t : ℕ) (event : Event) (conn : Conn) (s s' : Server)
    → EventSpares t event
    → process_rpc o event conn s ≡ ok s'
    → find t s'.books ≡ find t s.books
unfolding process_rpc store
process_rpc-elsewhere o t event conn s s' spare e = elim (Bool-cases s.running) [
  | inl up ↦
      let (c, at, called) =
        steps-ok (connection_at conn s) _ _ (sym (if_true s.running _ _ up) ∙ e) in
      let (x, made, ran) = steps-ok (callback o event c s.shared) _ _ called in
      run_jobs-elsewhere o t x.2 _ s' (callback-AllSpare o t event c s.shared x spare made) ran
  | inr down ↦
      ap (λ s. find t s.books) (sym (ok-injective s s' (sym (if_false s.running _ _ down) ∙ e)))
]
