-- ===== src/TradeServer/Requests.antt =====
-- A request of a client on its way through the server.
use spot_exchange.Prelude.{
  ◌∙◌, if_true, ℕ, ◌+◌, ◌-◌, ◌%◌, ◌^◌, ◌≡◌, ◌≢◌, refl, true, false, some, List, [], ◌∷◌, arith,
  find, assign, find-assign,
}
use spot_exchange.Prelude.Run.{ok}
use spot_exchange.Info.{Conn, OrderCommon, CancelOrder}
use spot_exchange.Messages.{Effect, cancel}
use spot_exchange.WriteQueue.{Writer, push}
use spot_exchange.WriteQueue
use spot_exchange.Limits.{Limit}
use spot_exchange.OrderBook.{OrderBook, order_cancelled}
use spot_exchange.OrderBookManager.{cancel_order}
use spot_exchange.OrderBook.View.{View, IsRep, side_of}
use spot_exchange.OrderBook.Places.{cancel_at}
use spot_exchange.OrderBook
use spot_exchange.OrderBook.Cancel.{cancel_order-IsRep}
use spot_exchange.OrderBookManager.{Books}
use spot_exchange.Connection.{
  Connection, Shared, cancel_entry, Response, cancel_order_ack, read_next, cancel_job, cancel_of,
  async_op_started, async_op_finished, write_to_client, read_order_entry_callback, process_entry,
  handle_order_type, user_id_usage_rejection,
}
use spot_exchange.TradeServer.{
  Server, Outside, next_read, connection_at, store, deliver, deliver_all, run_job, run_jobs,
  callback, process_rpc,
}

-- The connection after a request to cancel in its user's name.
abbrev answered : ℕ → OrderCommon → Connection → Connection
answered now common c = async_op_started (
    write_to_client (cancel_order_ack now common)
      (record c { async_ops = (c.async_ops + (2 ^ 64 - 1)) % 2 ^ 64 }))

read-cancel :
    (now : ℕ) (common : OrderCommon) (c : Connection) (sh : Shared)
    → c.alive ≡ true
    → c.stream_cancelled ≡ false
    → common.user_id ≡ c.user_id
    → read_order_entry_callback now true (cancel_entry common) c sh
      ≡ ok (answered now common c, sh, cancel_of c.self common ∷ read_next ∷ [])
unfolding read_order_entry_callback async_op_finished process_entry handle_order_type
    user_id_usage_rejection
read-cancel now common c sh alive running own = ground arith

write_to_client-writer :
    (r : Response) (c : Connection) → (write_to_client r c).writer ≡ push r c.writer
unfolding write_to_client
write_to_client-writer r c = ground arith

-- A cancel that the order book announces goes to the dispatcher.
cancel-delivered :
    (later : ℕ) (x : CancelOrder) (s : Server)
    → s.running ≡ true
    → deliver_all (order_cancelled later x ∷ []) s
      ≡ ok (record s {
        dispatcher =
            push (cancel (record { timestamp = later; order_id = x.order_id })) s.dispatcher;
      })
unfolding deliver_all deliver WriteQueue.write_market_data
cancel-delivered later x s up = if_true s.running _ _ up

-- The order book manager cancels in the book of the ticker.
cancel-routed :
    (later : ℕ) (x : CancelOrder) (b b' : OrderBook) (books : Books) (sent : List Effect)
    → find x.ticker books ≡ some b
    → OrderBook.cancel_order later x b ≡ ok (b', sent)
    → cancel_order later x books ≡ ok (assign x.ticker b' books, sent)
unfolding cancel_order
cancel-routed later x b b' books sent e run = rw (e, cancel_order, run) refl

-- The server after the jobs of a cancel request.
abbrev cancelled : ℕ → CancelOrder → Books → Server → Server
cancelled later x books s = record s {
  books = books;
  dispatcher = push (cancel (record { timestamp = later; order_id = x.order_id })) s.dispatcher;
}

cancel-jobs :
    (o : Outside) (x : CancelOrder) (books : Books) (s : Server)
    → s.running ≡ true
    → cancel_order o.later x s.books ≡ ok (books, order_cancelled o.later x ∷ [])
    → run_jobs o (cancel_job x ∷ read_next ∷ []) s ≡ ok (cancelled o.later x books s)
unfolding run_jobs run_job
cancel-jobs o x books s up e =
    rw (e, run_job, cancel-delivered o.later x (record s { books = books }) up) refl

connection_at-alive :
    (conn : Conn) (s : Server) (c : Connection)
    → find conn s.connections ≡ some c
    → c.alive ≡ true
    → connection_at conn s ≡ ok c
unfolding connection_at
connection_at-alive conn s c e alive = ground arith

-- While the server runs, a cancel request from the owner of an order, in its own name and with its
-- stream open, takes the order out of the book of its ticker and leaves every other book, and queues
-- the acknowledgement for the client and the announcement for the market data, each once.
pub cancel_request-served :
    (o : Outside) (conn : Conn) (s : Server) (c : Connection) (common : OrderCommon) (b : OrderBook)
    (v : View) (limit : Limit)
    → s.running ≡ true
    → find conn s.connections ≡ some c
    → c.alive ≡ true
    → c.stream_cancelled ≡ false
    → common.user_id ≡ c.user_id
    → find common.ticker s.books ≡ some b
    → IsRep b v
    → find common.order_id b.limitorders ≡ some limit
    → limit.order.user_id ≡ common.user_id
    → (s' : Server) × (b' : OrderBook) × (c' : Connection) × (process_rpc o
          (next_read true (cancel_entry common))
          conn
          s
        ≡ ok s')
      × (find common.ticker s'.books ≡ some b')
      × IsRep b' (cancel_at (side_of limit.order) limit.order v)
      × ((t : ℕ) → t ≢ common.ticker → find t s'.books ≡ find t s.books)
      × (find conn s'.connections ≡ some c')
      × (c'.writer ≡ push (cancel_order_ack o.now common) c.writer)
      × (s'.dispatcher
          ≡ push (cancel (record { timestamp = o.later; order_id = common.order_id })) s.dispatcher)
unfolding process_rpc callback store
cancel_request-served o conn s c common b v limit up at-conn alive streams own at-book rep at-id
      owner =
    let x : CancelOrder = record { common = common; connection = c.self } in
    let (b', run, rep', gone) = cancel_order-IsRep o.later x b v limit rep at-id owner in
    let c' = answered o.now common c in
    let s₁ = store conn c' s in
    let books = assign common.ticker b' s.books in
    let routed = cancel-routed o.later x b b' s.books _ at-book run in
    let reads = read-cancel o.now common c s.shared alive streams own in
    let jobs = cancel-jobs o x books s₁ up routed in
    (
      cancelled o.later x books s₁,
      b',
      c',
      if_true s.running _ _ up
          ∙ rw (connection_at-alive conn s c at-conn alive, callback, reads, jobs) refl,
      ground (arith, find-assign common.ticker common.ticker b' s.books, at-book),
      rep',
      λ t other. ground (arith, find-assign common.ticker t b' s.books),
      ground (arith, find-assign conn conn c' s.connections, at-conn),
      write_to_client-writer _ _,
      refl,
    )
