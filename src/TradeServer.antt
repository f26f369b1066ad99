-- ===== src/TradeServer.antt =====
-- src/server/tradeserver.cpp: `TradeServer`, with the callbacks of the connections, the order book
-- manager and the market data dispatcher put together.
--
-- A connection is found by its number as long as it is not deleted. One event of the completion queue
-- is handled at a time. What reads of the stream a callback asks gRPC for is left out.
pub mod Requests
pub mod Jobs
pub mod Elsewhere
pub mod Shutdown
pub mod Tests
use spot_exchange.Prelude.{
  ℕ, zero, suc, ◌+◌, Bool, true, false, Option, none, some, List, [], ◌∷◌, if◌then◌else◌, Map, find,
  assign,
}
use spot_exchange.Prelude.Run.{Run, ok, fault, ◌>>=◌}
use spot_exchange.Info.{Conn}
use spot_exchange.Messages.{Effect, send_rejection, write_fill, write_market_data, MarketData}
use spot_exchange.WriteQueue.{Writer, idle}
use spot_exchange.WriteQueue
use spot_exchange.OrderBook.{Junk}
use spot_exchange.OrderBookManager.{
  Books, add_order, modify_order, cancel_order, create_order_book, create_named_order_book,
}
use spot_exchange.Connection.{
  Connection, Shared, Step, Request, Response, fill_response, Action, read_first, read_next,
  create_new_conn, add_job, modify_job, cancel_job, async_op_started, async_op_finished,
  on_stream_cancelled, write_to_client, send_response_from_queue, send_rejection_response,
  read_order_entry_callback, initialise_oe_conn, verify_id,
}

-- What is not in the program's hands: the clock as the connection and as the order book read it, what
-- a read at `end()` gives, and the members `userid_` and `current_async_ops_` of a new connection,
-- which are not initialised.
pub record Outside : Type 0 where
  pub now : ℕ
  pub later : ℕ
  pub junk : Junk
  pub userid : ℕ
  pub async_ops : ℕ

-- What the completion queue gives for a connection, with the request that has been read.
pub data Event : Type 0 where
  initialised : Bool → Event
  first_read next_read : Bool → Request → Event
  write_done : Bool → Event
  stream_done : Event

-- `running` until `exit(0)`.
pub record Server : Type 0 where
  pub books : Books
  pub connections : Map Connection
  pub shared : Shared
  pub dispatcher : Writer MarketData
  pub next_conn : Conn
  pub running : Bool

-- The books of the tickers from `first` on.
unfoldable pub create_order_books : ℕ → ℕ → Books → Books
unfolding create_order_book
create_order_books zero first books = books
create_order_books (suc n) first books =
    create_order_books n (first + 1) (create_order_book first books).1

-- The books that the constructor creates: 0 to 100, "AAPL" and 123.
unfoldable pub first_books : Books
unfolding create_order_books create_order_book create_named_order_book
first_books =
    let numbered = create_order_books 101 0 [] in
    let named = (create_named_order_book (65 ∷ 65 ∷ 80 ∷ 76 ∷ []) numbered).1 in
    (create_order_book 123 named).1

-- `makeNewOrderEntryConnection`.
abbrev pub make_new_order_entry_connection : Outside → Server → Server
make_new_order_entry_connection o s =
    let c : Connection = record {
      self = s.next_conn;
      user_id = o.userid;
      async_ops = o.async_ops;
      stream_cancelled = false;
      alive = true;
      writer = idle;
    } in
    record s {
      connections = (s.next_conn, async_op_started c) ∷ s.connections;
      next_conn = s.next_conn + 1;
    }

-- The connection that a pointer to it leads to.
unfoldable pub connection_at : Conn → Server → Run Connection
connection_at conn s = elim (find conn s.connections) [
  | none ↦ fault
  | some c ↦ if c.alive then ok c else fault
]

unfoldable pub store : Conn → Connection → Server → Server
store conn c s = record s { connections = assign conn c s.connections }

-- What the order book asks for, done until the program exits.
unfoldable pub deliver : Effect → Server → Run Server
unfolding connection_at store write_to_client send_rejection_response WriteQueue.write_market_data
deliver (send_rejection conn reason common) s = do
  c ← connection_at conn s
  ok (store conn (send_rejection_response reason common c) s)
deliver (write_fill conn fill) s = do
  c ← connection_at conn s
  ok (store conn (write_to_client (fill_response fill) c) s)
deliver (write_market_data message) s = elim (WriteQueue.write_market_data message s.dispatcher) [
  | none ↦ ok (record s { running = false })
  | some w ↦ ok (record s { dispatcher = w })
]

unfoldable pub deliver_all : List Effect → Server → Run Server
unfolding deliver
deliver_all [] s = ok s
deliver_all (effect ∷ effects) s =
    if s.running then (do s' ← deliver effect s; deliver_all effects s') else ok s

-- `job_handlers_`.
unfoldable pub run_job : Outside → Action → Server → Run Server
unfolding add_order modify_order cancel_order deliver_all
run_job o (add_job order) s = do
  (books, order', sent) ← add_order o.junk o.later order s.books
  deliver_all sent (record s { books = books })
run_job o (modify_job m) s = do
  (books, sent) ← modify_order o.junk o.later m s.books
  deliver_all sent (record s { books = books })
run_job o (cancel_job c) s = do
  (books, sent) ← cancel_order o.later c s.books
  deliver_all sent (record s { books = books })
run_job o create_new_conn s = ok (make_new_order_entry_connection o s)
run_job o read_first s = ok s
run_job o read_next s = ok s

unfoldable pub run_jobs : Outside → List Action → Server → Run Server
unfolding run_job
run_jobs o [] s = ok s
run_jobs o (job ∷ jobs) s = do s' ← run_job o job s; run_jobs o jobs s'

-- The callback of a connection.
unfoldable pub callback : Outside → Event → Connection → Shared → Step
unfolding initialise_oe_conn verify_id read_order_entry_callback send_response_from_queue
    on_stream_cancelled
callback o (initialised success) c sh = initialise_oe_conn success c sh
callback o (first_read success request) c sh = verify_id o.now success request c sh
callback o (next_read success request) c sh = read_order_entry_callback o.now success request c sh
callback o (write_done success) c sh = do
  (c', sh') ← send_response_from_queue success c sh
  ok (c', sh', [])
callback o stream_done c sh = let (c', sh') = on_stream_cancelled c sh in ok (c', sh', [])

-- A round of `rpcprocessor`.
unfoldable pub process_rpc : Outside → Event → Conn → Server → Run Server
unfolding connection_at store callback run_jobs
process_rpc o event conn s =
    if s.running
    then (do
      c ← connection_at conn s
      (c', shared, jobs) ← callback o event c s.shared
      run_jobs o jobs (store conn c' (record s { shared = shared })))
    else ok s

-- The loop of `shutdownServer` over `client_streams_`: the entry of a connection that deletes itself
-- is erased while the loop stands at it.
unfoldable pub shutdown_streams : Map Conn → Server → Run Server
unfolding connection_at store on_stream_cancelled
shutdown_streams [] s = ok s
shutdown_streams ((user, conn) ∷ rest) s = do
  c ← connection_at conn s
  let (c', shared) = on_stream_cancelled c s.shared
  if c'.alive then shutdown_streams rest (store conn c' (record s { shared = shared })) else fault

unfoldable pub shutdown_server : Server → Run Server
unfolding shutdown_streams
shutdown_server s = shutdown_streams s.shared.client_streams s
