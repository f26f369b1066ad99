-- ===== src/TradeServer/Tests.antt =====
-- The trade server with one client.
use spot_exchange.Prelude.{
  ℕ, ◌≡◌, ◌≢◌, refl, some, true, false, [], ◌∷◌, arith, find, if◌then◌else◌,
}
use spot_exchange.Prelude.Run.{ok, fault}
use spot_exchange.Info.{OrderCommon}
use spot_exchange.Messages.{cancel}
use spot_exchange.WriteQueue.{idle, push}
use spot_exchange.Limits.{ask}
use spot_exchange.OrderBook.{OrderBook, empty_book}
use spot_exchange.OrderBook.View.{IsRep}
use spot_exchange.OrderBook.Places.{cancel_at}
use spot_exchange.OrderBook.Tests.{junk, book, view, o₁, limit₁, book-IsRep}
use spot_exchange.Connection.{Connection, cancel_entry, cancel_order_ack, on_stream_cancelled}
use spot_exchange.OrderBookManager.{num_order_books}
use spot_exchange.TradeServer.{
  Server, Outside, next_read, process_rpc, first_books, shutdown_server, shutdown_streams,
  connection_at, store,
}
use spot_exchange.TradeServer.Requests.{cancel_request-served}
use spot_exchange.TradeServer.Elsewhere.{process_rpc-elsewhere}
use spot_exchange.TradeServer.Shutdown.{all_busy, all_told, shutdown_server-busy}

-- The books of the constructor.
first_books-count : num_order_books first_books ≡ 103
unfolding first_books num_order_books
first_books-count = refl

abbrev outside : Outside
outside = record { now = 7; later = 9; junk = junk; userid = 0; async_ops = 0 }

abbrev client : Connection
client = record {
  self = 1;
  user_id = 1;
  async_ops = 1;
  stream_cancelled = false;
  alive = true;
  writer = idle;
}

abbrev server : Server
server = record {
  books = (3, book) ∷ (5, empty_book) ∷ [];
  connections = (1, client) ∷ [];
  shared = record { client_streams = (1, 1) ∷ []; orderid_generator = 4 };
  dispatcher = idle;
  next_conn = 2;
  running = true;
}

abbrev common : OrderCommon
common = record { order_id = 1; user_id = 1; ticker = 3 }

cancel_request-served_example :
    (s' : Server) × (b' : OrderBook) × (c' : Connection) × (process_rpc outside
        (next_read true (cancel_entry common))
        1
        server
      ≡ ok s')
    × (find 3 s'.books ≡ some b')
    × IsRep b' (cancel_at ask o₁ view)
    × ((t : ℕ) → t ≢ 3 → find t s'.books ≡ find t server.books)
    × (find 1 s'.connections ≡ some c')
    × (c'.writer ≡ push (cancel_order_ack 7 common) idle)
    × (s'.dispatcher ≡ push (cancel (record { timestamp = 9; order_id = 1 })) idle)
unfolding find
cancel_request-served_example =
    cancel_request-served outside 1 server client common book view limit₁ refl refl refl refl refl
      refl book-IsRep refl refl

-- The server after the request.
served :
    (s' : Server) × (process_rpc outside (next_read true (cancel_entry common)) 1 server ≡ ok s')
unfolding find
served =
    let r =
      cancel_request-served outside 1 server client common book view limit₁ refl refl refl refl refl
        refl book-IsRep refl refl in
    (r.0, r.3)

process_rpc-elsewhere_example : find 5 served.0.books ≡ find 5 server.books
process_rpc-elsewhere_example =
    process_rpc-elsewhere outside 5 (next_read true (cancel_entry common)) 1 server served.0
      (omega arith) served.1

shutdown_server-busy_example : shutdown_server server ≡ (
    if all_busy server.connections server.shared.client_streams
    then ok
        (record server { connections = all_told server.connections server.shared.client_streams })
    else fault)
shutdown_server-busy_example = shutdown_server-busy server

-- A client whose last read has failed, before gRPC says that its stream is done.
abbrev idle_server : Server
idle_server = record server { connections = (1, record client { async_ops = 0 }) ∷ [] }

idle_server-fault : shutdown_server idle_server ≡ fault
unfolding shutdown_server shutdown_streams connection_at on_stream_cancelled store find
idle_server-fault = refl
