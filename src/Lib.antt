-- ===== src/Lib.antt =====
-- Spot Exchange: the order books of a spot exchange, their matching, and the messages around them.
--
-- A client opens a gRPC stream to the trade server (src/server/rpc/orderentrystreamconnection.cpp).
-- Its requests go through the static `OrderBookManager` to the `OrderBook` of their ticker, which
-- matches an order against the other side (`FIFOMatcher`), rests what is left of it, and sends
-- rejections and fills to connections and every change to the `MarketDataDispatcher`. The data
-- platform turns these changes into datagrams, from which clients rebuild the books.
--
-- - Prelude: Boolean tests, association lists for std::map and std::unordered_map, and `Run`, the
--   outcome of code: a value, an `EngineException`, an access to an object that is not there, or a
--   loop out of rounds.
-- - Info: include/info and include/server/matching/matchresult.hpp; orders, requests, fills. A
--   quantity is a `uint32_t` and wraps where the code adds, the quantity of a fill is cut to 16 bits.
-- - Messages: src/dataplatform/orderentry.proto as far as the server writes it.
-- - Limits: include/server/order/{limit,level}.hpp. A `Limit*` is the ID of its order, `none` for
--   null, and a `Level*` is a side and a price; reading through an ID that is gone is a `fault`.
--   Limits.Segment says when limits are linked as a list of orders; Edit, Splice, Replace and Count
--   are what writes, unlinking, changes of quantity and the walks do to that.
-- - Matching: include/server/matching/fifomatching.hpp. `LevelRef` models the reference `book_lvl`,
--   which outlives its level. Matching.Fifo is the reference: what an order of a quantity leaves of a
--   list of orders, and the fills. Step, Sweep, Full and InLevel relate `orderFullyMatchedInLevel` to
--   it, NextLevel and Rounds the rounds of `FIFOMatch`, FirstLevel and OneLevel are its runs that end
--   at the best level.
-- - BookState and OrderBook: include/server/order/orderbook.hpp and src/server/order/orderbook.cpp.
--   OrderBook.View is the abstract book: for each side, the orders of each price, oldest first, best
--   price first; `IsRep` relates the maps and links of an `OrderBook` to it. Place, Rest and Add are
--   about new orders, Sides, Unlink, Places, Cancel and Denied about cancels, Replace, Refuse and
--   Modify about modifications, Deplete, Gone, Match and Partial about trades at one price. OrderBook.Walk is the
--   reference for trades at any number of prices: best price first, and what is left of the order and
--   of the levels; Loop, Ends and Add relate the code to it, Total is about every order.
-- - OrderBookManager: src/server/order/orderbookmanager.cpp.
-- - WriteQueue: the queue of src/server/rpc/marketdatadispatcher.cpp and of the connections.
-- - Connection: src/server/rpc/orderentrystreamconnection.cpp, one function per callback, with the
--   count of operations that decides when the object deletes itself.
-- - TradeServer: src/server/tradeserver.cpp, which puts the connections, the order book manager and the
--   dispatcher together. Requests is about the way of a request through all of them, Jobs
--   and Elsewhere about what an event leaves alone, Shutdown about `shutdownServer`.
-- - DataPlatform: src/dataplatform/dataplatform.cpp and the reading side in src/client/client.cpp;
--   the bytes of a datagram.
-- - ClientBook and ClientFeed: include/client/{clientorderbook,clientfeedhandler}.hpp, the books that a
--   client rebuilds. ClientFeed.Held says that each size is the sum of the orders behind it; sizes are
--   `int64_t` and quantities `int32_t`, which wrap.
-- - Feed: what the market data of an order book makes of a client, through the data platform; Negative
--   is about a quantity that an `int32_t` does not hold.
-- - ClientInput: how src/client/client.cpp makes a command or a request of a line; Console has the
--   functions, Search and Adds what they find in the line of a new order, Never that no other line
--   makes a request.
-- - ClientAcks: what src/client/client.cpp makes of the answers to its orders.
-- - LogQueue: the queue of include/server/logger.hpp between the threads that log and the one that
--   writes. Steps are its atomic accesses in any order, where a claim is a step only while fewer than 1024
--   entries are outstanding; Cells are the entries between its two ends,
--   Order and Progress what holds of every state that can be reached. Its size is the 1024 of `Logger`.
--   Writer has the text of an entry and the thread that writes, Drain what that thread writes.
-- - Util: the strings of include/util/util.hpp.
--
-- Not modelled: the terminal of the client and its sockets, on which no other part depends, and
-- the set-up of gRPC, signals and threads.
--
-- Rounds. The walks over a level and the loop in one level get one round more than the book has
-- limits, and the loop over levels one more than the book has levels. Limits.Count.Seg-length shows
-- that a level has no more orders than the book has limits.
--
-- Time, what a read at `end()` of a map gives, and connections (numbers) are arguments. The
-- calls that log, the mutexes (each call is one step), gRPC and the operating system are not modelled.
pub mod Prelude
pub mod Feed
pub mod Info
pub mod Limits
pub mod Matching
pub mod Messages
pub mod BookState
pub mod ClientBook
pub mod ClientFeed
pub mod ClientInput
pub mod ClientAcks
pub mod LogQueue
pub mod TradeServer
pub mod OrderBook
pub mod OrderBookManager
pub mod WriteQueue
pub mod Connection
pub mod DataPlatform
pub mod Util
