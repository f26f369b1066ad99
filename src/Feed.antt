-- ===== src/Feed.antt =====
-- From the order book to a client: the market data that a book sends goes through the data platform
-- (src/dataplatform/dataplatform.cpp) and is processed by a client (src/client/client.cpp).
--
-- Each message arrives once and in order, as a datagram of its own, and the platform's buffer is kept
-- from message to message.
pub mod Unseen
pub mod Seen
pub mod Negative
pub mod Tests
use spot_exchange.Prelude.{ℕ, List, [], ◌∷◌}
use spot_exchange.Prelude.Run.{Run, ok, ◌>>=◌}
use spot_exchange.Messages.{MarketData, Effect, send_rejection, write_fill, write_market_data}
use spot_exchange.DataPlatform.{serialise_market_data, datagram, read_packet}
use spot_exchange.ClientFeed.{Handler, process_packet}

-- What the messages of a book make of the platform's buffer and of a client's handler.
abbrev pub deliver : List Effect → List ℕ → Handler → Run (List ℕ × Handler)
deliver [] buffer h = ok (buffer, h)
deliver (send_rejection c r m ∷ es) buffer h = deliver es buffer h
deliver (write_fill c f ∷ es) buffer h = deliver es buffer h
deliver (write_market_data m ∷ es) buffer h = do
  let buffer' = serialise_market_data m buffer
  h' ← process_packet (read_packet (datagram buffer')) h
  deliver es buffer' h'
