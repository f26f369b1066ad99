-- ===== src/ClientFeed/Tests.antt =====
-- A client that is told of an order of 10 to buy at 90, and of a fill of 3.
use spot_exchange.Prelude.{
  ◌≡◌, refl, sym, ap, ◌∙◌, subst, [], ◌∷◌, arith, find, emplace, emplace_by, pos, signed, wrap,
  ◌+ℤ◌,
}
use spot_exchange.Prelude.Run.{Run, exception, fault, out_of_fuel, ok}
use spot_exchange.DataPlatform.{AddOrderData, FillOrderData, add_data, fill_data}
use spot_exchange.ClientBook.{add_to_book}
use spot_exchange.ClientFeed.{Handler, empty_handler, process_packet}
use spot_exchange.ClientFeed.Held.{held, Held}
use spot_exchange.ClientFeed.Stream.{Fits, process_packet-Held, empty-Held}

abbrev told : AddOrderData
told = record {
  timestamp = 0;
  order_id = 4;
  ticker = 3;
  price = 90;
  quantity = 10;
  is_buy_side = 1;
}

abbrev sold : FillOrderData
sold = record { timestamp = 1; order_id = 4; ticker = 3; fill_id = 0; quantity = 3 }

abbrev pub client : Handler
client = record {
  orderbooks = (record { ticker = 3; asks = []; bids = (90, pos 10) ∷ [] }) ∷ [];
  tickers = (3, 0) ∷ [];
  orders =
      (
        4,
        record {
          timestamp = 0;
          order_id = 4;
          ticker = 3;
          price = 90;
          quantity = pos 10;
          is_buy_side = 1;
          book_index = 0;
        },
      )
      ∷ [];
}

told-run : process_packet (add_data told) empty_handler ≡ ok client
unfolding process_packet add_to_book find emplace emplace_by signed wrap ◌+ℤ◌
told-run = refl

abbrev handler_of : Run Handler → Handler
handler_of exception = empty_handler
handler_of fault = empty_handler
handler_of out_of_fuel = empty_handler
handler_of (ok h) = h

pub client-Held : Held client
unfolding find held Fits
client-Held =
    let (h', run, hd) =
      process_packet-Held (add_data told) empty_handler empty-Held
        (refl, omega arith, omega arith, omega arith) in
    subst Held (ap handler_of (sym run ∙ told-run)) hd

process_packet-Held_example :
    (h' : Handler) × (process_packet (fill_data sold) client ≡ ok h') × Held h'
unfolding find Fits
process_packet-Held_example = process_packet-Held (fill_data sold) client client-Held (omega arith)
