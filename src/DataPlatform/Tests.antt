-- ===== src/DataPlatform/Tests.antt =====
-- A fill as a datagram, from a buffer that a longer message has filled with sevens, and a notification.
use spot_exchange.Prelude.{refl, ℕ, zero, suc, ◌≡◌, true, List, [], ◌∷◌, arith}
use spot_exchange.Messages.{MarketData, fill}
use spot_exchange.DataPlatform.{
  serialise_notification, serialise_market_data, datagram, read_packet,
}
use spot_exchange.DataPlatform.RoundTrip.{packet_of, sent_as, read_packet-datagram, datagram_lem}

abbrev sevens : ℕ → List ℕ
sevens zero = []
sevens (suc n) = 7 ∷ sevens n

abbrev trade : MarketData
trade = fill (record {
  timestamp = 1000;
  status_common = record { order_id = 2; user_id = 4; ticker = 3 };
  complete_fill = true;
  fill_quantity = 300;
  fill_id = 0;
})

read_packet-datagram_example :
    read_packet (datagram (serialise_market_data trade (sevens 60))) ≡ packet_of trade
read_packet-datagram_example =
    read_packet-datagram trade (sevens 60)
      (omega arith, omega arith, omega arith, omega arith, omega arith)

datagram_lem_example :
    datagram (serialise_market_data trade (sevens 60)) ≡ sent_as trade (sevens 60)
datagram_lem_example = datagram_lem trade (sevens 60)

-- All of a notification is in the buffer, its flag too.
notification_bytes :
    serialise_notification (record { timestamp = 258; flag = 5 })
    ≡ 1 ∷ 78 ∷ 2 ∷ 1 ∷ 0 ∷ 0 ∷ 0 ∷ 0 ∷ 0 ∷ 0 ∷ 5 ∷ 0 ∷ 0 ∷ 0 ∷ []
unfolding serialise_notification
notification_bytes = refl
