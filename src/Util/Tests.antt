-- ===== src/Util/Tests.antt =====
-- "AAPL" as eight bytes and back.
use spot_exchange.Prelude.{◌≡◌, [], ◌∷◌, arith}
use spot_exchange.Prelude.Run.{ok}
use spot_exchange.Util.{convert_str_to_eight_bytes, convert_eight_bytes_to_string}
use spot_exchange.Util.RoundTrip.{convert-round_trip}

convert-round_trip_example :
    convert_eight_bytes_to_string (convert_str_to_eight_bytes (65 ∷ 65 ∷ 80 ∷ 76 ∷ []))
    ≡ ok (65 ∷ 65 ∷ 80 ∷ 76 ∷ [])
convert-round_trip_example = convert-round_trip (65 ∷ 65 ∷ 80 ∷ 76 ∷ []) (
  omega arith,
  omega arith,
  (omega arith, omega arith, (omega arith, omega arith, (omega arith, omega arith, tt))),
)
