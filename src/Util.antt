-- ===== src/Util.antt =====
-- include/util/util.hpp: strings of up to eight bytes as numbers and back.
--
-- A string is the list of its bytes. `std::string(arr)` reads from the array up to a zero byte; past
-- the end of the array that is a `fault`.
pub mod RoundTrip
pub mod Tests
use spot_exchange.Prelude.{ℕ, List, [], ◌∷◌, ◌==◌, Bool, true, false}
use spot_exchange.Prelude.Run.{Run, ok, fault, ◌>>=◌}
use spot_exchange.DataPlatform.{serialise_bytes, value_of}

-- `convertStrToEightBytes`: at most eight bytes are copied into zeroed ones.
unfoldable pub convert_str_to_eight_bytes : List ℕ → ℕ
convert_str_to_eight_bytes input = value_of 8 input

-- The string that starts an array of characters.
unfoldable pub c_string : List ℕ → Run (List ℕ)
c_string [] = fault
c_string (c ∷ cs) = elim (c == 0) [ true ↦ ok [] | false ↦ do rest ← c_string cs; ok (c ∷ rest) ]

-- `convertEightBytesToString`.
unfoldable pub convert_eight_bytes_to_string : ℕ → Run (List ℕ)
unfolding c_string
convert_eight_bytes_to_string bytes = c_string (serialise_bytes 8 bytes)
