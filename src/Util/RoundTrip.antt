-- ===== src/Util/RoundTrip.antt =====
-- A string as eight bytes and back.
use spot_exchange.Prelude.{
  ℕ, zero, suc, ◌+◌, ◌*◌, ◌/◌, ◌%◌, ◌<◌, ◌≡◌, refl, ap, ◌∙◌, List, [], ◌∷◌, arith, ltb, ◌==◌,
  if◌then◌else◌, length, false,
}
use spot_exchange.Prelude.Run.{ok, fault, ◌>>=◌}
use spot_exchange.DataPlatform.{serialise_bytes, value_of}
use spot_exchange.Util.{convert_str_to_eight_bytes, c_string, convert_eight_bytes_to_string}

-- Bytes without a zero.
abbrev pub IsText : List ℕ → Type 0
IsText [] = Unit
IsText (c ∷ cs) = (0 < c) × (c < 256) × IsText cs

first-byte :
    (n c : ℕ) (cs : List ℕ)
    → c < 256
    → serialise_bytes (suc n) (value_of (suc n) (c ∷ cs)) ≡ c ∷ serialise_bytes n (value_of n cs)
first-byte n c cs small =
    let low : (c + 256 * value_of n cs) % 256 ≡ c = omega arith in
    let high : (c + 256 * value_of n cs) / 256 ≡ value_of n cs = omega arith in rw (low, high) refl

next-char :
    (n c : ℕ) (cs : List ℕ)
    → ((if ltb (length cs) n then ok cs else fault) >>= λ rest. ok (c ∷ rest))
      ≡ (if ltb (suc (length cs)) (suc n) then ok (c ∷ cs) else fault)
next-char n c cs = ground arith

c_string-bytes :
    (n : ℕ) (cs : List ℕ)
    → IsText cs
    → c_string (serialise_bytes n (value_of n cs)) ≡ (if ltb (length cs) n then ok cs else fault)
unfolding c_string
c_string-bytes zero cs t = ground arith
c_string-bytes (suc n) [] t = ground arith
c_string-bytes (suc n) (c ∷ cs) (pos, small, t) =
    let some_byte : (c == 0) ≡ false = ground arith in
    ap c_string (first-byte n c cs small)
    ∙ rw (c_string, some_byte, c_string-bytes n cs t) (next-char n c cs)

-- A string of up to seven bytes comes back as it was. From a longer one the reading runs past the
-- eight bytes of the array, as they hold no zero.
pub convert-round_trip :
    (input : List ℕ)
    → IsText input
    → convert_eight_bytes_to_string (convert_str_to_eight_bytes input)
      ≡ (if ltb (length input) 8 then ok input else fault)
unfolding convert_eight_bytes_to_string convert_str_to_eight_bytes
convert-round_trip input t = c_string-bytes 8 input t
