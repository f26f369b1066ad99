-- ===== src/ClientInput.antt =====
-- src/client/client.cpp: how `TradingClient` reads a line of the user, and the command or the order
-- request that it makes of it.
--
-- A string is the list of its bytes, and a position in a string is what stands from there on;
-- `std::string::npos` is `none`. `std::stoi` throws where it finds no number or one that is no `int`.
-- What is printed is left out.
pub mod Console
pub mod Search
pub mod Adds
pub mod Never
pub mod Tests
use Prim.Native.Char.{code}
use Prim.Native.String.{String}
use spot_exchange.Prelude.{
  ℕ, zero, suc, ◌+◌, ◌-◌, ◌*◌, ◌%◌, ◌^◌, Bool, true, false, ◌&&◌, ◌||◌, Option, none, some, List,
  [], ◌∷◌, ◌++◌, leb, ltb, ◌==◌, if◌then◌else◌, ℤ, pos, negsuc, find,
}
use spot_exchange.Prelude.Run.{Run, ok, exception, fault, ◌>>=◌}
use spot_exchange.Info.{OrderCommon}
use spot_exchange.Connection.{Entry, Request, new_entry}
use spot_exchange.Util.{convert_str_to_eight_bytes}
use spot_exchange.ClientFeed.{Handler, subscribe}

abbrev pub Str : Type 0
Str = List ℕ

-- The bytes of a literal.
abbrev pub codes : String → Str
codes String.[] = []
codes (String.◌∷◌ c s) = code c ∷ codes s

unfoldable pub eq_str : Str → Str → Bool
eq_str [] [] = true
eq_str [] (d ∷ ds) = false
eq_str (c ∷ cs) [] = false
eq_str (c ∷ cs) (d ∷ ds) = c == d && eq_str cs ds

abbrev pub is_nil : Str → Bool
is_nil [] = true
is_nil (c ∷ cs) = false

abbrev pub starts_with : Str → Str → Bool
starts_with [] s = true
starts_with (d ∷ ds) [] = false
starts_with (d ∷ ds) (c ∷ cs) = d == c && starts_with ds cs

-- `find`: what stands before the first occurrence, and from it on.
abbrev pub after_char : ℕ → Option (Str × Str) → Option (Str × Str)
after_char c none = none
after_char c (some (before, s)) = some (c ∷ before, s)

unfoldable pub find_str : Str → Str → Option (Str × Str)
find_str sub [] = if starts_with sub [] then some ([], []) else none
find_str sub (c ∷ cs) =
    if starts_with sub (c ∷ cs) then some ([], c ∷ cs) else after_char c (find_str sub cs)

abbrev pub rest_of_str : Str → Str
rest_of_str [] = []
rest_of_str (c ∷ cs) = cs

-- From the space in `s` to the next one, or to the end.
abbrev pub word_after : Str → Option Str
word_after s = elim (find_str (codes " ") s) [
  | none ↦ none
  | some (before, t) ↦ elim (find_str (codes " ") (rest_of_str t)) [
    | none ↦ some (rest_of_str t)
    | some (word, u) ↦ some word
  ]
]

-- The value behind a field that was found, "" where it was not.
abbrev pub value_behind : Option (Str × Str) → Str
value_behind none = []
value_behind (some (before, s)) = elim (word_after s) [ none ↦ [] | some word ↦ word ]

-- `findField`.
unfoldable pub find_field : Str → Str → Str
unfolding find_str
find_field field input = value_behind (find_str field input)

-- `getOrderValues`: no values where one of them is missing.
unfoldable pub get_order_values : Str → List Str → List Str → List Str
get_order_values input [] values = values
get_order_values input (field ∷ fields) values =
    let rest = get_order_values input fields (values ++ find_field field input ∷ []) in
    if is_nil (find_field field input) then [] else rest

-- `values[i]`.
abbrev pub elem_at : {A : Type 0} → ℕ → List A → Run A
elem_at i [] = fault
elem_at zero (x ∷ xs) = ok x
elem_at (suc i) (x ∷ xs) = elem_at i xs

abbrev pub is_digit : ℕ → Bool
is_digit c = leb b'0' c && leb c b'9'

-- The number that the leading digits are.
abbrev pub decimal : ℕ → Str → ℕ
decimal n [] = n
decimal n (c ∷ cs) = if is_digit c then decimal (10 * n + (c - b'0')) cs else n

abbrev pub starts_digit : Str → Bool
starts_digit [] = false
starts_digit (c ∷ cs) = is_digit c

abbrev pub in_int : Bool → ℕ → Run ℤ
in_int true zero = ok (pos zero)
in_int true (suc n) = if ltb n (2 ^ 31) then ok (negsuc n) else exception
in_int false n = if ltb n (2 ^ 31) then ok (pos n) else exception

pub number : Bool → Str → Run ℤ
number minus s = if starts_digit s then in_int minus (decimal 0 s) else exception

abbrev is_space : ℕ → Bool
is_space c = c == 32 || (leb 9 c && leb c 13)

pub signed_number : ℕ → Str → Run ℤ
unfolding number
signed_number c cs =
    if c == b'-'
    then number true cs
    else if c == b'+'
    then number false cs
    else number false (c ∷ cs)

-- `std::stoi`.
unfoldable pub stoi : Str → Run ℤ
unfolding signed_number
stoi [] = exception
stoi (c ∷ cs) = let rest = stoi cs in if is_space c then rest else signed_number c cs

-- An `int` as an unsigned field of `w` bits.
abbrev pub to_unsigned : ℕ → ℤ → ℕ
to_unsigned w (pos n) = n % 2 ^ w
to_unsigned w (negsuc n) = 2 ^ w - 1 - n % 2 ^ w

-- `setSide`.
abbrev pub set_side : ℕ → Option ℕ
set_side c = if c == b'B' then some 1 else if c == b'S' then some 0 else none
