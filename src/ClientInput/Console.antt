-- ===== src/ClientInput/Console.antt =====
-- src/client/client.cpp: `getUserInput` and what it calls to make a request of a line.
use spot_exchange.Prelude.{
  ℕ, zero, Bool, true, false, Option, none, some, List, [], ◌∷◌, ◌++◌, ◌==◌, if◌then◌else◌, not,
}
use spot_exchange.Prelude.Run.{Run, ok, ◌>>=◌}
use spot_exchange.Info.{OrderCommon}
use spot_exchange.Connection.{Request, new_entry}
use spot_exchange.Util.{convert_str_to_eight_bytes}
use spot_exchange.ClientFeed.{Handler, subscribe}
use spot_exchange.ClientInput.{
  Str, codes, eq_str, find_str, rest_of_str, get_order_values, elem_at, stoi, to_unsigned, set_side,
}

-- The members of `TradingClient` that the input works on; the subscription is a position in the
-- handler's books.
pub record Client : Type 0 where
  pub feedhandler : Handler
  pub subscription : Option ℕ
  pub user_id : ℕ

abbrev pub addorder_fields : List Str
addorder_fields = codes "-side " ∷ codes "-price " ∷ codes "-quantity " ∷ codes "-ticker " ∷ []

abbrev pub modorder_fields : List Str
modorder_fields =
    codes "-side "
    ∷ codes "-price "
    ∷ codes "-quantity "
    ∷ codes "-ticker "
    ∷ codes "-orderid "
    ∷ []

abbrev pub cancelorder_fields : List Str
cancelorder_fields = codes "-ticker " ∷ codes "-orderid " ∷ []

-- `values[0][0]` as a side.
unfoldable pub side_at : List Str → Run (Option ℕ)
side_at values = do value ← elem_at zero values; c ← elem_at zero value; ok (set_side c)

-- The fields that a new order and a modification share.
unfoldable pub common_fields : ℕ → ℕ → List Str → (OrderCommon → Run OrderCommon) → Run Request
unfolding stoi
common_fields user_id side values set_id = do
  price_value ← elem_at 1 values
  price ← stoi price_value
  quantity_value ← elem_at 2 values
  quantity ← stoi quantity_value
  ticker ← elem_at 3 values
  common ←
      set_id
        (record { order_id = 0; user_id = user_id; ticker = convert_str_to_eight_bytes ticker })
  ok (
      new_entry (record {
        is_buy_side = side;
        price = to_unsigned 64 price;
        quantity = to_unsigned 32 quantity;
        common = common;
      }))

-- `constructNewOrderRequest`, `none` for `false`; first from the values of the fields.
unfoldable pub new_order_of : ℕ → List Str → Run (Option Request)
unfolding side_at common_fields
new_order_of user_id [] = ok none
new_order_of user_id (v ∷ vs) = do
  side ← side_at (v ∷ vs)
  elim side [
    | none ↦ ok none
    | some s ↦ do r ← common_fields user_id s (v ∷ vs) (λ c. ok c); ok (some r)
  ]

unfoldable pub construct_new_order_request : ℕ → Str → Run (Option Request)
unfolding get_order_values new_order_of
construct_new_order_request user_id input =
    new_order_of user_id (get_order_values input addorder_fields [])

-- The ID is read from `values[i]`.
unfoldable pub set_order_id : ℕ → List Str → OrderCommon → Run OrderCommon
unfolding stoi
set_order_id i values common = do
  value ← elem_at i values
  id ← stoi value
  ok (record common { order_id = to_unsigned 64 id })

-- `constructModifyOrderRequest`: it writes a new order, and reads the ID from `values[5]`.
unfoldable pub modify_of : ℕ → List Str → Run (Option Request)
unfolding side_at common_fields set_order_id
modify_of user_id [] = ok none
modify_of user_id (v ∷ vs) = do
  side ← side_at (v ∷ vs)
  elim side [
    | none ↦ ok none
    | some s ↦ do r ← common_fields user_id s (v ∷ vs) (set_order_id 5 (v ∷ vs)); ok (some r)
  ]

unfoldable pub construct_modify_order_request : ℕ → Str → Run (Option Request)
unfolding get_order_values modify_of
construct_modify_order_request user_id input =
    modify_of user_id (get_order_values input modorder_fields [])

-- `constructCancelOrderRequest`: it writes a new order, and reads the ID from `values[2]`.
unfoldable pub cancel_of : ℕ → List Str → Run (Option Request)
unfolding set_order_id
cancel_of user_id [] = ok none
cancel_of user_id (v ∷ vs) = do
  common ←
      set_order_id 2 (v ∷ vs)
        (record { order_id = 0; user_id = user_id; ticker = convert_str_to_eight_bytes v })
  ok (some (new_entry (record { is_buy_side = 0; price = 0; quantity = 0; common = common })))

unfoldable pub construct_cancel_order_request : ℕ → Str → Run (Option Request)
unfolding get_order_values cancel_of
construct_cancel_order_request user_id input =
    cancel_of user_id (get_order_values input cancelorder_fields [])

-- `split`: a piece that the end of the string cuts off counts if it is not empty.
abbrev pub split_from : Str → ℕ → Str → List Str
split_from [] d [] = []
split_from (p ∷ ps) d [] = (p ∷ ps) ∷ []
split_from piece d (c ∷ cs) =
    let rest = split_from (if c == d then [] else piece ++ c ∷ []) d cs in
    if c == d then piece ∷ rest else rest

-- `userEnteredCommand`: whether it was one, and the client afterwards.
unfoldable pub user_entered_command : Str → Client → Run (Bool × Client)
unfolding eq_str subscribe
user_entered_command command client = do
  first ← elem_at zero command
  if not (first == b'/') then ok (false, client) else (do
    let args = split_from [] 32 command
    name ← elem_at zero args
    if eq_str name (codes "/subscribe")
        then (do
          ticker ← elem_at 1 args
          ok (
            true,
            record client {
              subscription = subscribe (convert_str_to_eight_bytes ticker) client.feedhandler;
            },
          ))
        else ok (true, client))

-- `ordertype` of the input, from the position of "-order ".
unfoldable pub order_type : Str → Option Str
unfolding find_str
order_type s = elim (find_str (codes " ") s) [
  | none ↦ none
  | some (before, t) ↦ elim (find_str (codes " ") (rest_of_str t)) [
    | none ↦ none
    | some (word, u) ↦ some word
  ]
]

-- The request of an order type: "cancel" makes a modification, and "modify" a cancel.
unfoldable pub request_of : Str → ℕ → Str → Run (Option Request)
unfolding eq_str
request_of kind user_id input =
    let cancels = construct_modify_order_request user_id input in
    let modifies = construct_cancel_order_request user_id input in
    if eq_str kind (codes "add")
    then construct_new_order_request user_id input
    else if eq_str kind (codes "cancel")
    then cancels
    else if eq_str kind (codes "modify")
    then modifies
    else ok none

-- `getUserInput` with the line `line`: the request if it returns `true`, and the client.
unfoldable pub get_user_input : Str → Client → Run (Option Request × Client)
unfolding find_str order_type user_entered_command construct_new_order_request
    construct_modify_order_request construct_cancel_order_request request_of
get_user_input line client = do
  let input = line ++ codes " "
  (entered, client') ← user_entered_command input client
  if entered then ok (none, client') else elim (find_str (codes "-order ") input) [
    | none ↦ ok (none, client')
    | some (before, s) ↦ elim (order_type s) [
      | none ↦ ok (none, client')
      | some kind ↦ do request ← request_of kind client'.user_id input; ok (request, client')
    ]
  ]
