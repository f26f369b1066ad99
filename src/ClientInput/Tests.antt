-- ===== src/ClientInput/Tests.antt =====
-- A user asks to buy 12 AAPL at 100, and in vain for a cancel and a modification.
use spot_exchange.Prelude.{◌≡◌, refl, true, none, some, ◌++◌, arith}
use spot_exchange.Prelude.Run.{ok, fault}
use spot_exchange.Connection.{Request, new_entry}
use spot_exchange.Util.{convert_str_to_eight_bytes}
use spot_exchange.ClientFeed.{empty_handler}
use spot_exchange.ClientInput.{
  Str, codes, eq_str, find_str, find_field, get_order_values, stoi, signed_number, number,
}
use spot_exchange.ClientInput.Console.{
  Client, get_user_input, order_type, user_entered_command, request_of, side_at, common_fields,
  set_order_id, modify_of, cancel_of, construct_modify_order_request,
  construct_cancel_order_request,
}
use spot_exchange.ClientInput.Adds.{add_line, get_user_input-add}
use spot_exchange.ClientInput.Never.{get_user_input-only_adds}

abbrev user : Client
user = record { feedhandler = empty_handler; subscription = none; user_id = 5 }

abbrev buys : Str
buys = add_line b'B' (codes "100") (codes "12") (codes "AAPL")

abbrev asked : Request
asked = new_entry (record {
  is_buy_side = 1;
  price = 100;
  quantity = 12;
  common = record { order_id = 0; user_id = 5; ticker = convert_str_to_eight_bytes (codes "AAPL") };
})

get_user_input-add_example : get_user_input buys user ≡ ok (some asked, user)
get_user_input-add_example =
    get_user_input-add user b'B' 1 b'1' b'1' b'A' (codes "00") (codes "2") (codes "APL") refl
      (refl, (refl, (refl, tt))) (refl, (refl, tt)) (ground arith) (omega arith) (omega arith)

get_user_input-only_adds_example :
    (before s kind : Str) × (find_str (codes "-order ") (buys ++ codes " ") ≡ some (before, s))
    × (order_type s ≡ some kind)
    × (eq_str kind (codes "add") ≡ true)
get_user_input-only_adds_example =
    get_user_input-only_adds buys user user asked get_user_input-add_example

cancel_line :
    get_user_input
      (codes "-order cancel -side B -price 100 -quantity 12 -ticker AAPL -orderid 7")
      user
    ≡ fault
unfolding get_user_input find_str order_type eq_str request_of construct_modify_order_request
    modify_of get_order_values find_field side_at common_fields set_order_id stoi signed_number
    number user_entered_command
cancel_line = refl

modify_line : get_user_input (codes "-order modify -ticker AAPL -orderid 7") user ≡ fault
unfolding get_user_input find_str order_type eq_str request_of construct_cancel_order_request
    cancel_of get_order_values find_field set_order_id user_entered_command
modify_line = refl
