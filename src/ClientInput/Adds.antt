-- ===== src/ClientInput/Adds.antt =====
-- A line that asks for a new order gives the request for it.
use mathlib.Core.List.{append_assoc}
use spot_exchange.Prelude.{
  ℕ, ◌%◌, ◌^◌, ◌<◌, ◌≡◌, refl, ap, ◌∙◌, true, false, some, [], ◌∷◌, ◌++◌, arith,
}
use spot_exchange.Prelude.Run.{ok}
use spot_exchange.Connection.{Request, new_entry}
use spot_exchange.Util.{convert_str_to_eight_bytes}
use spot_exchange.ClientInput.{
  Str, codes, eq_str, find_str, find_field, get_order_values, is_nil, decimal, set_side,
}
use spot_exchange.ClientInput.Search.{
  all_clash, find_field-skip, Plain, Plain-clash, find_field-here, Digits, Digits-Plain,
  stoi-Digits,
}
use spot_exchange.ClientInput.Console.{
  Client, addorder_fields, construct_new_order_request, request_of, user_entered_command,
  order_type, get_user_input, side_at, common_fields, new_order_of,
}

-- "-order add -side S -price P -quantity Q -ticker T".
abbrev pub add_line : (side : ℕ) (price quantity ticker : Str) → Str
add_line side price quantity ticker =
    codes "-order add -side "
    ++ side
      ∷ (codes " -price "
          ++ (price ++ (codes " -quantity " ++ (quantity ++ (codes " -ticker " ++ ticker)))))

-- The same with the space that `getUserInput` puts behind, from the ticker, the quantity, the price on.
abbrev from_ticker : Str → Str
from_ticker ticker = codes " -ticker " ++ (ticker ++ codes " ")

abbrev from_quantity : Str → Str → Str
from_quantity quantity ticker = codes " -quantity " ++ (quantity ++ from_ticker ticker)

abbrev from_price : Str → Str → Str → Str
from_price price quantity ticker = codes " -price " ++ (price ++ from_quantity quantity ticker)

abbrev whole_line : (side : ℕ) (price quantity ticker : Str) → Str
whole_line side price quantity ticker =
    codes "-order add -side " ++ side ∷ from_price price quantity ticker

with_space : (s : ℕ) (p q t : Str) → add_line s p q t ++ codes " " ≡ whole_line s p q t
with_space s p q t =
    ap (λ x. codes "-order add -side " ++ s ∷ (codes " -price " ++ x))
      (append_assoc p (codes " -quantity " ++ (q ++ (codes " -ticker " ++ t))) (codes " ")
        ∙ ap (λ x. p ++ (codes " -quantity " ++ x))
            (append_assoc q (codes " -ticker " ++ t) (codes " ")))

module _ (s : ℕ) (p q t : Str) (side : Plain (s ∷ [])) (price : Plain p) (quantity : Plain q)
    (ticker : Plain t) where
  abbrev line : Str
  line = whole_line s p q t

  -- The search for another field than the side passes the start of the line.
  past_side :
      (sub : Str)
      → all_clash (b'-' ∷ sub) (codes "-order add -side ") ≡ true
      → find_field (b'-' ∷ sub) line ≡ find_field (b'-' ∷ sub) (from_price p q t)
  past_side sub e =
      find_field-skip (b'-' ∷ sub) (codes "-order add -side ") (s ∷ from_price p q t) e
      ∙ find_field-skip (b'-' ∷ sub) (s ∷ []) (from_price p q t) (Plain-clash sub (s ∷ []) side)

  past_price :
      (sub : Str)
      → all_clash (b'-' ∷ sub) (codes " -price ") ≡ true
      → find_field (b'-' ∷ sub) (from_price p q t) ≡ find_field (b'-' ∷ sub) (from_quantity q t)
  past_price sub e =
      find_field-skip (b'-' ∷ sub) (codes " -price ") (p ++ from_quantity q t) e
      ∙ find_field-skip (b'-' ∷ sub) p (from_quantity q t) (Plain-clash sub p price)

  side_found : find_field (codes "-side ") line ≡ s ∷ []
  side_found =
      find_field-skip (codes "-side ") (codes "-order add ")
        (codes "-side " ++ s ∷ from_price p q t) refl
      ∙ find_field-here b'-' (codes "side") (s ∷ []) (codes "-price " ++ (p ++ from_quantity q t))
          (ground arith) (ground arith) side

  price_found : find_field (codes "-price ") line ≡ p
  price_found =
      past_side (codes "price ") refl
      ∙ find_field-skip (codes "-price ") (codes " ") (codes "-price " ++ (p ++ from_quantity q t))
          refl
      ∙ find_field-here b'-' (codes "price") p (codes "-quantity " ++ (q ++ from_ticker t))
          (ground arith) (ground arith) price

  quantity_found : find_field (codes "-quantity ") line ≡ q
  quantity_found =
      past_side (codes "quantity ") refl
      ∙ past_price (codes "quantity ") refl
      ∙ find_field-skip (codes "-quantity ") (codes " ")
          (codes "-quantity " ++ (q ++ from_ticker t)) refl
      ∙ find_field-here b'-' (codes "quantity") q (codes "-ticker " ++ (t ++ codes " "))
          (ground arith) (ground arith) quantity

  ticker_found : find_field (codes "-ticker ") line ≡ t
  ticker_found =
      past_side (codes "ticker ") refl
      ∙ past_price (codes "ticker ") refl
      ∙ find_field-skip (codes "-ticker ") (codes " -quantity ") (q ++ from_ticker t) refl
      ∙ find_field-skip (codes "-ticker ") q (from_ticker t)
          (Plain-clash (codes "ticker ") q quantity)
      ∙ find_field-skip (codes "-ticker ") (codes " ") (codes "-ticker " ++ (t ++ codes " ")) refl
      ∙ find_field-here b'-' (codes "ticker") t [] (ground arith) (ground arith) ticker

  values_found :
      is_nil p ≡ false
      → is_nil q ≡ false
      → is_nil t ≡ false
      → get_order_values line addorder_fields [] ≡ (s ∷ []) ∷ p ∷ q ∷ t ∷ []
  unfolding get_order_values
  values_found np nq nt =
      rw (side_found, price_found, quantity_found, ticker_found, np, nq, nt) refl

side-Plain : (s side : ℕ) → set_side s ≡ some side → Plain (s ∷ [])
side-Plain s side e = (ground arith, ground arith, tt)

construct-values :
    (user_id s side c d e : ℕ) (cs ds es input : Str)
    → get_order_values input addorder_fields [] ≡ (s ∷ []) ∷ (c ∷ cs) ∷ (d ∷ ds) ∷ (e ∷ es) ∷ []
    → set_side s ≡ some side
    → Digits (c ∷ cs)
    → Digits (d ∷ ds)
    → decimal 0 (c ∷ cs) < 2 ^ 31
    → decimal 0 (d ∷ ds) < 2 ^ 31
    → construct_new_order_request user_id input
      ≡ ok (
          some (
            new_entry (record {
              is_buy_side = side;
              price = decimal 0 (c ∷ cs) % 2 ^ 64;
              quantity = decimal 0 (d ∷ ds) % 2 ^ 32;
              common = record {
                order_id = 0;
                user_id = user_id;
                ticker = convert_str_to_eight_bytes (e ∷ es);
              };
            })))
unfolding construct_new_order_request new_order_of side_at common_fields
construct-values user_id s side c d e cs ds es input values sided p q small_p small_q =
    rw
      (
        values,
        construct_new_order_request,
        sided,
        stoi-Digits c cs p small_p,
        stoi-Digits d ds q small_q,
      )
      refl

-- What `getUserInput` does with the line of an order, up to the order's fields.
dispatch :
    (s : ℕ) (p q t : Str) (client : Client) (r : Request)
    → construct_new_order_request client.user_id (whole_line s p q t) ≡ ok (some r)
    → get_user_input (add_line s p q t) client ≡ ok (some r, client)
unfolding get_user_input user_entered_command find_str order_type request_of eq_str
dispatch s p q t client r e = rw (with_space s p q t, e) refl

-- The line "-order add -side S -price P -quantity Q -ticker T", with S one of B and S, P and Q digits
-- of an `int`, and T a text without spaces and dashes, gives the request for a new order with that
-- side, price, quantity and ticker, for the client's user, and with no order ID.
pub get_user_input-add :
    (client : Client) (s side c d e : ℕ) (cs ds es : Str)
    → set_side s ≡ some side
    → Digits (c ∷ cs)
    → Digits (d ∷ ds)
    → Plain (e ∷ es)
    → decimal 0 (c ∷ cs) < 2 ^ 31
    → decimal 0 (d ∷ ds) < 2 ^ 31
    → get_user_input (add_line s (c ∷ cs) (d ∷ ds) (e ∷ es)) client
      ≡ ok (
        some (
            new_entry (record {
              is_buy_side = side;
              price = decimal 0 (c ∷ cs);
              quantity = decimal 0 (d ∷ ds);
              common = record {
                order_id = 0;
                user_id = client.user_id;
                ticker = convert_str_to_eight_bytes (e ∷ es);
              };
            })),
        client,
      )
get_user_input-add client s side c d e cs ds es sided p q t small_p small_q =
    let same_p : decimal 0 (c ∷ cs) % 2 ^ 64 ≡ decimal 0 (c ∷ cs) = omega arith in
    let same_q : decimal 0 (d ∷ ds) % 2 ^ 32 ≡ decimal 0 (d ∷ ds) = omega arith in
    dispatch s (c ∷ cs) (d ∷ ds) (e ∷ es) client _ (
      construct-values client.user_id s side c d e cs ds es
        (whole_line s (c ∷ cs) (d ∷ ds) (e ∷ es))
        (values_found s (c ∷ cs) (d ∷ ds) (e ∷ es) (side-Plain s side sided)
          (Digits-Plain (c ∷ cs) p) (Digits-Plain (d ∷ ds) q) t refl refl refl)
        sided p q small_p small_q
      ∙ rw (same_p, same_q) refl)
