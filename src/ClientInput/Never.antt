-- ===== src/ClientInput/Never.antt =====
-- No line makes a request that is not for a new order.
use spot_exchange.Prelude.{
  ℕ, zero, suc, ◌+◌, ◌≤◌, ◌≡◌, ◌≢◌, refl, ap, ◌∙◌, Bool-cases, Option-cases, inl, inr, ◌⊎◌, true,
  Option, none, some, List, [], ◌∷◌, ◌++◌, arith, length, length-append,
}
use spot_exchange.Prelude.Run.{Run, ok, fault, ◌>>=◌, steps-ok}
use spot_exchange.Info.{OrderCommon}
use spot_exchange.Connection.{Request}
use spot_exchange.Util.{convert_str_to_eight_bytes}
use spot_exchange.ClientInput.{
  Str, codes, eq_str, find_str, find_field, get_order_values, is_nil, elem_at, stoi,
}
use spot_exchange.ClientInput.Console.{
  Client, modorder_fields, cancelorder_fields, construct_modify_order_request,
  construct_cancel_order_request, request_of, user_entered_command, order_type, get_user_input,
  side_at, common_fields, set_order_id, modify_of, cancel_of,
}

-- `getOrderValues` gives no values, or one for each field.
values-length :
    (input : Str) (fields values : List Str)
    → (get_order_values input fields values ≡ [])
      ⊎ (length (get_order_values input fields values) ≡ length values + length fields)
unfolding get_order_values
values-length input [] values = inr (omega arith)
values-length input (field ∷ fields) values =
    let value = find_field field input in
    elim (Bool-cases (is_nil value)) [
      | inl e ↦ inl (rw e refl)
      | inr e ↦ elim (values-length input fields (values ++ value ∷ [])) [
        | inl none_left ↦ inl (rw e none_left)
        | inr l ↦ inr (rw e (l ∙ omega (arith, length-append values (value ∷ []))))
      ]
    ]

elem_at-out : (i : ℕ) (xs : List Str) → length xs ≤ i → elem_at i xs ≡ fault
elem_at-out i [] h = refl
elem_at-out zero (x ∷ xs) h = absurd (omega arith)
elem_at-out (suc i) (x ∷ xs) h = elem_at-out i xs (omega arith)

-- An ID that is read past the values is never read.
set_order_id-out :
    (i : ℕ) (values : List Str) (common : OrderCommon)
    → length values ≤ i
    → set_order_id i values common ≡ fault
unfolding set_order_id
set_order_id-out i values common h = rw (elem_at-out i values h, set_order_id) refl

-- What follows a fault is a fault.
common_fields-never :
    (user_id side : ℕ) (values : List Str) (set_id : OrderCommon → Run OrderCommon) (r : Request)
    → ((c : OrderCommon) → set_id c ≡ fault)
    → common_fields user_id side values set_id ≢ ok r
unfolding common_fields
common_fields-never user_id side values set_id r faults e =
    let (price_value, e₁, f₁) = steps-ok (elem_at 1 values) _ (r) e in
    let (price, e₂, f₂) = steps-ok (stoi price_value) _ r f₁ in
    let (quantity_value, e₃, f₃) = steps-ok (elem_at 2 values) _ r f₂ in
    let (quantity, e₄, f₄) = steps-ok (stoi quantity_value) _ r f₃ in
    let (ticker, e₅, f₅) = steps-ok (elem_at 3 values) _ r f₄ in
    let c : OrderCommon = record {
      order_id = 0;
      user_id = user_id;
      ticker = convert_str_to_eight_bytes ticker;
    } in
    let (common, e₆, f₆) = steps-ok (set_id c) _ r f₅ in
    let never : set_id c ≡ fault = faults c in cc

-- What `constructModifyOrderRequest` does once it knows the side.
sided-never :
    (user_id : ℕ) (values : List Str) (r : Request) (side : Option ℕ)
    → length values ≤ 5
    → (elim side [
      | none ↦ ok none
      | some s ↦ do r ← common_fields user_id s values (set_order_id 5 values); ok (some r)
    ])
      ≢ ok (some r)
sided-never user_id values r none h f = cc
sided-never user_id values r (some s) h f =
    let (r', e₂, f₂) =
      steps-ok (common_fields user_id s values (set_order_id 5 values)) _ (some r) f in
    common_fields-never user_id s values (set_order_id 5 values) r'
      (λ c. set_order_id-out 5 values c h) e₂

modify_of-never :
    (user_id : ℕ) (values : List Str) (r : Request)
    → length values ≤ 5
    → modify_of user_id values ≢ ok (some r)
unfolding modify_of
modify_of-never user_id [] r h e = cc
modify_of-never user_id (v ∷ vs) r h e =
    let (side, e₁, f₁) = steps-ok (side_at (v ∷ vs)) _ (some r) e in
    sided-never user_id (v ∷ vs) r side h f₁

cancel_of-never :
    (user_id : ℕ) (values : List Str) (r : Request)
    → length values ≤ 2
    → cancel_of user_id values ≢ ok (some r)
unfolding cancel_of
cancel_of-never user_id [] r h e = cc
cancel_of-never user_id (v ∷ vs) r h e =
    let c : OrderCommon = record {
      order_id = 0;
      user_id = user_id;
      ticker = convert_str_to_eight_bytes v;
    } in
    let (common, e₁, f₁) = steps-ok (set_order_id 2 (v ∷ vs) c) _ (some r) e in
    let never : set_order_id 2 (v ∷ vs) c ≡ fault = set_order_id-out 2 (v ∷ vs) c h in cc

values-short :
    (input : Str) (fields : List Str) (n : ℕ)
    → length fields ≡ n
    → length (get_order_values input fields []) ≤ n
values-short input fields n e = elim (values-length input fields []) [
  | inl none_left ↦ rw none_left (omega arith)
  | inr l ↦ omega arith
]

request_of-add :
    (kind : Str) (user_id : ℕ) (input : Str) (r : Request)
    → request_of kind user_id input ≡ ok (some r)
    → eq_str kind (codes "add") ≡ true
unfolding request_of construct_modify_order_request construct_cancel_order_request
request_of-add kind user_id input r e = elim (Bool-cases (eq_str kind (codes "add"))) [
  | inl add ↦ add
  | inr other ↦ elim (Bool-cases (eq_str kind (codes "cancel"))) [
    | inl cancels ↦ absurd (
        modify_of-never user_id (get_order_values input modorder_fields []) r
          (values-short input modorder_fields 5 refl) (rw (other, cancels) at e))
    | inr other' ↦ elim (Bool-cases (eq_str kind (codes "modify"))) [
      | inl modifies ↦ absurd (
          cancel_of-never user_id (get_order_values input cancelorder_fields []) r
            (values-short input cancelorder_fields 2 refl) (rw (other, other', modifies) at e))
      | inr unknown ↦
          let nothing : ◌≡◌ {A = Run (Option Request)} (ok none) (ok (some r)) =
            rw (other, other', unknown) at e in
          cc
    ]
  ]
]

-- What `getUserInput` does from the order type on.
kind-add :
    (kind : Option Str) (input : Str) (c client' : Client) (r : Request)
    → ◌≡◌ {A = Run (Option Request × Client)}
        (elim kind [
          | none ↦ ok (none, c)
          | some kind ↦ do request ← request_of kind c.user_id input; ok (request, c)
        ])
        (ok (some r, client'))
    → (k : Str) × (kind ≡ some k) × (eq_str k (codes "add") ≡ true)
kind-add none input c client' r e = cc
kind-add (some k) input c client' r e =
    let (request, e₁, f₁) = steps-ok (request_of k c.user_id input) _ (some r, client') e in
    let same : request ≡ some r = cc in
    (k, refl, request_of-add k c.user_id input r (e₁ ∙ ap ok same))

-- Every request that `getUserInput` makes comes from a line whose order type is "add": a line that
-- asks for a cancel or a modification never makes one. (Each of the two reads its order ID behind the
-- last of the values.)
pub get_user_input-only_adds :
    (line : Str) (client client' : Client) (r : Request)
    → get_user_input line client ≡ ok (some r, client')
    → (before s kind : Str) × (find_str (codes "-order ") (line ++ codes " ") ≡ some (before, s))
      × (order_type s ≡ some kind)
      × (eq_str kind (codes "add") ≡ true)
unfolding get_user_input
get_user_input-only_adds line client client' r e =
    let input = line ++ codes " " in
    let ((entered, c), e₁, f₁) =
      steps-ok (user_entered_command input client) _ (some r, client') e in
    elim (Bool-cases entered) [
      | inl command ↦
          let nothing : ◌≡◌ {A = Run (Option Request × Client)} (ok (none, c))
              (ok (some r, client')) =
            rw command at f₁ in
          cc
      | inr order ↦
          let f₂ = rw order at f₁ in
          elim (Option-cases (find_str (codes "-order ") input)) [
            | inl missing ↦
                let nothing : ◌≡◌ {A = Run (Option Request × Client)} (ok (none, c))
                    (ok (some r, client')) =
                  rw missing at f₂ in
                cc
            | inr ((before, s), there) ↦
                let (kind, is_kind, add) =
                  kind-add (order_type s) input c client' r (rw there at f₂) in
                (before, s, kind, there, is_kind, add)
          ]
    ]
