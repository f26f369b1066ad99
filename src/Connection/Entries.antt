-- ===== src/Connection/Entries.antt =====
-- What `processEntry` makes of requests: order IDs, acknowledgements, jobs and refusals.
use spot_exchange.Prelude.{
  ℕ, ◌+◌, ◌%◌, ◌^◌, ◌<◌, ◌≤◌, ◌≡◌, ◌≢◌, refl, sym, ◌∙◌, true, some, List, [], ◌∷◌, ◌++◌, arith,
  ◌==◌, ◌⊎◌, Bool-cases, inl, inr, length,
}
use spot_exchange.Info.{Conn, OrderCommon}
use spot_exchange.Messages.{wrong_user_id}
use spot_exchange.Connection.{
  Connection, Shared, Request, new_entry, modify_entry, cancel_entry, not_set, Action, read_first,
  read_next, create_new_conn, add_job, modify_job, cancel_job, rejection, process_entry,
  handle_order_type, user_id_usage_rejection, write_to_client, common_of, Response, new_order_ack,
  modify_order_ack, cancel_order_ack, with_id, add_of, modify_of, cancel_of,
}

-- The requests of a stream, one after the other.
unfoldable pub process_all :
    ℕ → List Request → Connection → Shared → Connection × Shared × List Action
unfolding process_entry
process_all now [] c sh = (c, sh, [])
process_all now (r ∷ rs) c sh =
    let (c', sh', jobs) = process_entry now r c sh in
    let (c'', sh'', jobs') = process_all now rs c' sh' in (c'', sh'', jobs ++ jobs')

abbrev pub ids_of : List Action → List ℕ
ids_of [] = []
ids_of (add_job o ∷ jobs) = o.order_id ∷ ids_of jobs
ids_of (modify_job m ∷ jobs) = ids_of jobs
ids_of (cancel_job c ∷ jobs) = ids_of jobs
ids_of (read_first ∷ jobs) = ids_of jobs
ids_of (read_next ∷ jobs) = ids_of jobs
ids_of (create_new_conn ∷ jobs) = ids_of jobs

-- Larger and larger numbers, from `g` on.
abbrev pub Ascending : ℕ → List ℕ → Type 0
Ascending g [] = Unit
Ascending g (id ∷ ids) = (g < id) × Ascending id ids

Ascending-from : (g h : ℕ) (ids : List ℕ) → g ≤ h → Ascending h ids → Ascending g ids
Ascending-from g h [] le a = tt
Ascending-from g h (id ∷ ids) le a = (omega arith, a.1)

abbrev pub refused : OrderCommon → Connection → Connection
refused common c =
    write_to_client (rejection wrong_user_id common) (record c { stream_cancelled = true })

-- A request in the connection's own name is acknowledged and handed on, any other is refused.
handled :
    (common : OrderCommon) (ack : Response) (job : Action) (c : Connection)
    → ((common.user_id ≡ c.user_id)
        × (handle_order_type common ack job c ≡ (write_to_client ack c, job ∷ [])))
      ⊎ ((common.user_id ≢ c.user_id)
          × (handle_order_type common ack job c ≡ (refused common c, [])))
unfolding handle_order_type user_id_usage_rejection
handled common ack job c = elim (Bool-cases (common.user_id == c.user_id)) [
  | inl e ↦ inl (ground arith, rw (e, handle_order_type) refl)
  | inr e ↦ inr (ground arith, rw (e, handle_order_type) refl)
]

-- One request hands on the next ID as that of a new order, or none.
Next : ℕ → ℕ → List Action → Type 0
Next g h jobs =
    (h ≤ g + 1)
    × ((jobs' : List Action) → Ascending h (ids_of jobs') → Ascending g (ids_of (jobs ++ jobs')))

one_id :
    (now : ℕ) (r : Request) (c : Connection) (sh : Shared)
    → sh.orderid_generator + 1 < 2 ^ 64
    → Next sh.orderid_generator
        (process_entry now r c sh).1.orderid_generator
        (process_entry now r c sh).2
unfolding process_entry Next
one_id now (new_entry e) c sh b =
    let id = (sh.orderid_generator + 1) % 2 ^ 64 in
    let e' = with_id id e in
    let next : id ≡ sh.orderid_generator + 1 = omega arith in
    elim (handled e'.common (new_order_ack now e') (add_of c.self e') c) [
      | inl (own, h) ↦ rw h (omega arith, λ jobs' a. (omega arith, a))
      | inr (forged, h) ↦
          rw h (omega arith, λ jobs' a. Ascending-from _ _ (ids_of jobs') (omega arith) a)
    ]
one_id now (modify_entry e) c sh b =
    elim (handled e.common (modify_order_ack now e) (modify_of c.self e) c) [
      | inl (own, h) ↦ rw h (omega arith, λ jobs' a. a)
      | inr (forged, h) ↦ rw h (omega arith, λ jobs' a. a)
    ]
one_id now (cancel_entry common) c sh b =
    elim (handled common (cancel_order_ack now common) (cancel_of c.self common) c) [
      | inl (own, h) ↦ rw h (omega arith, λ jobs' a. a)
      | inr (forged, h) ↦ rw h (omega arith, λ jobs' a. a)
    ]
one_id now not_set c sh b = (omega arith, λ jobs' a. a)

-- The order IDs that a stream of requests gives to new orders rise from the server's last one, so
-- that no two are the same, until the counter of 64 bits is used up.
pub process_all-Ascending :
    (now : ℕ) (rs : List Request) (c : Connection) (sh : Shared)
    → sh.orderid_generator + length rs < 2 ^ 64
    → Ascending sh.orderid_generator (ids_of (process_all now rs c sh).2)
unfolding process_all Next
process_all-Ascending now [] c sh b = tt
process_all-Ascending now (r ∷ rs) c sh b =
    let (c', sh', jobs) = process_entry now r c sh in
    let (next, rises) = one_id now r c sh (omega arith) in
    rises (process_all now rs c' sh').2 (process_all-Ascending now rs c' sh' (omega arith))

-- The acknowledgement and the job that belong to a request, field by field; `id` is the ID of a new
-- order.
abbrev pub Answers : ℕ → ℕ → Conn → Request → Response → Action → Type 0
Answers now id conn (new_entry e) ack job =
    (ack
      ≡ new_order_ack now (record {
        is_buy_side = e.is_buy_side;
        price = e.price;
        quantity = e.quantity;
        common = record { order_id = id; user_id = e.common.user_id; ticker = e.common.ticker };
      }))
    × (job
        ≡ add_job (record {
          connection = conn;
          price = e.price;
          order_id = id;
          user_id = e.common.user_id;
          ticker = e.common.ticker;
          initial_quantity = e.quantity;
          current_quantity = e.quantity;
          is_buy_side = e.is_buy_side;
        }))
Answers now id conn (modify_entry e) ack job =
    (ack ≡ modify_order_ack now e)
    × (job
        ≡ modify_job (record {
          common = e.common;
          price = e.price;
          connection = conn;
          quantity = e.quantity;
          is_buy_side = e.is_buy_side;
        }))
Answers now id conn (cancel_entry common) ack job =
    (ack ≡ cancel_order_ack now common)
    × (job ≡ cancel_job (record { common = common; connection = conn }))
Answers now id conn not_set ack job = ⊥

-- A request in another user's name is refused: no job is handed on, a rejection with the request's
-- user and ticker goes through the queue, and the connection counts as cancelled. In the connection's
-- own name it is acknowledged, with the time and all its fields, and its one job is handed on, with
-- all its fields and this connection; a new order has the number after the server's last order ID as
-- its own, in both.
pub process_entry-owner :
    (now : ℕ) (r : Request) (common : OrderCommon) (c : Connection) (sh : Shared)
    → common_of r ≡ some common
    → ((common.user_id ≢ c.user_id)
        × (common' : OrderCommon) × (common'.user_id ≡ common.user_id)
        × (common'.ticker ≡ common.ticker)
        × ((process_entry now r c sh).0 ≡ refused common' c)
        × ((process_entry now r c sh).2 ≡ []))
      ⊎ ((common.user_id ≡ c.user_id)
          × (ack : Response) × (job : Action) × ((process_entry now r c sh).0
              ≡ write_to_client ack c)
          × ((process_entry now r c sh).2 ≡ job ∷ [])
          × Answers now ((sh.orderid_generator + 1) % 2 ^ 64) c.self r ack job)
unfolding process_entry
process_entry-owner now (new_entry e) common c sh same =
    let id = (sh.orderid_generator + 1) % 2 ^ 64 in
    let e' = with_id id e in
    let user : common.user_id ≡ e'.common.user_id = ground (arith, same) in
    elim (handled e'.common (new_order_ack now e') (add_of c.self e') c) [
      | inl (own, h) ↦
          inr
            (user ∙ own, new_order_ack now e', add_of c.self e', rw h refl, rw h refl, (refl, refl))
      | inr (forged, h) ↦ inl (
        λ eq. forged (sym user ∙ eq),
        e'.common,
        sym user,
        ground (arith, same),
        rw h refl,
        rw h refl,
      )
    ]
process_entry-owner now (modify_entry e) common c sh same =
    let user : common.user_id ≡ e.common.user_id = ground (arith, same) in
    elim (handled e.common (modify_order_ack now e) (modify_of c.self e) c) [
      | inl (own, h) ↦ inr (
        user ∙ own,
        modify_order_ack now e,
        modify_of c.self e,
        rw h refl,
        rw h refl,
        (refl, refl),
      )
      | inr (forged, h) ↦ inl (
        λ eq. forged (sym user ∙ eq),
        e.common,
        sym user,
        ground (arith, same),
        rw h refl,
        rw h refl,
      )
    ]
process_entry-owner now (cancel_entry order) common c sh same =
    let user : common.user_id ≡ order.user_id = ground (arith, same) in
    elim (handled order (cancel_order_ack now order) (cancel_of c.self order) c) [
      | inl (own, h) ↦ inr (
        user ∙ own,
        cancel_order_ack now order,
        cancel_of c.self order,
        rw h refl,
        rw h refl,
        (refl, refl),
      )
      | inr (forged, h) ↦ inl (
        λ eq. forged (sym user ∙ eq),
        order,
        sym user,
        ground (arith, same),
        rw h refl,
        rw h refl,
      )
    ]
process_entry-owner now not_set common c sh same = cc
