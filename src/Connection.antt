-- ===== src/Connection.antt =====
-- include/server/rpc/orderentrystreamconnection.hpp and
-- src/server/rpc/orderentrystreamconnection.cpp: `OrderEntryStreamConnection`.
--
-- A callback takes the state of the connection and what the connections share, and returns them with
-- what it asks for: reads of the stream, jobs of the order book manager, a new connection. The object
-- deletes itself when it has no operation outstanding; an access after that is a `fault`. The mutex
-- of the queue and the atomic counters make each call one step. `now` is what `getUnixTimestamp`
-- returns.
pub mod Count
pub mod Entries
pub mod Tests
use spot_exchange.Prelude.{
  ℕ, ◌+◌, ◌-◌, ◌%◌, ◌^◌, Bool, true, false, Option, none, some, List, [], ◌∷◌, ◌++◌, ◌==◌,
  if◌then◌else◌, not, ◌&&◌, Map, find, erase, emplace,
}
use spot_exchange.Prelude.Run.{Run, ok, fault, ◌>>=◌}
use spot_exchange.Info.{Conn, OrderCommon, Order, ModifyOrder, CancelOrder, new_order}
use spot_exchange.Messages.{Rejection, wrong_user_id, OrderEntryFill}
use spot_exchange.WriteQueue.{Writer, push, written}

-- `NewOrder` and `ModifyOrder` of orderentry.proto have the same fields.
pub record Entry : Type 0 where
  pub is_buy_side : ℕ
  pub price : ℕ
  pub quantity : ℕ
  pub common : OrderCommon

-- `OrderEntryRequest`.
pub data Request : Type 0 where
  new_entry modify_entry : Entry → Request
  cancel_entry : OrderCommon → Request
  not_set : Request

-- `OrderEntryResponse`.
pub data Response : Type 0 where
  new_order_ack modify_order_ack : ℕ → Entry → Response
  cancel_order_ack : ℕ → OrderCommon → Response
  fill_response : OrderEntryFill → Response
  rejection : Rejection → OrderCommon → Response

pub data Action : Type 0 where
  read_first read_next create_new_conn : Action
  add_job : Order → Action
  modify_job : ModifyOrder → Action
  cancel_job : CancelOrder → Action

pub record Connection : Type 0 where
  pub self : Conn
  pub user_id : ℕ
  pub async_ops : ℕ
  pub stream_cancelled : Bool
  pub alive : Bool
  pub writer : Writer Response

-- `client_streams_` and `orderid_generator_`.
pub record Shared : Type 0 where
  pub client_streams : Map Conn
  pub orderid_generator : ℕ

abbrev pub Step : Type 0
Step = Run (Connection × Shared × List Action)

-- `asyncOpStarted`, on a `uint64_t`.
abbrev pub async_op_started : Connection → Connection
async_op_started c = record c { async_ops = (c.async_ops + 1) % 2 ^ 64 }

-- `terminateConnection`: `delete this`.
abbrev pub terminate_connection : Connection → Shared → Connection × Shared
terminate_connection c sh =
    (record c { alive = false }, record sh { client_streams = erase c.user_id sh.client_streams })

-- `asyncOpFinished`.
unfoldable pub async_op_finished : Connection → Shared → Connection × Shared
async_op_finished c sh =
    let c' : Connection = record c { async_ops = (c.async_ops + (2 ^ 64 - 1)) % 2 ^ 64 } in
    if c.stream_cancelled && c'.async_ops == 0 then terminate_connection c' sh else (c', sh)

-- `onStreamCancelled`.
unfoldable pub on_stream_cancelled : Connection → Shared → Connection × Shared
on_stream_cancelled c sh =
    let c' : Connection = record c { stream_cancelled = true } in
    if c.async_ops == 0 then terminate_connection c' sh else (c', sh)

-- An access to a member.
abbrev pub member : Connection → Run Connection
member c = if c.alive then ok c else fault

-- `writeToClient`.
unfoldable pub write_to_client : Response → Connection → Connection
unfolding push
write_to_client response c =
    let c' : Connection = record c { writer = push response c.writer } in
    if c.writer.write_in_progress then c' else async_op_started c'

-- `sendResponseFromQueue`, the callback of a write.
unfoldable pub send_response_from_queue : Bool → Connection → Shared → Run (Connection × Shared)
unfolding async_op_finished written
send_response_from_queue success c sh = do
  let (c₁, sh') = async_op_finished c sh
  c₂ ← member c₁
  w ← written success c₂.writer
  let c₃ : Connection = record c₂ { writer = w }
  ok (if w.write_in_progress then async_op_started c₃ else c₃, sh')

-- `sendRejection`.
unfoldable pub send_rejection_response : Rejection → OrderCommon → Connection → Connection
unfolding write_to_client
send_rejection_response reason common c =
    write_to_client (rejection reason common) (async_op_started c)

-- `userIDUsageRejection`: `true` when the request names another user.
unfoldable pub user_id_usage_rejection : OrderCommon → Connection → Bool × Connection
unfolding write_to_client
user_id_usage_rejection common c =
    if not (common.user_id == c.user_id)
    then (
      true,
      write_to_client (rejection wrong_user_id common) (record c { stream_cancelled = true }),
    )
    else (false, c)

-- `handleOrderType`: the acknowledgement (`acknowledgeEntry`) and the job (`processOrderEntry`).
unfoldable pub handle_order_type :
    OrderCommon → Response → Action → Connection → Connection × List Action
unfolding user_id_usage_rejection write_to_client
handle_order_type common ack job c =
    let (refused, c') = user_id_usage_rejection common c in
    if refused then (c', []) else (write_to_client ack c', job ∷ [])

abbrev pub with_id : ℕ → Entry → Entry
with_id id e = record e { common = record e.common { order_id = id } }

abbrev pub add_of : Conn → Entry → Action
add_of conn e = add_job (new_order e.is_buy_side conn e.price e.quantity e.common)

abbrev pub modify_of : Conn → Entry → Action
modify_of conn e = modify_job (record {
  common = e.common;
  price = e.price;
  connection = conn;
  quantity = e.quantity;
  is_buy_side = e.is_buy_side;
})

abbrev pub cancel_of : Conn → OrderCommon → Action
cancel_of conn common = cancel_job (record { common = common; connection = conn })

-- `processEntry`: a new order gets the next order ID of the server.
unfoldable pub process_entry : ℕ → Request → Connection → Shared → Connection × Shared × List Action
unfolding handle_order_type
process_entry now (new_entry e) c sh =
    let id = (sh.orderid_generator + 1) % 2 ^ 64 in
    let e' = with_id id e in
    let (c', jobs) = handle_order_type e'.common (new_order_ack now e') (add_of c.self e') c in
    (c', record sh { orderid_generator = id }, jobs)
process_entry now (modify_entry e) c sh =
    let (c', jobs) = handle_order_type e.common (modify_order_ack now e) (modify_of c.self e) c in
    (c', sh, jobs)
process_entry now (cancel_entry common) c sh =
    let (c', jobs) =
      handle_order_type common (cancel_order_ack now common) (cancel_of c.self common) c in
    (c', sh, jobs)
process_entry now not_set c sh = (c, sh, [])

-- `readOrderEntryCallback`.
unfoldable pub read_order_entry_callback : ℕ → Bool → Request → Connection → Shared → Step
unfolding async_op_finished process_entry
read_order_entry_callback now success request c sh = do
  let (c₁, sh₁) = async_op_finished c sh
  if success
      then (do
        c₂ ← member c₁
        let (c₃, sh₂, jobs) = process_entry now request c₂ sh₁
        ok (async_op_started c₃, sh₂, jobs ++ read_next ∷ []))
      else ok (c₁, sh₁, [])

-- `initialiseOEConn`.
unfoldable pub initialise_oe_conn : Bool → Connection → Shared → Step
unfolding async_op_finished
initialise_oe_conn success c sh = do
  let (c₁, sh₁) = async_op_finished c sh
  if success
      then (do c₂ ← member c₁; ok (async_op_started c₂, sh₁, create_new_conn ∷ read_first ∷ []))
      else ok (c₁, sh₁, create_new_conn ∷ [])

-- The `order_common` that `verifyID` takes from the request.
abbrev pub common_of : Request → Option OrderCommon
common_of (new_entry e) = some e.common
common_of (modify_entry e) = some e.common
common_of (cancel_entry common) = some common
common_of not_set = none

-- `verifyID`: without an order the pointer `common` is not initialised.
unfoldable pub verify_id : ℕ → Bool → Request → Connection → Shared → Step
unfolding async_op_finished write_to_client read_order_entry_callback emplace
verify_id now success request c sh = elim (common_of request) [
  | none ↦ fault
  | some common ↦ elim (find common.user_id sh.client_streams) [
    | some other ↦ do
      let (c₁, sh₁) = async_op_finished c sh
      c₂ ← member c₁
      let refused = rejection wrong_user_id common
      ok (write_to_client refused (record c₂ { stream_cancelled = true }), sh₁, [])
    | none ↦
        let (streams, fresh) = emplace common.user_id c.self sh.client_streams in
        read_order_entry_callback now success request (record c { user_id = common.user_id })
          (record sh { client_streams = streams })
  ]
]
