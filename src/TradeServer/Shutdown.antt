-- ===== src/TradeServer/Shutdown.antt =====
-- `shutdownServer`: what it needs of the connected clients.
use spot_exchange.Prelude.{
  ℕ, ◌≡◌, refl, ◌∙◌, Bool, true, false, ◌&&◌, not, none, some, [], ◌∷◌, arith, ◌==◌, if◌then◌else◌,
  Map, find, assign, find-assign, Option-cases, Bool-cases, inl, inr,
}
use spot_exchange.Prelude.Run.{ok, fault}
use spot_exchange.Info.{Conn}
use spot_exchange.Connection.{Connection, on_stream_cancelled}
use spot_exchange.TradeServer.{Server, connection_at, store, shutdown_streams, shutdown_server}

-- The connection is there and has an operation outstanding.
abbrev pub busy : Map Connection → Conn → Bool
busy conns k = elim (find k conns) [ none ↦ false | some c ↦ c.alive && not (c.async_ops == 0) ]

abbrev pub all_busy : Map Connection → Map Conn → Bool
all_busy conns [] = true
all_busy conns ((user, k) ∷ streams) = busy conns k && all_busy conns streams

abbrev pub with_flag : Connection → Connection
with_flag c = record c { stream_cancelled = true }

-- The connection has been told that its stream is cancelled.
abbrev pub told : Map Connection → Conn → Map Connection
told conns k = elim (find k conns) [ none ↦ conns | some c ↦ assign k (with_flag c) conns ]

abbrev pub all_told : Map Connection → Map Conn → Map Connection
all_told conns [] = conns
all_told conns ((user, k) ∷ streams) = all_told (told conns k) streams

busy-told : (conns : Map Connection) (k j : Conn) → busy (told conns k) j ≡ busy conns j
busy-told conns k j = elim (Option-cases (find k conns)) [
  | inl e ↦ ground (arith, e)
  | inr (c, e) ↦ ground (arith, e, find-assign k j (with_flag c) conns)
]

all_busy-told :
    (conns : Map Connection) (k : Conn) (streams : Map Conn)
    → all_busy (told conns k) streams ≡ all_busy conns streams
all_busy-told conns k [] = refl
all_busy-told conns k ((user, j) ∷ streams) =
    rw (busy-told conns k j, all_busy-told conns k streams) refl

-- The loop stops at the first connection that is not busy.
streams-told :
    (user : ℕ) (k : Conn) (rest : Map Conn) (s : Server)
    → shutdown_streams ((user, k) ∷ rest) s ≡ (
        if busy s.connections k
        then shutdown_streams rest (record s { connections = told s.connections k })
        else fault)
unfolding shutdown_streams connection_at store on_stream_cancelled
streams-told user k rest s = elim (Option-cases (find k s.connections)) [
  | inl e ↦ ground (arith, e)
  | inr (c, e) ↦ elim (Bool-cases c.alive) [
    | inl y ↦ elim (Bool-cases (c.async_ops == 0)) [
      | inl z ↦ ground (arith, e, y, z)
      | inr z ↦ ground (arith, e, y, z)
    ]
    | inr n ↦ ground (arith, e, n)
  ]
]

streams-all_told :
    (streams : Map Conn) (s : Server)
    → shutdown_streams streams s ≡ (
        if all_busy s.connections streams
        then ok (record s { connections = all_told s.connections streams })
        else fault)
unfolding shutdown_streams
streams-all_told [] s = refl
streams-all_told ((user, k) ∷ rest) s =
    let next = streams-all_told rest (record s { connections = told s.connections k }) in
    let kept = all_busy-told s.connections k rest in
    elim (Bool-cases (busy s.connections k)) [
      | inl y ↦ streams-told user k rest s ∙ rw (y, next, kept) refl
      | inr n ↦ streams-told user k rest s ∙ rw n refl
    ]

-- The shutdown tells every connected client's connection that its stream is cancelled, provided that
-- each of them has an operation outstanding; otherwise it meets one that deletes itself, and the loop
-- goes on from the entry that was erased.
pub shutdown_server-busy :
    (s : Server)
    → shutdown_server s ≡ (
        if all_busy s.connections s.shared.client_streams
        then ok (record s { connections = all_told s.connections s.shared.client_streams })
        else fault)
unfolding shutdown_server
shutdown_server-busy s = streams-all_told s.shared.client_streams s
