-- ===== src/Connection/Tests.antt =====
-- A connection of user 2 with one read outstanding and one write under way.
use spot_exchange.Prelude.{suc, ◌+◌, ◌≡◌, ◌≢◌, refl, true, false, List, [], ◌∷◌, arith, ◌⊎◌}
use spot_exchange.Prelude.Run.{ok, fault}
use spot_exchange.Info.{OrderCommon}
use spot_exchange.Messages.{order_not_found}
use spot_exchange.WriteQueue.{Writer, written}
use spot_exchange.Connection.{
  Connection, Shared, Request, new_entry, cancel_entry, Entry, Response, rejection, Action,
  process_entry, write_to_client, send_rejection_response, send_response_from_queue,
}
use spot_exchange.Connection.Entries.{
  Ascending, ids_of, process_all, process_all-Ascending, refused, Answers, process_entry-owner,
}
use spot_exchange.Connection.Count.{
  writes, Counted, send_rejection-Counted, send_response-Counted, send_response-after_free,
}

abbrev common : OrderCommon
common = record { order_id = 0; user_id = 2; ticker = 3 }

abbrev answer : Response
answer = rejection order_not_found common

abbrev conn : Connection
conn = record {
  self = 1;
  user_id = 2;
  async_ops = 2;
  stream_cancelled = false;
  alive = true;
  writer = record { queue = answer ∷ []; write_in_progress = true; stream = answer ∷ [] };
}

abbrev shared : Shared
shared = record { client_streams = (2, 1) ∷ []; orderid_generator = 1 }

abbrev buy : Entry
buy = record { is_buy_side = 1; price = 100; quantity = 5; common = common }

abbrev requests : List Request
requests = new_entry buy ∷ cancel_entry (record common { order_id = 2 }) ∷ new_entry buy ∷ []

two_ids : ids_of (process_all 9 requests conn shared).2 ≡ 2 ∷ 3 ∷ []
unfolding process_all
two_ids = refl

process_all-Ascending_example : Ascending 1 (ids_of (process_all 9 requests conn shared).2)
process_all-Ascending_example = process_all-Ascending 9 requests conn shared (omega arith)

process_entry-owner_example :
    ((common.user_id ≢ conn.user_id)
      × (common' : OrderCommon) × (common'.user_id ≡ common.user_id)
      × (common'.ticker ≡ common.ticker)
      × ((process_entry 9 (new_entry buy) conn shared).0 ≡ refused common' conn)
      × ((process_entry 9 (new_entry buy) conn shared).2 ≡ []))
    ⊎ ((common.user_id ≡ conn.user_id)
        × (ack : Response) × (job : Action) × ((process_entry 9 (new_entry buy) conn shared).0
            ≡ write_to_client ack conn)
        × ((process_entry 9 (new_entry buy) conn shared).2 ≡ job ∷ [])
        × Answers 9 2 1 (new_entry buy) ack job)
process_entry-owner_example = process_entry-owner 9 (new_entry buy) common conn shared refl

send_rejection-Counted_example :
    (send_rejection_response order_not_found common conn).async_ops
    ≡ suc 0
      + 1
      + writes (send_rejection_response order_not_found common conn).writer.write_in_progress
send_rejection-Counted_example =
    send_rejection-Counted 0 1 (omega arith) order_not_found common conn refl

-- The same connection after that, cancelled.
abbrev leaking : Connection
leaking = record conn { async_ops = 3; stream_cancelled = true }

abbrev quiet : Writer Response
quiet = record { queue = []; write_in_progress = false; stream = answer ∷ [] }

one_written : written true conn.writer ≡ ok quiet
unfolding written
one_written = refl

send_response-Counted_example :
    (c' : Connection) × (send_response_from_queue true leaking shared ≡ ok (c', shared))
    × (c'.alive ≡ true)
    × Counted 1 1 c'
send_response-Counted_example =
    send_response-Counted 1 1 (omega arith) true leaking shared quiet (omega arith) refl refl refl
      one_written

send_response-after_free_example :
    send_response_from_queue true (record conn { async_ops = 1; stream_cancelled = true }) shared
    ≡ fault
send_response-after_free_example =
    send_response-after_free true (record conn { async_ops = 1; stream_cancelled = true }) shared
      refl refl
