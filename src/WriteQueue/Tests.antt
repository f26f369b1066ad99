-- ===== src/WriteQueue/Tests.antt =====
-- A queue with one message on the stream and one behind it.
use spot_exchange.Prelude.{ℕ, ◌≡◌, true, false, List, [], ◌∷◌, ◌++◌, ◌⊎◌}
use spot_exchange.Prelude.Run.{ok}
use spot_exchange.WriteQueue.{Writer, idle, push, written}
use spot_exchange.WriteQueue.InOrder.{Reached, at_start, submitted, stream-in_order}

two : Writer ℕ
two = push 5 (push 4 idle)

two-Reached : Reached (4 ∷ 5 ∷ []) two
unfolding two
two-Reached = submitted 5 (submitted 4 at_start)

stream-in_order_example :
    ((rest : List ℕ) × (4 ∷ 5 ∷ [] ≡ two.stream ++ rest)
      × ((rest ≡ []) ⊎ (two.write_in_progress ≡ true)))
    × ((two.write_in_progress ≡ false) ⊎ ((w' : Writer ℕ) × (written true two ≡ ok w')))
stream-in_order_example = stream-in_order two-Reached
