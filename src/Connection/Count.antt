-- ===== src/Connection/Count.antt =====
-- The count of outstanding operations, and when the connection deletes itself.
use spot_exchange.Prelude.{
  ℕ, suc, ◌+◌, ◌-◌, ◌%◌, ◌^◌, ◌<◌, ◌≡◌, refl, ap, ◌∙◌, Bool, true, false, arith, ◌==◌, ◌&&◌,
  if◌then◌else◌, Bool-cases, inl, inr,
}
use spot_exchange.Prelude.Run.{ok, fault}
use spot_exchange.Info.{OrderCommon}
use spot_exchange.Messages.{Rejection}
use spot_exchange.WriteQueue.{Writer, push, written}
use spot_exchange.Connection.{
  Connection, Shared, Response, async_op_started, async_op_finished, write_to_client,
  send_rejection_response, send_response_from_queue,
}

abbrev pub writes : Bool → ℕ
writes true = 1
writes false = 0

-- The count is what is outstanding, `reads` reads and perhaps a write, and `extra` beyond that.
abbrev pub Counted : ℕ → ℕ → Connection → Type 0
Counted extra reads c = c.async_ops ≡ extra + reads + writes c.writer.write_in_progress

abbrev pub Room : ℕ → ℕ → Type 0
Room extra reads = extra + reads + 2 < 2 ^ 64

&&-false : (b : Bool) → (b && false) ≡ false
&&-false true = refl
&&-false false = refl

module _ (extra reads : ℕ) (room : Room extra reads) where
  pub write_to_client-Counted :
      (response : Response) (c : Connection)
      → Counted extra reads c
      → Counted extra reads (write_to_client response c)
  unfolding write_to_client push
  write_to_client-Counted response c n = elim (Bool-cases c.writer.write_in_progress) [
    | inl busy ↦ let n' = n ∙ ap (λ w. extra + reads + writes w) busy in rw busy (omega (arith, n'))
    | inr free ↦ let n' = n ∙ ap (λ w. extra + reads + writes w) free in rw free (omega (arith, n'))
  ]

  restarted : Connection → Connection
  restarted c = if c.writer.write_in_progress then async_op_started c else c

  restarted-Counted :
      (c : Connection)
      → c.async_ops ≡ extra + reads
      → Counted extra reads (restarted c) × ((restarted c).alive ≡ c.alive)
  unfolding restarted
  restarted-Counted c n = elim (Bool-cases c.writer.write_in_progress) [
    | inl busy ↦ rw busy (omega (arith, n), refl)
    | inr free ↦ rw free (omega (arith, n), refl)
  ]

  -- `sendRejection` counts an operation of its own beside the write: one more than will ever finish.
  pub send_rejection-Counted :
      (reason : Rejection) (common : OrderCommon) (c : Connection)
      → Counted extra reads c
      → (send_rejection_response reason common c).async_ops
        ≡ suc extra
          + reads
          + writes (send_rejection_response reason common c).writer.write_in_progress
  unfolding send_rejection_response write_to_client push
  send_rejection-Counted reason common c n = elim (Bool-cases c.writer.write_in_progress) [
    | inl busy ↦ let n' = n ∙ ap (λ w. extra + reads + writes w) busy in rw busy (omega (arith, n'))
    | inr free ↦ let n' = n ∙ ap (λ w. extra + reads + writes w) free in rw free (omega (arith, n'))
  ]

  -- With a count above what is outstanding, the answer to a write never deletes the connection: it
  -- stays in `client_streams_`, so its user ID stays taken, also when the stream has been cancelled.
  pub send_response-Counted :
      (success : Bool) (c : Connection) (sh : Shared) (w : Writer Response)
      → 0 < extra
      → c.alive ≡ true
      → c.writer.write_in_progress ≡ true
      → Counted extra reads c
      → written success c.writer ≡ ok w
      → (c' : Connection) × (send_response_from_queue success c sh ≡ ok (c', sh))
        × (c'.alive ≡ true)
        × Counted extra reads c'
  unfolding send_response_from_queue async_op_finished restarted
  send_response-Counted success c sh w pos live busy n e =
      let x = (c.async_ops + (2 ^ 64 - 1)) % 2 ^ 64 in
      let n' = n ∙ ap (λ w. extra + reads + writes w) busy in
      let left : x ≡ extra + reads = omega (arith, n') in
      let more : (x == 0) ≡ false = rw left (ground arith) in
      let stays : (c.stream_cancelled && x == 0) ≡ false = rw more (&&-false c.stream_cancelled) in
      let c₃ : Connection = record c { async_ops = x; writer = w } in
      (
        restarted c₃,
        rw (stays, live, e) refl,
        (restarted-Counted c₃ left).1 ∙ live,
        (restarted-Counted c₃ left).0,
      )

-- A write that is answered after the cancellation of the stream and is the last operation: the
-- connection deletes itself in `asyncOpFinished`, and the queue is used after that.
pub send_response-after_free :
    (success : Bool) (c : Connection) (sh : Shared)
    → c.stream_cancelled ≡ true
    → c.async_ops ≡ 1
    → send_response_from_queue success c sh ≡ fault
unfolding send_response_from_queue async_op_finished
send_response-after_free success c sh gone last =
    let none_left : ((c.async_ops + (2 ^ 64 - 1)) % 2 ^ 64 == 0) ≡ true = rw last (ground arith) in
    rw (gone, none_left) refl
