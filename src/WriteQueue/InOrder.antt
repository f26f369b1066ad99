-- ===== src/WriteQueue/InOrder.antt =====
-- Messages reach the stream once and in the order of their submission.
use mathlib.Core.List.{append_assoc, append-nil}
use spot_exchange.Prelude.{
  ◌≡◌, refl, sym, subst, Bool, true, false, List, [], ◌∷◌, ◌++◌, arith, ◌⊎◌, inl, inr,
}
use spot_exchange.Prelude.Run.{ok}
use spot_exchange.WriteQueue.{Writer, idle, push, written}

-- The states that submissions and successful writes reach, with what has been submitted.
pub data Reached {ℓ} {A : Type ℓ} : List A → Writer A → Type ℓ where
  at_start : Reached [] idle
  submitted :
      {xs : List A} {w : Writer A} (a : A) → Reached xs w → Reached (xs ++ a ∷ []) (push a w)
  completed :
      {xs : List A} {w w' : Writer A}
      → Reached xs w
      → w.write_in_progress ≡ true
      → written true w ≡ ok w'
      → Reached xs w'

module _ {ℓ} {A : Type ℓ} where
  abbrev first_of : List A → List A
  first_of [] = []
  first_of (x ∷ xs) = x ∷ []

  abbrev busy : List A → Bool
  busy [] = false
  busy (x ∷ xs) = true

  -- What has been written and answered, and what is in the queue.
  record Queued (xs : List A) (w : Writer A) : Type ℓ where
    pub done : List A
    pub all : xs ≡ done ++ w.queue
    pub sent : w.stream ≡ done ++ first_of w.queue
    pub flag : w.write_in_progress ≡ busy w.queue

  push_at :
      (xs done queue stream : List A) (a : A)
      → xs ≡ done ++ queue
      → stream ≡ done ++ first_of queue
      → Queued
          (xs ++ a ∷ [])
          (push a (record { queue = queue; write_in_progress = busy queue; stream = stream }))
  unfolding push
  push_at xs done [] stream a e f = record {
    done = done;
    all = rw (e, append-nil) refl;
    sent = rw (f, append-nil) refl;
    flag = refl;
  }
  push_at xs done (x ∷ queue) stream a e f = record {
    done = done;
    all = rw (e, append_assoc) refl;
    sent = f;
    flag = refl;
  }

  push-Queued :
      (xs : List A) (a : A) (w : Writer A) → Queued xs w → Queued (xs ++ a ∷ []) (push a w)
  push-Queued xs a w q =
      subst (λ b. Queued (xs ++ a ∷ []) (push a (record w { write_in_progress = b }))) (sym q.flag)
        (push_at xs q.done w.queue w.stream a q.all q.sent)

  written_at :
      (xs done queue stream : List A) (flag : Bool) (w' : Writer A)
      → xs ≡ done ++ queue
      → stream ≡ done ++ first_of queue
      → flag ≡ busy queue
      → written true (record { queue = queue; write_in_progress = flag; stream = stream }) ≡ ok w'
      → Queued xs w'
  unfolding written
  written_at xs done [] stream flag w' e f g h = cc
  written_at xs done (x ∷ []) stream flag w' e f g h =
      let same : record { queue = []; write_in_progress = false; stream = stream } ≡ w' =
        ground (arith, h) in
      subst (Queued xs) same (record {
        done = done ++ x ∷ [];
        all = rw (e, append-nil) refl;
        sent = rw (f, append-nil) refl;
        flag = refl;
      })
  written_at xs done (x ∷ y ∷ queue) stream flag w' e f g h =
      let same : record { queue = y ∷ queue; write_in_progress = flag; stream = stream ++ y ∷ [] }
          ≡ w' =
        ground (arith, h) in
      subst (Queued xs) same (record {
        done = done ++ x ∷ [];
        all = rw (e, append_assoc) refl;
        sent = rw f refl;
        flag = g;
      })

  Reached-Queued : {xs : List A} {w : Writer A} → Reached xs w → Queued xs w
  Reached-Queued at_start = record { done = []; all = refl; sent = refl; flag = refl }
  Reached-Queued (submitted {xs} {w} a r) = push-Queued xs a w (Reached-Queued r)
  Reached-Queued (completed {xs} {w} {w'} r busy e) =
      let q = Reached-Queued r in
      written_at xs q.done w.queue w.stream w.write_in_progress w' q.all q.sent q.flag e

  in_order_at :
      (xs done queue stream : List A) (flag : Bool)
      → xs ≡ done ++ queue
      → stream ≡ done ++ first_of queue
      → flag ≡ busy queue
      → (rest : List A) × (xs ≡ stream ++ rest) × ((rest ≡ []) ⊎ (flag ≡ true))
  in_order_at xs done [] stream flag e f g = ([], rw (e, f, append-nil, append-nil) refl, inl refl)
  in_order_at xs done (x ∷ queue) stream flag e f g = (queue, rw (e, f, append_assoc) refl, inr g)

  answered :
      (queue stream : List A) (flag : Bool)
      → flag ≡ busy queue
      → (flag ≡ false)
        ⊎ ((w' : Writer A) × (written true
                (record { queue = queue; write_in_progress = flag; stream = stream })
              ≡ ok w'))
  unfolding written
  answered [] stream flag b = inl b
  answered (x ∷ []) stream flag b = inr (_, refl)
  answered (x ∷ y ∷ queue) stream flag b = inr (_, refl)

  -- While the writes succeed, what is on the stream is a beginning of what has been submitted, in the
  -- same order and each message once; it is all of it when no write is in progress; and a write that
  -- is under way has its message in the queue, so that its callback does not fault.
  pub stream-in_order :
      {xs : List A} {w : Writer A}
      → Reached xs w
      → ((rest : List A) × (xs ≡ w.stream ++ rest) × ((rest ≡ []) ⊎ (w.write_in_progress ≡ true)))
        × ((w.write_in_progress ≡ false) ⊎ ((w' : Writer A) × (written true w ≡ ok w')))
  stream-in_order {xs} {w} r =
      let q = Reached-Queued r in
      (
        in_order_at xs q.done w.queue w.stream w.write_in_progress q.all q.sent q.flag,
        answered w.queue w.stream w.write_in_progress q.flag,
      )
