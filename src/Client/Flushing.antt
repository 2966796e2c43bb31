-- ===== src/Client/Flushing.antt =====
-- client/src/hooks/useOfflineQueue.ts: what a flush leaves in the queue.
use mathlib.Core.List.{append_assoc, append-nil}
use messenger_web_app.Prelude.{
  ◌+◌, ◌≡◌, refl, Bool, true, false, none, some, List, [], ◌∷◌, ◌++◌, arith, length,
}
use messenger_web_app.Client.OfflineQueue.{
  QueuedMessage, OfflineQueue, Event, queued, flushed, answered, went_online, went_offline, enqueue,
  flush, keep_failed, answer, step, run, answers, unsent,
}

-- While a flush runs: `to_flush` has no answer yet, and `failed` is what could not be sent.
abbrev in_flight :
    List QueuedMessage → Bool → List QueuedMessage → List QueuedMessage → OfflineQueue
in_flight queue online rest failed = record {
  queue = queue;
  is_online = online;
  flushing = true;
  flight = some (record { to_flush = rest; failed = failed });
}

abbrev pub idle : List QueuedMessage → Bool → OfflineQueue
idle queue online = record { queue = queue; is_online = online; flushing = false; flight = none }

-- The events up to the last answer of a flush.
run_flight :
    (es : List Event) (last : Bool) (queue : List QueuedMessage) (online : Bool)
    (rest failed : List QueuedMessage)
    → length (answers es) + 1 ≡ length rest
    → (online' : Bool) × (run (es ++ answered last ∷ []) (in_flight queue online rest failed)
        ≡ idle (failed ++ unsent rest (answers es ++ last ∷ [])) online')
unfolding run answers unsent step enqueue flush answer
run_flight [] last queue online [] failed h = absurd (omega arith)
run_flight [] last queue online (x ∷ []) failed h =
    (online, rw (append-nil (keep_failed last x)) refl)
run_flight [] last queue online (x ∷ y ∷ rest) failed h = absurd (omega arith)
run_flight (queued msg ∷ es) last queue online rest failed h =
    run_flight es last (queue ++ msg ∷ []) online rest failed h
run_flight (flushed ∷ es) last queue online rest failed h =
    run_flight es last queue online rest failed h
run_flight (went_online ∷ es) last queue online rest failed h =
    run_flight es last queue true rest failed h
run_flight (went_offline ∷ es) last queue online rest failed h =
    run_flight es last queue false rest failed h
run_flight (answered ok ∷ es) last queue online [] failed h = absurd (omega arith)
run_flight (answered ok ∷ es) last queue online (x ∷ []) failed h = absurd (omega arith)
run_flight (answered ok ∷ es) last queue online (x ∷ y ∷ rest) failed h =
    let (on, e) =
      run_flight es last queue online (y ∷ rest) (failed ++ keep_failed ok x) (omega arith) in
    (on, rw (← append_assoc failed (keep_failed ok x) _) e)

-- A flush that starts from a queue that is not empty, and whose messages have all been answered at the
-- end, leaves exactly those of that queue that could not be sent, in their order, and lets the next
-- flush run; what was queued in between is not among them.
pub flush_lem :
    (es : List Event) (last : Bool) (queue : List QueuedMessage) (online : Bool)
    → length (answers es) + 1 ≡ length queue
    → (online' : Bool) × (run (flushed ∷ es ++ answered last ∷ []) (idle queue online)
        ≡ idle (unsent queue (answers es ++ last ∷ [])) online')
unfolding run answers unsent step enqueue flush answer
flush_lem es last [] online h = absurd (omega arith)
flush_lem es last (x ∷ queue) online h = run_flight es last (x ∷ queue) online (x ∷ queue) [] h
