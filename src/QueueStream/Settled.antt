-- ===== src/QueueStream/Settled.antt =====
-- features/matchmaking/lib/queue-client.ts: how the promise of `streamQueue` settles.
use geoduels.Base.{
  ◌≡◌, refl, String, true, false, Option, none, some, List, [], ◌∷◌, arith, is_some, string_eq,
}
use geoduels.MatchSession.{QueueEvent}
use geoduels.QueueStream.{
  QueueStream, Outcome, resolved, rejected, not_json, new_stream, settle, abort, on_close, deliver,
  on_message, QueuePayload, value, StreamEvent, aborts, errs, closes, receives, step, run,
}

deliver_keeps :
    (q : QueueStream) (e : QueueEvent) (throws : Option String) (o : Outcome)
    → q.settled ≡ some o
    → (deliver q e throws).settled ≡ some o
unfolding deliver settle
deliver_keeps q e throws o h = ground arith

step_keeps :
    (q : QueueStream) (e : StreamEvent) (o : Outcome)
    → q.settled ≡ some o
    → (step q e).settled ≡ some o
unfolding step abort settle on_close on_message deliver
step_keeps q aborts o h = ground arith
step_keeps q errs o h = ground arith
step_keeps q closes o h = ground arith
step_keeps q (receives d throws) o h = ground arith

run_keeps :
    (es : List StreamEvent) (q : QueueStream) (o : Outcome)
    → q.settled ≡ some o
    → (run q es).settled ≡ some o
unfolding run
run_keeps [] q o h = h
run_keeps (e ∷ es) q o h = run_keeps es (step q e) o (step_keeps q e o h)

-- A stream that resolves was assigned a match; one whose signal was aborted has settled; one that has
-- not settled listens to its signal.
record IsSound (q : QueueStream) : Type 0 where
  pub assigned : q.settled ≡ some resolved → q.is_assigned ≡ true
  pub caught : q.is_aborted ≡ true → is_some q.settled ≡ true
  pub listens : is_some q.settled ≡ false → q.listening ≡ true

step-IsSound : (q : QueueStream) (e : StreamEvent) → IsSound q → IsSound (step q e)
unfolding step abort settle on_close on_message deliver
step-IsSound q aborts v = record {
  assigned = λ h. grind (arith, v.assigned);
  caught = λ h. grind (arith, v.caught, v.listens);
  listens = λ h. grind (arith, v.listens, v.caught);
}
step-IsSound q errs v = record {
  assigned = λ h. grind (arith, v.assigned);
  caught = λ h. grind (arith, v.caught);
  listens = λ h. grind (arith, v.listens);
}
step-IsSound q closes v = record {
  assigned = λ h. grind (arith, v.assigned, v.caught);
  caught = λ h. grind (arith, v.caught);
  listens = λ h. grind (arith, v.listens);
}
step-IsSound q (receives d throws) v = record {
  assigned = λ h. grind (arith, v.assigned);
  caught = λ h. grind (arith, v.caught);
  listens = λ h. grind (arith, v.listens);
}

run-IsSound : (es : List StreamEvent) (q : QueueStream) → IsSound q → IsSound (run q es)
unfolding run
run-IsSound [] q v = v
run-IsSound (e ∷ es) q v = run-IsSound es (step q e) (step-IsSound q e v)

new_stream-IsSound : IsSound (new_stream false)
unfolding new_stream
new_stream-IsSound = record {
  assigned = λ h. grind arith;
  caught = λ h. grind arith;
  listens = λ h. refl;
}

-- A search whose signal is not aborted at its start, after any events: an outcome stays whatever
-- comes after it, it resolves only with a match assigned, and when its signal is aborted it has
-- settled.
pub search_settles_once :
    (es more : List StreamEvent) (o : Outcome)
    → let q = run (new_stream false) es in
      (q.settled ≡ some o → (run q more).settled ≡ some o)
      × (q.settled ≡ some resolved → q.is_assigned ≡ true)
      × (q.is_aborted ≡ true → is_some q.settled ≡ true)
search_settles_once es more o =
    let v = run-IsSound es (new_stream false) new_stream-IsSound in
    (run_keeps more (run (new_stream false) es) o, v.assigned, v.caught)

-- What a server's messages are to the stream, when no call of `onEvent` throws.
abbrev pub messages : List (String × QueuePayload) → List StreamEvent
messages [] = []
messages ((name, p) ∷ ms) = receives (value name p) none ∷ messages ms

record IsDeaf (q : QueueStream) : Type 0 where
  pub unsettled : q.settled ≡ none
  pub shut : q.closes ≡ false
  pub signal : q.is_aborted ≡ true

new_stream-IsDeaf : IsDeaf (new_stream true)
unfolding new_stream
new_stream-IsDeaf = record { unsettled = refl; shut = refl; signal = refl }

abort_again : (q : QueueStream) → IsDeaf q → step q aborts ≡ q
unfolding step abort
abort_again q v = ground (arith, v.signal)

receive-IsDeaf :
    (q : QueueStream) (name : String) (p : QueuePayload)
    → IsDeaf q
    → IsDeaf (step q (receives (value name p) none))
unfolding step on_message deliver
receive-IsDeaf q name p v = record {
  unsettled = ground (arith, v.unsettled);
  shut = ground (arith, v.shut);
  signal = ground (arith, v.signal);
}

messages-IsDeaf :
    (ms : List (String × QueuePayload)) (q : QueueStream) → IsDeaf q → IsDeaf (run q (messages ms))
unfolding run
messages-IsDeaf [] q v = v
messages-IsDeaf ((name, p) ∷ ms) q v =
    messages-IsDeaf ms (step q (receives (value name p) none)) (receive-IsDeaf q name p v)

refused_lem :
    (q : QueueStream)
    → IsDeaf q
    → ((step q (receives not_json none)).settled ≡ some (rejected "Queue unavailable"))
      × ((step q (receives not_json none)).closes ≡ false)
unfolding step on_message settle
refused_lem q v = (ground (arith, v.unsettled), ground (arith, v.unsettled, v.shut))

-- A search whose signal was aborted before its start goes on: whatever messages in JSON come, with
-- no call of onEvent that throws, it neither settles nor closes its websocket, and another abort
-- changes nothing; a next message that is no JSON rejects it as unavailable, and its websocket
-- stays open.
pub aborted_search_goes_on :
    (ms : List (String × QueuePayload))
    → let q = run (new_stream true) (messages ms) in
      let refused = step q (receives not_json none) in
      (q.settled ≡ none)
      × (q.closes ≡ false)
      × (step q aborts ≡ q)
      × (refused.settled ≡ some (rejected "Queue unavailable"))
      × (refused.closes ≡ false)
unfolding step
aborted_search_goes_on ms =
    let q = run (new_stream true) (messages ms) in
    let v = messages-IsDeaf ms (new_stream true) new_stream-IsDeaf in
    let w = refused_lem q v in (v.unsettled, v.shut, abort_again q v, w.0, w.1)
