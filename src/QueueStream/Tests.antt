-- ===== src/QueueStream/Tests.antt =====
-- A search that is assigned a match, and one that was cancelled before it started.
use geoduels.Base.{◌≡◌, refl, true, false, none, some, List, [], ◌∷◌, is_some}
use geoduels.QueueStream.{
  QueuePayload, StreamEvent, aborts, errs, closes, receives, value, not_json, resolved, rejected,
  new_stream, run, step, on_message, on_close, deliver, settle,
}
use geoduels.QueueStream.Settled.{messages, search_settles_once, aborted_search_goes_on}

abbrev payload : QueuePayload
payload = record {
  status = "queueing";
  queued_at = some 3;
  match_id = some "m1";
  node = some "n1";
  ticket = some "t";
  ws_path = none;
  source_lobby_id = none;
  source_lobby_invite_code = none;
  message = "";
}

abbrev search : List StreamEvent
search =
    receives (value "queue_status" payload) none
    ∷ receives (value "match_assigned" payload) none
    ∷ closes
    ∷ []

search_settled : (run (new_stream false) search).settled ≡ some resolved
unfolding run step on_message on_close deliver settle new_stream
search_settled = refl

search_settles_once_example :
    let q = run (new_stream false) search in
    (q.settled ≡ some resolved → (run q (aborts ∷ errs ∷ [])).settled ≡ some resolved)
    × (q.settled ≡ some resolved → q.is_assigned ≡ true)
    × (q.is_aborted ≡ true → is_some q.settled ≡ true)
search_settles_once_example = search_settles_once search (aborts ∷ errs ∷ []) resolved

aborted_search_goes_on_example :
    let q =
      run
        (new_stream true)
        (messages (("queue_status", payload) ∷ ("match_assigned", payload) ∷ [])) in
    let refused = step q (receives not_json none) in
    (q.settled ≡ none)
    × (q.closes ≡ false)
    × (step q aborts ≡ q)
    × (refused.settled ≡ some (rejected "Queue unavailable"))
    × (refused.closes ≡ false)
aborted_search_goes_on_example =
    aborted_search_goes_on (("queue_status", payload) ∷ ("match_assigned", payload) ∷ [])
