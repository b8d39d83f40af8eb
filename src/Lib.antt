-- ===== src/Lib.antt =====
-- Verification library of the GeoDuels web client (apps/web), the browser's side of a game in which
-- players guess where a street view was taken.
--
-- The client is a set of controllers, each a store of a state that the views read. A
-- MatchController joins the queue, connects to the gameplay node that a match is assigned to, keeps
-- the latest snapshot that the node sends, and recovers the match when the connection is lost. It
-- owns a GameplaySocketClient and runs its matchmaking status through a reducer. A
-- MatchRouteController resolves the address of a match page and hands a live match to the
-- MatchController. A GameController follows the MatchController's snapshots: it holds the guess, shows
-- the health and the result of a round, plays the sounds, and runs a RoundClock, which turns snapshots
-- into the seconds that are shown. A ChatController shows the chat of a lobby or a match. A
-- LobbyController keeps a lobby, follows its stream of patches and connects again when that ends; a
-- SessionController holds the session whose token the others send by, and refreshes it. They live
-- together for as long as the page, and deriveHomeModel makes of their states what the page shows.
--
-- Files, with what of the repository they model:
--   Base                 JavaScript's tests on texts and numbers, trim, the case of letters, and lists
--                        measured by native numbers.
--   Matchmaking          apps/web/lib/matchmaking.ts: matchmakingReducer with its state and actions.
--     Intent, Recovery   what a late recovery may change, and which recovery is tracked.
--   Snapshot, Session, Config, Command, MatchSession
--                        the records that the controllers pass around: apps/web/components/ui/types.ts,
--                        features/auth/session.ts, lib/runtime-config.ts,
--                        features/matchmaking/lib/queue-client.ts.
--   Socket               apps/web/features/matchmaking/lib/gameplay-socket-client.ts: connect, close and
--                        the four handlers of a websocket. The browser's sockets are a store by number;
--                        the handlers return the calls of the client's own handlers.
--     Ownership          which socket's end is reported.
--   QueueStream          apps/web/features/matchmaking/lib/queue-client.ts: streamQueue, the promise of
--                        a search with the handlers of its websocket; Settled, how it ends.
--   QueueAnswers         the same file: the other requests, each over its response.
--     Values, Session, Maintenance, Requests
--                        what is read of an answer about a match and about maintenance, and what each
--                        request makes of its response.
--     Written, Clean, Stable
--                        what was read, written out and read again.
--   Match                apps/web/features/matchmaking/controllers/match-controller.ts.
--     State              the state, patchState, sendGameCommand, resetConnectionState, start, destroy.
--     Recover            startRecover, cut at its awaits, and the timer of the first snapshot.
--     Handlers           the handlers of the socket and the heartbeat.
--     Queue              joinQueue, startSingleplayer, cancelQueue, resumeResolvedMatch.
--     Events             everything that can happen, as one step function.
--     Tracking, RecoverOnce, RecoverSteps, RecoverHandlers, RecoverCalls, RecoverRuns
--                        which recoveries are alive, and when one can be started.
--     Snapshots, Calls   which snapshot is kept; what the calls do.
--   Route                apps/web/features/matchmaking/controllers/match-route-controller.ts: the state
--                        and setTargetMatch.
--     Resolve            resolve and handleResolvedMatch, cut at their awaits, and the step function.
--     Stale, OneLive     late answers, and which resolution is alive.
--   Chat                 apps/web/features/chat/controllers/chat-controller.ts; Chat.Client is
--                        features/chat/lib/chat-client.ts.
--     Shown, Messages    what is shown of a conversation, and what a new message does.
--   Clock                apps/web/features/game/lib/round-clock.ts.
--     Display            the seconds that are shown.
--   Game                 apps/web/features/game/controllers/game-controller.ts.
--     State, Sounds, Health, Results, Sync
--                        the state, and each part of handleMatchChange in its order; the timers, with
--                        features/game/lib/result-animation.ts.
--     Calls              placeGuess, finalizeGuess and the other calls, with the MatchController that
--                        they send by, whose changes come back to handleMatchChange at once.
--     Run                everything that can happen to a game, as one step function.
--     Guesses, Placing, Heard, Once, Bounds
--                        the guess, when it is sent, how often it is heard, and the health shown.
--   UiPhase              apps/web/lib/uiPhase.ts: which page is shown; Pages, when.
--   Auth                 apps/web/features/auth/controllers/session-controller.ts.
--     Json, Read         JSON values, and what is read of badges and of a leaderboard.
--     Expiry             apps/web/features/auth/lib/token-expiry.ts.
--     State, Calls, Login
--                        the state, and the calls that set a session or a part of it.
--     Fresh              the shared requests, ensureFreshSession and getPlayableSession, cut at their
--                        awaits.
--     Run                everything that can happen, as one relation.
--     SingleFlight, Account, RoundTrip, Given
--                        how often a request is made, what the views see of the session, what is
--                        read back, and which session is given out.
--   Lobby                apps/web/features/lobby/controllers/lobby-controller.ts, with
--                        streamLobby and applyLobbyPatch of features/lobby/lib/lobby-client.ts.
--     Types, Patch       a lobby and its patches; Patch.View, the abstract map of members.
--     Stream             the promise of a stream with the handlers of its websocket.
--     Controller, Connect, Calls, Run
--                        the state, connectToLobby cut at its awaits, the other calls, and the
--                        relation of what can happen.
--     OneStream with Steps, Events, Calls, Live
--                        which streams are live, and which lobby is shown.
--     Recovery, Switch   what follows the end of a stream, and what stays of an old one.
--   Home                 apps/web/features/home/model/derive-home-model.ts, each constant of
--                        deriveHomeModel as a function of its parameters.
--     Decimal            the texts of the clock.
--     Model, Result, Names
--                        the page and the round; the health, the result and the ratings; the names.
--     Rounds, Opponents, Rivals
--                        when a guess can be finalized, what two players are shown, and who is shown
--                        as the opponent.
--   Tests modules hold concrete runs, and each theorem below at one of them.
--
-- How the code is read. A controller is a record; a method is a function from the controller before
-- the call to the one after it, and the calls to the outside (sounds, commands, requests) are
-- effects in a log. An asynchronous method is cut at its awaits: what is suspended is an entry in a
-- list, and the answer is an event with the answer's data, so that every order of answers, calls and
-- messages is a list of events. The clock's time, the answers of the API and of the session
-- controller and the browser's events are arguments. Numbers are natural numbers: times are whole
-- milliseconds, an offset of clocks has a sign, and a coordinate is never computed with. A promise's
-- identity, an abort controller and a socket are numbers that are handed out in order. A timer is
-- due or not. The case of letters is mapped in ASCII. What atob and JSON.parse make of a token's
-- payload is a parameter, and a number in JSON stands for its bits. Every function is by recursion on
-- its data, except the digits of a number, which have one more fuel than the number: each digit
-- divides it by ten.
--
-- Not modelled: the listeners of a store, which only read it; URLs; the parsing of JSON below the
-- fields that are read; random command ids; the requests of the lobby and the accounts, whose
-- answers are inputs, and where the queue's go; the rating preview of lib/elo.ts and the percentages of the home model,
-- which are floating-point numbers; the hooks that pass the controllers to the views; the views;
-- and the server.
pub mod Base
pub mod Matchmaking
pub mod Snapshot
pub mod Session
pub mod Config
pub mod Socket
pub mod Command
pub mod Auth
pub mod Lobby
pub mod MatchSession
pub mod QueueStream
pub mod QueueAnswers
pub mod Match
pub mod Chat
pub mod Route
pub mod Clock
pub mod Game
pub mod UiPhase
pub mod Home
