-- ===== src/Game/Placing.antt =====
-- features/game/controllers/game-controller.ts: when a guess is sent, and what it leaves.
use geoduels.Base.{
  ℕ, ◌≡◌, refl, ◌∙◌, ap, String, Bool, true, false, some, ◌∷◌, arith, if◌then◌else◌, ◌&&◌, ◌||◌,
  not,
}
use geoduels.Config.{RuntimeConfig}
use geoduels.Command.{Command, guess_place}
use geoduels.Snapshot.{Snapshot, CurrentRound, LatLng, is_live, is_round_live}
use geoduels.Socket
use geoduels.Match.State
use geoduels.Match.State.{MatchController, sends, send_game_command}
use geoduels.Match.Calls.{send_game_command_lem}
use geoduels.Game.State.{GameController}
use geoduels.Game.Calls.{
  GamePage, notify, send, place_guess, place_guess_in, is_guess_input_closed, command_options,
  place_guess_of, send_with, placed,
}

-- The user can still guess.
abbrev pub is_guess_open : GameController → Snapshot → ℕ → Bool
is_guess_open g s now =
    is_live s.phase
    && is_round_live s.round_phase
    && not g.state.guess_submitted
    && not (is_guess_input_closed g s now)

match-notify :
    (config : RuntimeConfig) (user : String) (now : ℕ) (p : GamePage)
    → (notify config user now p).match ≡ p.match
unfolding notify
match-notify config user now p = ground arith

module _ (config : RuntimeConfig) (user : String) (now : ℕ) where
  sent_open :
      (m : MatchController) (c : Command)
      → Socket.is_open m.socket_client ≡ true
      → send_game_command config m c (command_options config user now)
        ≡ (record m { log = sends c ∷ m.log }, true)
  unfolding send_game_command
  sent_open m c h = rw h refl

  sent_shut :
      (m : MatchController) (c : Command)
      → Socket.is_open m.socket_client ≡ false
      → (n : MatchController) × (send_game_command config m c (command_options config user now)
          ≡ (n, false))
        × (n.log ≡ m.log)
        × (n.state.connection_issue ≡ config.game_connection_error_message)
  sent_shut m c h =
      let options = command_options config user now in
      let n = (send_game_command config m c options).0 in
      let (unsent, log, quiet, marked) = (send_game_command_lem config m c options).1 h in
      (n, ap (λ b. (n, b)) unsent, log, (marked refl).1)

  refused : GameController → Snapshot → Bool
  refused g s =
      not (is_live s.phase)
      || not (is_round_live s.round_phase)
      || g.state.guess_submitted
      || is_guess_input_closed g s now

  is_refused :
      (g : GameController) (s : Snapshot) → is_guess_open g s now ≡ false → refused g s ≡ true
  unfolding refused
  is_refused g s h = ground arith

  is_accepted :
      (g : GameController) (s : Snapshot) → is_guess_open g s now ≡ true → refused g s ≡ false
  unfolding refused
  is_accepted g s h = ground arith

  -- The call with its snapshot and its round at hand.
  place_guess_as :
      (p : GamePage) (s : Snapshot) (round : CurrentRound) (at : LatLng)
      → p.match.state.snapshot ≡ some s
      → s.current_round ≡ some round
      → place_guess config user now p at ≡ (
          if refused p.game s
          then p
          else placed config user now at
              (send config user now p (guess_place user s.match_id round.round_id at)))
  unfolding place_guess place_guess_of place_guess_in refused
  place_guess_as p s round at shown current =
      ap (λ o. place_guess_of config user now p o at) shown
      ∙ ap (λ o. place_guess_in config user now p s o at) current

  placed_after :
      (p : GamePage) (m : MatchController) (at : LatLng)
      → let q = placed config user now at (send_with config user now p (m, true)) in
        (q.game.state.guess ≡ some at)
        × (q.match.log ≡ m.log)
        × (q.match.state.connection_issue ≡ "")
  unfolding send_with State.patch_state
  placed_after p m at =
      let cleared : GamePage = record p {
        match = State.patch_state m (record (m.state) { connection_issue = "" });
      } in
      (
        refl,
        ap (λ (n : MatchController). n.log) (match-notify config user now cleared),
        ap (λ (n : MatchController). n.state.connection_issue)
            (match-notify config user now cleared),
      )

  lost_match :
      (p : GamePage) (n : MatchController) (at : LatLng)
      → (placed config user now at (send_with config user now p (n, false))).match ≡ n
  unfolding send_with
  lost_match p n at = match-notify config user now (record p { match = n })

  placed_open :
      (p : GamePage) (c : Command) (at : LatLng)
      → Socket.is_open p.match.socket_client ≡ true
      → let q = placed config user now at (send config user now p c) in
        (q.game.state.guess ≡ some at)
        × (q.match.log ≡ sends c ∷ p.match.log)
        × (q.match.state.connection_issue ≡ "")
  unfolding send
  placed_open p c at h =
      let m = record (p.match) { log = sends c ∷ p.match.log } in
      let is_sent : send config user now p c ≡ send_with config user now p (m, true) =
        ap (send_with config user now p) (sent_open p.match c h) in
      rw is_sent (placed_after p m at)

  placed_shut :
      (p : GamePage) (c : Command) (at : LatLng)
      → Socket.is_open p.match.socket_client ≡ false
      → let q = placed config user now at (send config user now p c) in
        (q.match.log ≡ p.match.log)
        × (q.match.state.connection_issue ≡ config.game_connection_error_message)
  unfolding send
  placed_shut p c at h =
      let (n, unsent, log, issue) = sent_shut p.match c h in
      let is_lost : send config user now p c ≡ send_with config user now p (n, false) =
        ap (send_with config user now p) unsent in
      rw is_lost (
        ap (λ (m : MatchController). m.log) (lost_match p n at) ∙ log,
        ap (λ (m : MatchController). m.state.connection_issue) (lost_match p n at) ∙ issue,
      )

  -- In a round of a snapshot: a guess that is not open to the user changes nothing; one that is,
  -- with an open socket, is sent as one command, is the guess that is shown and clears the
  -- connection issue; without an open socket nothing is sent and the connection issue is the
  -- game's message.
  pub place_guess_lem :
      (p : GamePage) (s : Snapshot) (round : CurrentRound) (at : LatLng)
      → p.match.state.snapshot ≡ some s
      → s.current_round ≡ some round
      → let q = place_guess config user now p at in
        let command = guess_place user s.match_id round.round_id at in
        (is_guess_open p.game s now ≡ false → q ≡ p)
        × (is_guess_open p.game s now ≡ true
            → Socket.is_open p.match.socket_client ≡ true
            → (q.game.state.guess ≡ some at)
              × (q.match.log ≡ sends command ∷ p.match.log)
              × (q.match.state.connection_issue ≡ ""))
        × (is_guess_open p.game s now ≡ true
            → Socket.is_open p.match.socket_client ≡ false
            → (q.match.log ≡ p.match.log)
              × (q.match.state.connection_issue ≡ config.game_connection_error_message))
  place_guess_lem p s round at shown current =
      let computed = place_guess_as p s round at shown current in
      let c = guess_place user s.match_id round.round_id at in
      (
        λ closed.
            computed
            ∙ ap (λ b. if b then p else placed config user now at (send config user now p c))
                (is_refused p.game s closed),
        λ guessable on. rw (computed, is_accepted p.game s guessable) (placed_open p c at on),
        λ guessable off. rw (computed, is_accepted p.game s guessable) (placed_shut p c at off),
      )
