-- ===== src/Home/Opponents.antt =====
-- features/home/model/derive-home-model.ts: what the two players of a duel are shown.
use geoduels.Base.{
  ℕ, ◌≡◌, refl, sym, ◌∙◌, ap, String, true, false, Option, none, some, [], ◌∷◌, arith,
  if◌then◌else◌, ◌==◌, nat_eq, string_eq, truthy, ◌&&◌, eq_iff,
}
use geoduels.Snapshot.{RatingDeltaPreview, Snapshot, SnapshotPlayer, Mode, lookup}
use geoduels.Home.Model.{
  is_duel, Params, snapshot, mode_of, mode_or_duel, first_of_other_team, team_id_of, self_team_id,
  opp_team_id, teams_of, is_team, first_other, players_of, opp_id, show_result_stage,
}
use geoduels.Home.Result.{
  is_ranked, previews_of, Outcome, team_hp, player_hp, hp_or, live_self_hp, live_opp_hp, self_hp,
  opp_hp, match_outcome, outcome_of, other_outcome, win, lose, draw, self_rating_preview,
  opponent_rating_preview, self_elo_delta, opponent_elo_delta, delta_of,
}

-- Two pages that show one snapshot of a duel of two players to those, outside a result's stage, and
-- the same health of each that an animation has reached.
pub record AreOpponents (p q : Params) (s : Snapshot) (m n : SnapshotPlayer) : Type 0 where
  pub first_sees : snapshot p ≡ some s
  pub second_sees : snapshot q ≡ some s
  pub is_duel : s.mode ≡ some Mode.duel
  pub two_players : s.players ≡ (p.auth.user_id, m) ∷ (q.auth.user_id, n) ∷ []
  pub apart : (p.auth.user_id == q.auth.user_id) ≡ false
  pub named : (truthy p.auth.user_id ≡ true) × (truthy q.auth.user_id ≡ true)
  pub same_first : lookup p.auth.user_id p.game.display_hp ≡ lookup p.auth.user_id q.game.display_hp
  pub same_second :
      lookup q.auth.user_id p.game.display_hp ≡ lookup q.auth.user_id q.game.display_hp
  pub no_stage : (show_result_stage p ≡ false) × (show_result_stage q ≡ false)

outcome_of_swap : (a b : ℕ) → outcome_of b a ≡ other_outcome (outcome_of a b)
outcome_of_swap a b = ground arith

other_outcome_twice : (o : Outcome) → other_outcome (other_outcome o) ≡ o
other_outcome_twice win = refl
other_outcome_twice lose = refl
other_outcome_twice draw = refl

-- What one page shows of a duel to its user, whose opponent is `id`.
record Sees (p : Params) (s : Snapshot) (id : String) (own other : SnapshotPlayer) : Type 0 where
  sees : snapshot p ≡ some s
  is_duel : s.mode ≡ some Mode.duel
  mine : lookup p.auth.user_id s.players ≡ some own
  theirs : lookup id s.players ≡ some other
  first : first_other p.auth.user_id s.players ≡ id
  no_stage : show_result_stage p ≡ false

module _ (p : Params) (s : Snapshot) (id : String) (own other : SnapshotPlayer)
    (v : Sees p s id own other) where
  opp_id-Sees : opp_id p ≡ id
  unfolding opp_id
  opp_id-Sees =
      ap
        (λ o.
          if is_team (mode_of o)
          then first_of_other_team (team_id_of (lookup p.auth.user_id (players_of o)))
              (players_of o)
          else first_other p.auth.user_id (players_of o))
        v.sees
      ∙ ap
          (λ o.
            if is_team (mode_or_duel o)
            then first_of_other_team (team_id_of (lookup p.auth.user_id s.players)) s.players
            else first_other p.auth.user_id s.players)
          v.is_duel
      ∙ v.first

  no_team : is_team (mode_of (snapshot p)) ≡ false
  unfolding mode_of
  no_team = ap (λ o. is_team (mode_of o)) v.sees ∙ ap (λ o. is_team (mode_or_duel o)) v.is_duel

  self_hp-Sees : self_hp p ≡ hp_or none (lookup p.auth.user_id p.game.display_hp) (some own.hp)
  unfolding self_hp
  self_hp-Sees =
      ap (λ b. if b then p.game.result_shown_hp.self else live_self_hp p) v.no_stage
      ∙ ap
          (λ b.
            hp_or (if b then team_hp (lookup (self_team_id p) (teams_of (snapshot p))) else none)
              (lookup p.auth.user_id p.game.display_hp)
              (player_hp (lookup p.auth.user_id (players_of (snapshot p)))))
          no_team
      ∙ ap
          (λ o.
            hp_or none (lookup p.auth.user_id p.game.display_hp)
              (player_hp (lookup p.auth.user_id (players_of o))))
          v.sees
      ∙ ap (λ o. hp_or none (lookup p.auth.user_id p.game.display_hp) (player_hp o)) v.mine

  opp_hp-Sees : opp_hp p ≡ hp_or none (lookup id p.game.display_hp) (some other.hp)
  unfolding opp_hp
  opp_hp-Sees =
      ap (λ b. if b then p.game.result_shown_hp.opp else live_opp_hp p) v.no_stage
      ∙ ap
          (λ b.
            hp_or
              (if b && truthy (opp_team_id p)
                then team_hp (lookup (opp_team_id p) (teams_of (snapshot p)))
                else none)
              (lookup (opp_id p) p.game.display_hp)
              (player_hp (lookup (opp_id p) (players_of (snapshot p)))))
          no_team
      ∙ ap
          (λ j.
            hp_or none (lookup j p.game.display_hp)
              (player_hp (lookup j (players_of (snapshot p)))))
          opp_id-Sees
      ∙ ap (λ o. hp_or none (lookup id p.game.display_hp) (player_hp (lookup id (players_of o))))
          v.sees
      ∙ ap (λ o. hp_or none (lookup id p.game.display_hp) (player_hp o)) v.theirs

-- The changes of a rating that a page shows for a player.
abbrev previewed : Option Snapshot → String → Option RatingDeltaPreview
previewed o id =
    if is_duel (mode_of o) && is_ranked o && truthy id then lookup id (previews_of o) else none

module _ (p q : Params) (s : Snapshot) (m n : SnapshotPlayer) (v : AreOpponents p q s m n) where
  first-Sees : Sees p s q.auth.user_id m n
  first-Sees = record {
    sees = v.first_sees;
    is_duel = v.is_duel;
    mine =
        ap (λ ps. lookup p.auth.user_id ps) v.two_players
        ∙ ground (arith, eq_iff p.auth.user_id p.auth.user_id);
    theirs =
        ap (λ ps. lookup q.auth.user_id ps) v.two_players
        ∙ ground (arith, v.apart, eq_iff q.auth.user_id q.auth.user_id);
    first =
        ap (λ ps. first_other p.auth.user_id ps) v.two_players
        ∙ ground (
          arith,
          eq_iff p.auth.user_id p.auth.user_id,
          v.apart,
          eq_iff p.auth.user_id q.auth.user_id,
          eq_iff q.auth.user_id p.auth.user_id,
        );
    no_stage = v.no_stage.0;
  }

  second-Sees : Sees q s p.auth.user_id n m
  second-Sees = record {
    sees = v.second_sees;
    is_duel = v.is_duel;
    mine =
        ap (λ ps. lookup q.auth.user_id ps) v.two_players
        ∙ ground (arith, v.apart, eq_iff q.auth.user_id q.auth.user_id);
    theirs =
        ap (λ ps. lookup p.auth.user_id ps) v.two_players
        ∙ ground (arith, eq_iff p.auth.user_id p.auth.user_id);
    first = ap (λ ps. first_other q.auth.user_id ps) v.two_players ∙ ground (arith, v.apart);
    no_stage = v.no_stage.1;
  }

  hp_first : self_hp q ≡ opp_hp p
  hp_first =
      self_hp-Sees q s p.auth.user_id n m second-Sees
      ∙ ap (λ o. hp_or none o (some n.hp)) (sym v.same_second)
      ∙ sym (opp_hp-Sees p s q.auth.user_id m n first-Sees)

  hp_second : opp_hp q ≡ self_hp p
  hp_second =
      opp_hp-Sees q s p.auth.user_id n m second-Sees
      ∙ ap (λ o. hp_or none o (some m.hp)) (sym v.same_first)
      ∙ sym (self_hp-Sees p s q.auth.user_id m n first-Sees)

  outcome_lem : match_outcome q ≡ other_outcome (match_outcome p)
  unfolding match_outcome
  outcome_lem =
      ap (λ a. outcome_of a (opp_hp q)) hp_first
      ∙ ap (λ b. outcome_of (opp_hp p) b) hp_second
      ∙ outcome_of_swap (self_hp p) (opp_hp p)

  preview_lem : self_rating_preview q ≡ opponent_rating_preview p
  unfolding self_rating_preview opponent_rating_preview
  preview_lem =
      ap (λ o. previewed o q.auth.user_id) (v.second_sees ∙ sym v.first_sees)
      ∙ ap (λ id. previewed (snapshot p) id) (sym (opp_id-Sees p s q.auth.user_id m n first-Sees))

  delta_lem : self_elo_delta q ≡ opponent_elo_delta p
  unfolding self_elo_delta opponent_elo_delta
  delta_lem =
      ap (λ o. delta_of o (match_outcome q)) preview_lem
      ∙ ap (λ o. delta_of (opponent_rating_preview p) o) outcome_lem

  outcome_back : match_outcome p ≡ other_outcome (match_outcome q)
  outcome_back =
      sym (other_outcome_twice (match_outcome p)) ∙ ap (λ o. other_outcome o) (sym outcome_lem)

  preview_back : self_rating_preview p ≡ opponent_rating_preview q
  unfolding self_rating_preview opponent_rating_preview
  preview_back =
      ap (λ o. previewed o p.auth.user_id) (v.first_sees ∙ sym v.second_sees)
      ∙ ap (λ id. previewed (snapshot q) id) (sym (opp_id-Sees q s p.auth.user_id n m second-Sees))

  delta_back : self_elo_delta p ≡ opponent_elo_delta q
  unfolding self_elo_delta opponent_elo_delta
  delta_back =
      ap (λ o. delta_of o (match_outcome p)) preview_back
      ∙ ap (λ o. delta_of (opponent_rating_preview q) o) outcome_back

-- The pages of the two players of a duel that show one snapshot, outside a result's stage and with
-- the same health reached by the animations: the health and the change of the rating that each
-- shows as its own are those that the other shows as the opponent's, and their outcomes are
-- opposite.
pub opponents_agree :
    (p q : Params) (s : Snapshot) (m n : SnapshotPlayer)
    → AreOpponents p q s m n
    → (self_hp q ≡ opp_hp p)
      × (opp_hp q ≡ self_hp p)
      × (match_outcome q ≡ other_outcome (match_outcome p))
      × (self_elo_delta q ≡ opponent_elo_delta p)
      × (self_elo_delta p ≡ opponent_elo_delta q)
opponents_agree p q s m n v = (
  hp_first p q s m n v,
  hp_second p q s m n v,
  outcome_lem p q s m n v,
  delta_lem p q s m n v,
  delta_back p q s m n v,
)
