-- ===== src/Game/Bounds.antt =====
-- features/game/controllers/game-controller.ts: the health that a result starts its animation with.
use geoduels.Base.{true, false, ℕ, ◌≤◌, max, ◌≡◌, refl, String, some, List, [], ◌∷◌, arith, or_else}
use geoduels.Config.{RuntimeConfig}
use geoduels.Snapshot.{Snapshot, PlayerResult, RoundResult, is_singleplayer}
use geoduels.Game.State.{GameController}
use geoduels.Game.Health.{
  get_animated_start_hp, start_hps, show_health, sync_display_hp, result_tick, is_free_for_all,
  hp_transition, hps,
}

-- A number that is shown between the health after the round and the highest one.
abbrev pub IsWithin : RuntimeConfig → ℕ → ℕ → Type 0
IsWithin config after hp = (after ≤ hp) × (hp ≤ max after config.max_hp)

get_animated_start_hp-IsWithin :
    (config : RuntimeConfig) (g : GameController) (s : Snapshot) (id : String) (after now : ℕ)
    → IsWithin config after (get_animated_start_hp config g s id after now)
unfolding get_animated_start_hp
get_animated_start_hp-IsWithin config g s id after now = (ground arith, ground arith)

-- What is shown for the players of a result, in their order.
abbrev pub AreWithin : RuntimeConfig → List (String × PlayerResult) → List (String × ℕ) → Type 0
AreWithin config [] [] = Unit
AreWithin config ((id, r) ∷ rs) ((shown, hp) ∷ hps) =
    (shown ≡ id) × IsWithin config (or_else r.hp_after_round 0) hp × AreWithin config rs hps
AreWithin config _ _ = false ≡ true

start_hps-AreWithin :
    (config : RuntimeConfig) (g : GameController) (s : Snapshot) (rs : List (String × PlayerResult))
    → AreWithin config rs (start_hps config g s rs)
unfolding start_hps
start_hps-AreWithin config g s [] = tt
start_hps-AreWithin config g s ((id, r) ∷ rs) = (
  refl,
  get_animated_start_hp-IsWithin config g s id (or_else r.hp_after_round 0) _,
  start_hps-AreWithin config g s rs,
)

-- When a new snapshot of a game with health brings the result of a round, the health shown for
-- each of its players, in their order, is between the one after the round and the larger of it and
-- the highest one, and the timer then shows the snapshot's.
pub result_health_lem :
    (config : RuntimeConfig) (g : GameController) (s : Snapshot) (user : String) (r : RoundResult)
    → is_singleplayer s.mode ≡ false
    → is_free_for_all s.mode ≡ false
    → result_tick g s ≡ some r
    → AreWithin config r.players (sync_display_hp config g (some s) user).state.display_hp
      × ((hp_transition (sync_display_hp config g (some s) user)).state.display_hp ≡ hps s.players)
unfolding sync_display_hp show_health hp_transition
result_health_lem config g s user r single free tick =
    rw (single, free, tick) (start_hps-AreWithin config g s r.players, refl)
