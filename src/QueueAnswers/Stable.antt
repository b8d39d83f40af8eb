-- ===== src/QueueAnswers/Stable.antt =====
-- features/matchmaking/lib/queue-client.ts: the answers that are read back.
use geoduels.Base.{
  ◌≡◌, refl, ap, ◌∙◌, sym, subst, String, Bool, true, false, Option, none, some, if◌then◌else◌,
  string_eq, Bool-cases, inl, inr,
}
use geoduels.Auth.Json.{Json, bool, text, object, end, field, is_object}
use geoduels.QueueAnswers.Session.{MatchAnswer, normalize_match_session}
use geoduels.QueueAnswers.Maintenance.{
  MaintenancePhase, normal, warning, active, MaintenanceStatus, is_idle, maintenance_phase,
  read_maintenance, kept_status, normalize_maintenance_status,
}
use geoduels.QueueAnswers.Written.{is_clean, answer_json, answer_lem}
use geoduels.QueueAnswers.Clean.{normalize-is_clean}

abbrev phase_text : MaintenancePhase → String
phase_text normal = "normal"
phase_text warning = "warning"
phase_text active = "active"

abbrev pub maintenance_json : MaintenanceStatus → Json
maintenance_json s = object (
    field "phase" (text (phase_text s.phase)) (
      field "startsAt" (text s.starts_at) (
        field "endsAt" (text s.ends_at) (
          field "queuePaused" (bool s.queue_paused)
            (field "playPaused" (bool s.play_paused) (field "message" (text s.message) end))))))

abbrev pub sent : Option MaintenanceStatus → Option Json
sent none = none
sent (some s) = some (maintenance_json s)

phase_lem : (phase : MaintenancePhase) → maintenance_phase (phase_text phase) ≡ phase
unfolding maintenance_phase
phase_lem normal = refl
phase_lem warning = refl
phase_lem active = refl

read_maintenance_lem : (s : MaintenanceStatus) → read_maintenance (maintenance_json s) ≡ s
unfolding read_maintenance
read_maintenance_lem s = ap (λ phase. record s { phase = phase }) (phase_lem s.phase)

-- What is sent of it is read as it.
abbrev IsReadBack : Option MaintenanceStatus → Type 0
IsReadBack o = normalize_maintenance_status (sent o) ≡ o

kept-IsReadBack : (s : MaintenanceStatus) → IsReadBack (kept_status s)
unfolding normalize_maintenance_status
kept-IsReadBack s =
    let kept : Bool → Option MaintenanceStatus = λ b. if b then none else some s in
    elim (Bool-cases (is_idle s)) [
      | inl idle ↦ subst IsReadBack (sym (ap kept idle)) refl
      | inr other ↦
          subst IsReadBack (sym (ap kept other))
            (ap (λ t. kept_status t) (read_maintenance_lem s) ∙ ap kept other)
    ]

object-IsReadBack :
    (s : MaintenanceStatus) (b : Bool) → IsReadBack (if b then kept_status s else none)
unfolding normalize_maintenance_status
object-IsReadBack s true = kept-IsReadBack s
object-IsReadBack s false = refl

maintenance-IsReadBack : (o : Option Json) → IsReadBack (normalize_maintenance_status o)
unfolding normalize_maintenance_status
maintenance-IsReadBack none = refl
maintenance-IsReadBack (some v) = object-IsReadBack (read_maintenance v) (is_object v)

announced_lem :
    (s : MaintenanceStatus)
    → is_idle s ≡ false
    → normalize_maintenance_status (some (maintenance_json s)) ≡ some s
unfolding normalize_maintenance_status
announced_lem s h =
    ap (λ t. kept_status t) (read_maintenance_lem s) ∙ ap (λ b. if b then none else some s) h

-- An answer about a match that is clean, with a code where there is a source lobby, an object as a
-- configuration and no empty value as a snapshot, is read as it is from the object that stands for
-- it, whatever match was asked for, and whatever the server sent is read as a clean answer; a
-- maintenance that is not idle is read as it is from its object, and what is read of any value is
-- read so again.
pub answers_are_read_back :
    (o : Option Json) (asked : String) (a : MatchAnswer) (s : MaintenanceStatus)
    → is_clean a ≡ true
    → is_idle s ≡ false
    → (normalize_match_session (some (answer_json a)) asked ≡ a)
      × (is_clean (normalize_match_session o asked) ≡ true)
      × (normalize_maintenance_status (some (maintenance_json s)) ≡ some s)
      × (normalize_maintenance_status (sent (normalize_maintenance_status o))
          ≡ normalize_maintenance_status o)
answers_are_read_back o asked a s h i =
    (answer_lem a asked h, normalize-is_clean o asked, announced_lem s i, maintenance-IsReadBack o)
