-- ===== src/Home/Rivals.antt =====
-- features/home/model/derive-home-model.ts: who is shown as the opponent.
use geoduels.Base.{
  ◌≡◌, refl, ap, sym, ◌∙◌, String, Bool, true, false, some, List, [], ◌∷◌, arith, if◌then◌else◌,
  ◌==◌, string_eq, not, ◌&&◌, is_some, eq_iff, subst, Bool-cases, inl, inr, ◌⊎◌,
}
use geoduels.Snapshot.{SnapshotPlayer, lookup}
use geoduels.Home.Model.{
  Params, snapshot, mode_of, is_team, players_of, team_id_of, first_of_other_team, first_other,
  self_team_id, opp_id,
}

-- No key stands twice, as in every object.
abbrev pub IsKeyed : List (String × SnapshotPlayer) → Type 0
IsKeyed [] = Unit
IsKeyed ((id, q) ∷ qs) = (is_some (lookup id qs) ≡ false) × IsKeyed qs

-- A player that is not the user, and in a duel of teams not of the user's team.
abbrev pub is_rival : Params → String → SnapshotPlayer → Bool
is_rival p id q =
    not (id == p.auth.user_id)
    && not (is_team (mode_of (snapshot p)) && team_id_of (some q) == self_team_id p)

abbrev first_where : (String → SnapshotPlayer → Bool) → List (String × SnapshotPlayer) → String
first_where f [] = ""
first_where f ((id, q) ∷ qs) = if f id q then id else first_where f qs

first_of_other_team_lem :
    (team : String) (qs : List (String × SnapshotPlayer))
    → first_of_other_team team qs ≡ first_where (λ id q. not (team_id_of (some q) == team)) qs
first_of_other_team_lem team [] = refl
first_of_other_team_lem team ((id, q) ∷ qs) =
    ap (λ rest. if not (team_id_of (some q) == team) then id else rest)
      (first_of_other_team_lem team qs)

first_other_lem :
    (self : String) (qs : List (String × SnapshotPlayer))
    → first_other self qs ≡ first_where (λ id q. not (id == self)) qs
first_other_lem self [] = refl
first_other_lem self ((id, q) ∷ qs) =
    ap (λ rest. if not (id == self) then id else rest) (first_other_lem self qs)

found_later :
    (id k : String) (q r : SnapshotPlayer) (qs : List (String × SnapshotPlayer))
    → is_some (lookup id qs) ≡ false
    → lookup k qs ≡ some r
    → lookup k ((id, q) ∷ qs) ≡ some r
found_later id k q r qs a e = elim (Bool-cases (id == k)) [
  | inl same ↦ grind (arith, eq_iff id k)
  | inr other ↦ rw other e
]

-- An entry under `k` passes a test, or `k` is empty and none passes.
abbrev Chosen : (String → SnapshotPlayer → Bool) → List (String × SnapshotPlayer) → String → Type 0
Chosen f qs k =
    ((q : SnapshotPlayer) × (lookup k qs ≡ some q) × (f k q ≡ true))
    ⊎ ((k ≡ "") × ((j : String) (r : SnapshotPlayer) → lookup j qs ≡ some r → f j r ≡ false))

none_chosen :
    (f : String → SnapshotPlayer → Bool) (id : String) (q : SnapshotPlayer)
    (qs : List (String × SnapshotPlayer))
    → f id q ≡ false
    → ((j : String) (r : SnapshotPlayer) → lookup j qs ≡ some r → f j r ≡ false)
    → (j : String) (r : SnapshotPlayer) → lookup j ((id, q) ∷ qs) ≡ some r
    → f j r ≡ false
none_chosen f id q qs fails g j r h = elim (Bool-cases (id == j)) [
  | inl same ↦ grind (arith, eq_iff id j)
  | inr apart ↦ g j r (grind arith)
]

Chosen-first_where :
    (f : String → SnapshotPlayer → Bool) (qs : List (String × SnapshotPlayer))
    → IsKeyed qs
    → Chosen f qs (first_where f qs)
Chosen-first_where f [] v = inr (refl, λ j r h. cc)
Chosen-first_where f ((id, q) ∷ qs) (a, v) =
    let at : Bool → String = λ b. if b then id else first_where f qs in
    elim (Bool-cases (f id q)) [
      | inl same ↦
          subst (λ b. Chosen f ((id, q) ∷ qs) (at b)) (sym same)
            (inl (q, ground (arith, eq_iff id id), same))
      | inr other ↦
          subst (λ b. Chosen f ((id, q) ∷ qs) (at b)) (sym other)
            (elim (Chosen-first_where f qs v) [
              | inl (r, e, g) ↦ inl (r, found_later id (first_where f qs) q r qs a e, g)
              | inr (e, g) ↦ inr (e, none_chosen f id q qs other g)
            ])
    ]

-- Tests that agree on the entries choose the same.
Chosen-agree :
    (f g : String → SnapshotPlayer → Bool) (qs : List (String × SnapshotPlayer)) (k : String)
    → ((j : String) (r : SnapshotPlayer) → lookup j qs ≡ some r → f j r ≡ g j r)
    → Chosen f qs k
    → Chosen g qs k
Chosen-agree f g qs k h (inl (q, e, t)) = inl (q, e, sym (h k q e) ∙ t)
Chosen-agree f g qs k h (inr (e, t)) = inr (e, λ j r i. sym (h j r i) ∙ t j r i)

-- A player of another team than the user's is not the user.
team_apart :
    (user : String) (qs : List (String × SnapshotPlayer)) (j : String) (r : SnapshotPlayer)
    → lookup j qs ≡ some r
    → not (team_id_of (some r) == team_id_of (lookup user qs))
      ≡ (not (j == user) && not (team_id_of (some r) == team_id_of (lookup user qs)))
team_apart user qs j r h = elim (Bool-cases (j == user)) [
  | inl same ↦
      let e : lookup user qs ≡ some r =
        subst (λ k. lookup k qs ≡ some r) (grind (arith, eq_iff j user)) h in
      subst
        (λ o.
          not (team_id_of (some r) == team_id_of o)
          ≡ (not (j == user) && not (team_id_of (some r) == team_id_of o)))
        (sym e) (ground (arith, eq_iff (team_id_of (some r)) (team_id_of (some r))))
  | inr other ↦ rw other refl
]

Chosen-opponent :
    (user : String) (qs : List (String × SnapshotPlayer)) (team : Bool)
    → IsKeyed qs
    → Chosen
        (λ id q.
          not (id == user) && not (team && team_id_of (some q) == team_id_of (lookup user qs)))
        qs
        (if team then first_of_other_team (team_id_of (lookup user qs)) qs else first_other user qs)
Chosen-opponent user qs true v =
    let own = team_id_of (lookup user qs) in
    subst (Chosen _ qs) (sym (first_of_other_team_lem own qs)) (
      Chosen-agree (λ id q. not (team_id_of (some q) == own)) _ qs _ (team_apart user qs)
        (Chosen-first_where (λ id q. not (team_id_of (some q) == own)) qs v))
Chosen-opponent user qs false v = subst (Chosen _ qs) (sym (first_other_lem user qs)) (
    Chosen-agree (λ id q. not (id == user)) _ qs _ (λ j r h. ground arith)
      (Chosen-first_where (λ id q. not (id == user)) qs v))

-- In an object of players: the opponent who is shown is a player that is not the user and, in a
-- duel of teams, is not of the user's team; or none is shown, and no player is such.
pub opponent_is_rival :
    (p : Params) (j : String) (r : SnapshotPlayer)
    → IsKeyed (players_of (snapshot p))
    → lookup j (players_of (snapshot p)) ≡ some r
    → ((q : SnapshotPlayer) × (lookup (opp_id p) (players_of (snapshot p)) ≡ some q)
        × (is_rival p (opp_id p) q ≡ true))
      ⊎ ((opp_id p ≡ "") × (is_rival p j r ≡ false))
unfolding opp_id self_team_id
opponent_is_rival p j r v h =
    let team = is_team (mode_of (snapshot p)) in
    elim (Chosen-opponent p.auth.user_id (players_of (snapshot p)) team v) [
      | inl found ↦ inl found
      | inr (e, g) ↦ inr (e, g j r h)
    ]
