-- ===== src/Lobby/Patch/View.antt =====
-- features/lobby/lib/lobby-client.ts: the members of a lobby as a map from their ids, which a patch
-- removes from and adds to.
use geoduels.Base.{
  subst, ◌≡◌, ◌≢◌, refl, sym, ◌∙◌, String, false, Option, none, some, List, [], ◌∷◌, arith,
  if◌then◌else◌, ◌==◌, string_eq, or_else, ◌||◌, eq_iff, Bool-cases, inl, inr,
}
use geoduels.Lobby.Types.{LobbyMember, LobbySnapshot, LobbyPatch}
use geoduels.Lobby.Patch.{
  merge_over, MemberMap, get, set, values, has, kept_members, upsert, is_nonempty, patch_members,
  patch_lobby,
}

-- The member of an id: the last of them, as `new Map` keeps it.
abbrev pub View : Type 0
View = String → Option LobbyMember

abbrev pub view : List LobbyMember → View
view [] k = none
view (m ∷ ms) k = elim (view ms k) [
  | none ↦ if m.user_id == k then some m else none
  | some n ↦ some n
]

-- What a patch does to a map from ids: it takes some away, and lays each of its members over the one
-- that is there.
abbrev pub remove_all : List String → View → View
remove_all ids v k = if has k ids then none else v k

abbrev pub put : LobbyMember → View → View
put m v k = if m.user_id == k then some (merge_over (v k) m) else v k

abbrev pub put_all : List LobbyMember → View → View
put_all [] v = v
put_all (m ∷ ms) v = put_all ms (put m v)

-- No two members have one id.
abbrev pub Lacks : String → List LobbyMember → Type 0
Lacks k [] = Unit
Lacks k (m ∷ ms) = (m.user_id ≢ k) × Lacks k ms

abbrev pub Distinct : List LobbyMember → Type 0
Distinct [] = Unit
Distinct (m ∷ ms) = Lacks m.user_id ms × Distinct ms

-- Each entry stands under its member's id, and no id has two.
abbrev Absent : String → MemberMap → Type 0
Absent k [] = Unit
Absent k ((j, m) ∷ ms) = (j ≢ k) × Absent k ms

abbrev IsKeyed : MemberMap → Type 0
IsKeyed [] = Unit
IsKeyed ((k, m) ∷ ms) = (m.user_id ≡ k) × Absent k ms × IsKeyed ms

Absent-set :
    (j k : String) (m : LobbyMember) (ms : MemberMap) → Absent j ms → k ≢ j → Absent j (set k m ms)
unfolding set
Absent-set j k m [] a h = (h, tt)
Absent-set j k m ((i, n) ∷ ms) (p, a) h = elim (Bool-cases (i == k)) [
  | inl same ↦ rw same (p, a)
  | inr other ↦ rw other (p, Absent-set j k m ms a h)
]

set-IsKeyed :
    (k : String) (m : LobbyMember) (ms : MemberMap)
    → m.user_id ≡ k
    → IsKeyed ms
    → IsKeyed (set k m ms)
unfolding set
set-IsKeyed k m [] e v = (e, tt, tt)
set-IsKeyed k m ((j, n) ∷ ms) e (p, a, v) = elim (Bool-cases (j == k)) [
  | inl same ↦ rw same (e ∙ sym ((eq_iff j k).0 same), a, v)
  | inr other ↦
      rw other (p, Absent-set j k m ms a (λ q. grind (arith, eq_iff j k)), set-IsKeyed k m ms e v)
]

get-set :
    (j k : String) (m : LobbyMember) (ms : MemberMap)
    → get j (set k m ms) ≡ (if k == j then some m else get j ms)
unfolding get set
get-set j k m [] = refl
get-set j k m ((i, n) ∷ ms) = ground (arith, eq_iff k j, eq_iff i k, eq_iff i j, get-set j k m ms)

kept_members-IsKeyed :
    (removed : List String) (ms : List LobbyMember) (kept : MemberMap)
    → IsKeyed kept
    → IsKeyed (kept_members removed ms kept)
unfolding kept_members
kept_members-IsKeyed removed [] kept v = v
kept_members-IsKeyed removed (m ∷ ms) kept v = elim (Bool-cases (has m.user_id removed)) [
  | inl gone ↦ rw gone (kept_members-IsKeyed removed ms kept v)
  | inr stays ↦
      rw stays (
        kept_members-IsKeyed removed ms (set m.user_id m kept)
          (set-IsKeyed m.user_id m kept refl v))
]

user_id-merge_over :
    (o : Option LobbyMember) (m : LobbyMember) → (merge_over o m).user_id ≡ m.user_id
unfolding merge_over
user_id-merge_over none m = refl
user_id-merge_over (some old) m = refl

upsert-IsKeyed :
    (ms : List LobbyMember) (kept : MemberMap) → IsKeyed kept → IsKeyed (upsert kept ms)
unfolding upsert
upsert-IsKeyed [] kept v = v
upsert-IsKeyed (m ∷ ms) kept v =
    upsert-IsKeyed ms (set m.user_id (merge_over (get m.user_id kept) m) kept)
      (set-IsKeyed m.user_id _ kept (user_id-merge_over (get m.user_id kept) m) v)

-- The map that is filtered and filled.
get-kept_members :
    (removed : List String) (ms : List LobbyMember) (kept : MemberMap) (k : String)
    → get k (kept_members removed ms kept) ≡ (
        if has k removed
        then get k kept
        else elim (view ms k) [ none ↦ get k kept | some n ↦ some n ])
unfolding kept_members
get-kept_members removed [] kept k = ground arith
get-kept_members removed (m ∷ ms) kept k = ground (
  arith,
  eq_iff m.user_id k,
  get-kept_members removed ms kept k,
  get-kept_members removed ms (set m.user_id m kept) k,
  get-set k m.user_id m kept,
)

put_all_cong :
    (ms : List LobbyMember) (v w : View)
    → ((k : String) → v k ≡ w k)
    → (k : String) → put_all ms v k ≡ put_all ms w k
put_all_cong [] v w h k = h k
put_all_cong (m ∷ ms) v w h k = put_all_cong ms (put m v) (put m w) (λ j. rw (h j) refl) k

get-put :
    (m : LobbyMember) (kept : MemberMap) (k : String)
    → get k (set m.user_id (merge_over (get m.user_id kept) m) kept) ≡ put m (λ j. get j kept) k
get-put m kept k = elim (Bool-cases (m.user_id == k)) [
  | inl same ↦ get-set k m.user_id _ kept ∙ rw (same, (eq_iff m.user_id k).0 same) refl
  | inr other ↦ get-set k m.user_id _ kept ∙ rw other refl
]

get-upsert :
    (ms : List LobbyMember) (kept : MemberMap) (k : String)
    → get k (upsert kept ms) ≡ put_all ms (λ j. get j kept) k
unfolding upsert
get-upsert [] kept k = refl
get-upsert (m ∷ ms) kept k =
    get-upsert ms (set m.user_id (merge_over (get m.user_id kept) m) kept) k
    ∙ put_all_cong ms _ _ (get-put m kept) k

get-Absent : (k : String) (ms : MemberMap) → Absent k ms → get k ms ≡ none
unfolding get
get-Absent k [] a = refl
get-Absent k ((j, m) ∷ ms) (p, a) = ground (arith, eq_iff j k, get-Absent k ms a)

view-values : (ms : MemberMap) (k : String) → IsKeyed ms → view (values ms) k ≡ get k ms
unfolding get values
view-values [] k v = refl
view-values ((j, m) ∷ ms) k (e, a, v) =
    ground (arith, eq_iff j k, eq_iff m.user_id k, view-values ms k v, get-Absent j ms a)

Lacks-values : (k : String) (ms : MemberMap) → Absent k ms → IsKeyed ms → Lacks k (values ms)
unfolding values
Lacks-values k [] a v = tt
Lacks-values k ((j, m) ∷ ms) (p, a) (e, b, v) = ((λ q. p (sym e ∙ q)), Lacks-values k ms a v)

Distinct-values : (ms : MemberMap) → IsKeyed ms → Distinct (values ms)
unfolding values
Distinct-values [] v = tt
Distinct-values ((k, m) ∷ ms) (e, a, v) =
    (subst (λ j. Lacks j (values ms)) (sym e) (Lacks-values k ms a v), Distinct-values ms v)

patched : List LobbyMember → List String → List LobbyMember → MemberMap
patched members removed added = upsert (kept_members removed members []) added

patched-IsKeyed :
    (members : List LobbyMember) (removed : List String) (added : List LobbyMember)
    → IsKeyed (patched members removed added)
unfolding patched
patched-IsKeyed members removed added =
    upsert-IsKeyed added _ (kept_members-IsKeyed removed members [] tt)

get-patched :
    (members : List LobbyMember) (removed : List String) (added : List LobbyMember) (k : String)
    → get k (patched members removed added) ≡ put_all added (remove_all removed (view members)) k
unfolding patched get
get-patched members removed added k =
    get-upsert added (kept_members removed members []) k
    ∙ put_all_cong added _ _ (λ j. get-kept_members removed members [] j ∙ ground arith) k

unchanged :
    (removed : Option (List String)) (added : Option (List LobbyMember)) (v : View) (k : String)
    → (is_nonempty added || is_nonempty removed) ≡ false
    → v k ≡ put_all (or_else added []) (remove_all (or_else removed []) v) k
unchanged none none v k h = refl
unchanged (some []) none v k h = refl
unchanged none (some []) v k h = refl
unchanged (some []) (some []) v k h = refl
unchanged removed added v k h = ground arith

-- After a patch of a lobby no two of whose members have one id, no two have, and the member of
-- each id is what the abstract map says: the members that the patch names for removal are away,
-- and each member that it brings is laid, field by field, over the one that is then there.
pub members-patch_lobby :
    (lobby : LobbySnapshot) (patch : LobbyPatch)
    → Distinct lobby.members
    → Distinct (patch_lobby lobby patch).members
      × ((k : String)
          → view (patch_lobby lobby patch).members k
            ≡ put_all
                (or_else patch.upsert_members [])
                (remove_all (or_else patch.remove_member_ids []) (view lobby.members))
                k)
unfolding patch_lobby patch_members patched
members-patch_lobby lobby patch d =
    let removed = or_else patch.remove_member_ids [] in
    let added = or_else patch.upsert_members [] in
    let keyed = patched-IsKeyed lobby.members removed added in
    elim (Bool-cases (is_nonempty patch.upsert_members || is_nonempty patch.remove_member_ids)) [
      | inl changes ↦ rw changes (
        Distinct-values (patched lobby.members removed added) keyed,
        λ k.
            view-values (patched lobby.members removed added) k keyed
            ∙ get-patched lobby.members removed added k,
      )
      | inr nothing ↦ rw nothing (
        d,
        λ k. unchanged patch.remove_member_ids patch.upsert_members (view lobby.members) k nothing,
      )
    ]
