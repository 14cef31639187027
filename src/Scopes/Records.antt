-- ===== src/Scopes/Records.antt =====
-- The scopes of records, and the selections of threads.
use library_of_context.Prelude.{
  Bool, true, false, ◌≡◌, ◌⊎◌, value_error, refl, Option, none, some, List, [], ◌∷◌, if◌then◌else◌,
  arith, ok, raise, option_beq,
}
use library_of_context.Models.{Str, str_eq}
use library_of_context.Dict.{elem}
use library_of_context.Scopes.Defs.{
  ContextScope, thread, project, team, scope_eq, scope_beq, ScopeSelection, allows, permits,
  in_teams, validate_identifier, validate_record_scope, for_thread, to_set, is_nil,
}
use library_of_context.Scopes.Predicate.{selection-ok}

-- The shape that each scope gives to the owner and the team of a record.
abbrev pub HasOwner : ContextScope → Option Str → Option Str → Type 0
HasOwner thread owner team_id =
    (i : Str) × (owner ≡ some i) × (validate_identifier i ≡ ok i) × (team_id ≡ none)
HasOwner team owner team_id =
    (owner ≡ none) × ((t : Str) × (team_id ≡ some t) × (validate_identifier t ≡ ok t))
HasOwner project owner team_id = (owner ≡ none) × (team_id ≡ none)

validate_identifier-cases :
    (s : Str) → (validate_identifier s ≡ ok s) ⊎ (validate_identifier s ≡ raise value_error)
unfolding validate_identifier
validate_identifier-cases s = ground arith

-- A record that passes validation keeps its scope. It has an owner exactly if its scope is the
-- thread, a team exactly if its scope is the team, both valid identifiers, and it passes the
-- validation again unchanged.
pub validate_record_scope-ok :
    (scope : ContextScope) (owner team_id : Option Str) {scope' : ContextScope}
    {owner' team_id' : Option Str}
    → validate_record_scope scope owner team_id ≡ ok (scope', owner', team_id')
    → (scope' ≡ scope)
      × HasOwner scope owner' team_id'
      × (validate_record_scope scope' owner' team_id' ≡ ok (scope', owner', team_id'))
unfolding validate_record_scope
validate_record_scope-ok thread none team_id h = absurd (ground (arith, h))
validate_record_scope-ok thread (some o) team_id h = (
  ground (arith, validate_identifier-cases o),
  (o, ground arith, ground (arith, validate_identifier-cases o), ground arith),
  ground arith,
)
validate_record_scope-ok team owner none h = absurd (ground (arith, h))
validate_record_scope-ok team owner (some t) h = (
  ground arith,
  (ground arith, (t, ground arith, ground (arith, validate_identifier-cases t))),
  ground arith,
)
validate_record_scope-ok project owner team_id h =
    (ground arith, (ground arith, ground arith), ground arith)

elem-to_set : (t : Str) (ts : List Str) → elem t (to_set ts) ≡ elem t ts
unfolding to_set elem
elem-to_set t [] = refl
elem-to_set t (u ∷ ts) = ground (arith, elem-to_set t ts, elem-to_set u ts, str_eq.beq_iff u t)

is_nil-elem : (t : Str) (ts : List Str) → is_nil ts ≡ true → elem t ts ≡ false
unfolding is_nil elem
is_nil-elem t [] h = refl
is_nil-elem t (u ∷ ts) h = ground arith

in_teams-to_set :
    (team_id : Option Str) (ts : List Str) → in_teams team_id (to_set ts) ≡ in_teams team_id ts
unfolding in_teams
in_teams-to_set none ts = refl
in_teams-to_set (some t) ts = elem-to_set t ts

in_teams-nil :
    (team_id : Option Str) (ts : List Str) → is_nil ts ≡ true → in_teams team_id ts ≡ false
unfolding in_teams
in_teams-nil none ts h = refl
in_teams-nil (some t) ts h = is_nil-elem t ts h

-- What the selection of a thread shows: of thread records those that its own session owns, project
-- records if they are included, and of team records those of the teams that were passed in.
abbrev pub visible_to : Str → Bool → List Str → ContextScope → Option Str → Option Str → Bool
visible_to session_id include_project team_ids thread owner team_id =
    option_beq owner (some session_id)
visible_to session_id include_project team_ids project owner team_id = include_project
visible_to session_id include_project team_ids team owner team_id = in_teams team_id team_ids

-- Whenever `for_thread` returns a selection, the selection allows exactly the records of the scope
-- thread with that owner, those of the project where it is included, and those of the given teams.
pub for_thread-allows :
    (session_id : Str) (include_project : Bool) (team_ids : List Str) {s : ScopeSelection}
    → for_thread session_id include_project team_ids ≡ ok s
    → (scope : ContextScope) (owner team_id : Option Str)
    → allows s scope owner team_id
      ≡ visible_to session_id include_project team_ids scope owner team_id
unfolding for_thread allows permits elem scope_beq
for_thread-allows session_id include_project team_ids {s} h scope owner team_id =
    let teams = to_set team_ids in
    let tail = if is_nil teams then [] else team ∷ [] in
    let scopes = thread ∷ (if include_project then project ∷ tail else tail) in
    let fields = selection-ok scopes (some session_id) teams h in
    rw (fields.0) (ground (arith, in_teams-to_set team_id team_ids, in_teams-nil team_id teams))
