-- ===== src/Scopes/Defs.antt =====
-- The data types and functions of context_cache/scopes.py. Constructors that validate return a
-- result. The name that an error message would show is left out.
use library_of_context.Prelude.{
  Bool, true, false, not, ◌||◌, ◌&&◌, ◌≡◌, ◌↔◌, Option, none, some, List, [], ◌∷◌, ltb, ◌==◌,
  if◌then◌else◌, length, arith, Eq, Result, ok, raise, raise_if, ◌>>=◌, ◌>>◌, value_error,
  option_beq,
}
use library_of_context.Models.{Str, str_eq}
use library_of_context.Dict.{elem}
use library_of_context.Text.{codes, is_space, rstrip}

pub data ContextScope : Type 0 where
  thread project team : ContextScope

unfoldable pub scope_beq : ContextScope → ContextScope → Bool
scope_beq thread thread = true
scope_beq project project = true
scope_beq team team = true
scope_beq _ _ = false

pub scope_beq_iff : (a b : ContextScope) → (scope_beq a b ≡ true) ↔ (a ≡ b)
unfolding scope_beq
scope_beq_iff a b = ground arith

instance abbrev pub scope_eq : Eq ContextScope
scope_eq = record { beq = scope_beq; beq_iff = scope_beq_iff }

-- `ContextScope(value)`
unfoldable pub context_scope : Str → Result ContextScope
context_scope value =
    if str_eq.beq value (codes "thread")
    then ok thread
    else if str_eq.beq value (codes "project")
    then ok project
    else if str_eq.beq value (codes "team")
    then ok team
    else raise value_error

unfoldable pub lstrip : Str → Str
unfolding is_space
lstrip [] = []
lstrip (c ∷ text) = let rest = lstrip text in if is_space c then rest else c ∷ text

unfoldable pub strip : Str → Str
unfolding lstrip rstrip
strip text = rstrip (lstrip text)

unfoldable pub is_empty : Str → Bool
is_empty [] = true
is_empty (c ∷ text) = false

unfoldable pub has_control : Str → Bool
has_control [] = false
has_control (c ∷ text) = ltb c 32 || c == 127 || has_control text

unfoldable pub validate_identifier : Str → Result Str
unfolding strip is_empty has_control
validate_identifier value = do
  raise_if (is_empty (strip value)) value_error
  raise_if (ltb 512 (length value)) value_error
  raise_if (has_control value) value_error
  ok value

pub record ThreadKey : Type 0 where
  pub collection : Str
  pub session_id : Str

unfoldable pub thread_key_beq : ThreadKey → ThreadKey → Bool
thread_key_beq a b = str_eq.beq a.collection b.collection && str_eq.beq a.session_id b.session_id

pub thread_key_beq_iff : (a b : ThreadKey) → (thread_key_beq a b ≡ true) ↔ (a ≡ b)
unfolding thread_key_beq
thread_key_beq_iff a b =
    ground
      (arith, str_eq.beq_iff a.collection b.collection, str_eq.beq_iff a.session_id b.session_id)

instance abbrev pub thread_key_eq : Eq ThreadKey
thread_key_eq = record { beq = thread_key_beq; beq_iff = thread_key_beq_iff }

-- `ThreadKey(collection, session_id)`, with `__post_init__`
unfoldable pub thread_key : Str → Str → Result ThreadKey
thread_key collection session_id = do
  valid_collection ← validate_identifier collection
  valid_session ← validate_identifier session_id
  ok (record { collection = collection; session_id = session_id })

pub record ScopeSelection : Type 0 where
  pub scopes : List ContextScope
  pub session_id : Option Str
  pub team_ids : List Str

-- `len(set(scopes)) != len(scopes)`
unfoldable pub has_duplicates : List ContextScope → Bool
has_duplicates [] = false
has_duplicates (s ∷ scopes) = elem s scopes || has_duplicates scopes

unfoldable pub validate_all : List Str → Result (Unit {0})
validate_all [] = ok tt
validate_all (t ∷ team_ids) = validate_identifier t >>= λ _. validate_all team_ids

-- `if ContextScope.THREAD in self.scopes: …`
unfoldable pub check_session : List ContextScope → Option Str → Result (Unit {0})
check_session scopes none = raise_if (elem thread scopes) value_error
check_session scopes (some session_id) =
    if elem thread scopes then (validate_identifier session_id >>= λ _. ok tt) else ok tt

unfoldable pub is_nil : List Str → Bool
is_nil [] = true
is_nil (t ∷ ts) = false

-- `ScopeSelection(scopes, session_id, team_ids)`, with `__post_init__`
unfoldable pub selection : List ContextScope → Option Str → List Str → Result ScopeSelection
unfolding check_session is_nil has_duplicates
selection scopes session_id team_ids = do
  raise_if (ltb (length scopes) 1) value_error
  raise_if (has_duplicates scopes) value_error
  check_session scopes session_id
  raise_if (elem team scopes && is_nil team_ids) value_error
  validate_all team_ids
  ok (record { scopes = scopes; session_id = session_id; team_ids = team_ids })

unfoldable pub parse_scopes : List Str → Result (List ContextScope)
unfolding context_scope
parse_scopes [] = ok []
parse_scopes (s ∷ rest) = do
  scope ← context_scope s
  scopes ← parse_scopes rest
  ok (scope ∷ scopes)

-- `frozenset(...)`
unfoldable pub to_set : List Str → List Str
to_set [] = []
to_set (t ∷ ts) = let rest = to_set ts in if elem t rest then rest else t ∷ rest

unfoldable pub resolve : Option (List Str) → Option Str → List Str → Result ScopeSelection
unfolding parse_scopes to_set
resolve none session_id team_ids = selection (project ∷ []) session_id (to_set team_ids)
resolve (some scopes) session_id team_ids =
    parse_scopes scopes >>= λ selected. selection selected session_id (to_set team_ids)

unfoldable pub for_thread : Str → Bool → List Str → Result ScopeSelection
unfolding to_set is_nil
for_thread session_id include_project team_ids =
    let authorized_teams = to_set team_ids in
    let tail = if is_nil authorized_teams then [] else team ∷ [] in
    selection (thread ∷ (if include_project then project ∷ tail else tail)) (some session_id)
      authorized_teams

unfoldable pub in_teams : Option Str → List Str → Bool
in_teams none team_ids = false
in_teams (some t) team_ids = elem t team_ids

-- The three cases of `allows`, once the scope is known to be selected.
unfoldable pub permits : ScopeSelection → ContextScope → Option Str → Option Str → Bool
unfolding in_teams
permits s thread owner_session_id team_id = option_beq owner_session_id s.session_id
permits s team owner_session_id team_id = in_teams team_id s.team_ids
permits s project owner_session_id team_id = true

unfoldable pub allows : ScopeSelection → ContextScope → Option Str → Option Str → Bool
unfolding permits
allows s scope owner_session_id team_id =
    if elem scope s.scopes then permits s scope owner_session_id team_id else false

-- `not value`, for a string that may be `None`
unfoldable pub is_blank : Option Str → Bool
unfolding is_empty
is_blank none = true
is_blank (some s) = is_empty s

unfoldable pub validate_record_scope :
    ContextScope → Option Str → Option Str → Result (ContextScope × Option Str × Option Str)
unfolding is_blank
validate_record_scope thread none team_id = raise value_error
validate_record_scope thread (some owner) team_id = do
  raise_if (is_empty owner) value_error
  validate_identifier owner >>= λ _. raise_if (not (is_blank team_id)) value_error
  ok (thread, some owner, none)
validate_record_scope team owner none = raise value_error
validate_record_scope team owner (some t) = do
  raise_if (is_empty t) value_error
  validate_identifier t >>= λ _. raise_if (not (is_blank owner)) value_error
  ok (team, none, some t)
validate_record_scope project owner team_id = do
  raise_if (not (is_blank owner) || not (is_blank team_id)) value_error
  ok (project, none, none)
