-- ===== src/Scopes/Predicate.antt =====
-- `_scope_predicate` of context_cache/store.py: the `WHERE` clause that keeps a query to the
-- records that a selection may see, with SQL's rule that a comparison with NULL is not true.
use library_of_context.Prelude.{
  Bool, true, false, ◌||◌, ◌&&◌, ◌≡◌, refl, Option, none, some, List, [], ◌∷◌, if◌then◌else◌, arith,
  ok, option_beq,
}
use library_of_context.Models.{Str, str_eq}
use library_of_context.Dict.{elem}
use library_of_context.Text.{codes}
use library_of_context.Scopes.Defs.{
  ContextScope, thread, project, team, scope_eq, scope_beq, ScopeSelection, selection, allows,
  permits, in_teams,
}

-- One alternative of the predicate, with its parameters.
pub data Clause : Type 0 where
  owned_by : ContextScope → Str → Clause
  in_team : ContextScope → List Str → Clause
  anyone : ContextScope → Clause

-- `str(value)`
unfoldable pub py_str : Option Str → Str
py_str none = codes "None"
py_str (some s) = s

unfoldable pub clause : ScopeSelection → ContextScope → Clause
unfolding py_str
clause s thread = owned_by thread (py_str s.session_id)
clause s team = in_team team s.team_ids
clause s project = anyone project

-- The clauses that the loop collects, joined by OR.
unfoldable pub scope_predicate : ScopeSelection → List ContextScope → List Clause
unfolding clause
scope_predicate s [] = []
scope_predicate s (scope ∷ scopes) = clause s scope ∷ scope_predicate s scopes

-- `column = ?`, for a column that may be NULL
unfoldable pub sql_eq : Option Str → Str → Bool
sql_eq none value = false
sql_eq (some column) value = str_eq.beq column value

unfoldable pub clause_holds : Clause → ContextScope → Option Str → Option Str → Bool
unfolding sql_eq in_teams
clause_holds (owned_by wanted owner) scope owner_session_id team_id =
    scope_beq scope wanted && sql_eq owner_session_id owner
clause_holds (in_team wanted teams) scope owner_session_id team_id =
    scope_beq scope wanted && in_teams team_id teams
clause_holds (anyone wanted) scope owner_session_id team_id = scope_beq scope wanted

unfoldable pub predicate_holds : List Clause → ContextScope → Option Str → Option Str → Bool
unfolding clause_holds
predicate_holds [] scope owner_session_id team_id = false
predicate_holds (c ∷ clauses) scope owner_session_id team_id =
    clause_holds c scope owner_session_id team_id
    || predicate_holds clauses scope owner_session_id team_id

-- What a checked selection has.
pub selection-ok :
    (scopes : List ContextScope) (session_id : Option Str) (team_ids : List Str)
    {s : ScopeSelection}
    → selection scopes session_id team_ids ≡ ok s
    → (s ≡ record { scopes = scopes; session_id = session_id; team_ids = team_ids })
      × (elem thread scopes ≡ true → (i : Str) × (session_id ≡ some i))
unfolding selection
selection-ok scopes none team_ids h = (ground arith, λ t. absurd (ground (arith, t)))
selection-ok scopes (some i) team_ids h = (ground arith, λ t. (i, refl))

clause_lem :
    (s : ScopeSelection) (c scope : ContextScope) (owner team_id : Option Str)
    → (c ≡ thread → (i : Str) × (s.session_id ≡ some i))
    → clause_holds (clause s c) scope owner team_id
      ≡ (scope_beq scope c && permits s scope owner team_id)
unfolding clause_holds clause permits option_beq scope_beq
clause_lem s thread scope owner team_id h = let (i, e) = h refl in ground (arith, e)
clause_lem s project scope owner team_id h = ground arith
clause_lem s team scope owner team_id h = ground arith

predicate_lem :
    (s : ScopeSelection) (scopes : List ContextScope) (scope : ContextScope)
    (owner team_id : Option Str)
    → (elem thread scopes ≡ true → (i : Str) × (s.session_id ≡ some i))
    → predicate_holds (scope_predicate s scopes) scope owner team_id
      ≡ (if elem scope scopes then permits s scope owner team_id else false)
unfolding predicate_holds scope_predicate elem
predicate_lem s [] scope owner team_id h = refl
predicate_lem s (c ∷ scopes) scope owner team_id h = ground (
  arith,
  clause_lem s c scope owner team_id (λ e. h (ground (arith, scope_eq.beq_iff c thread))),
  predicate_lem s scopes scope owner team_id (λ e. h (ground arith)),
  scope_eq.beq_iff c scope,
  scope_eq.beq_iff scope c,
)

-- For every selection that passed validation, the rows that the SQL predicate lets through are
-- exactly the records that `allows` permits.
pub predicate-allows :
    (scopes : List ContextScope) (session_id : Option Str) (team_ids : List Str)
    {s : ScopeSelection}
    → selection scopes session_id team_ids ≡ ok s
    → (scope : ContextScope) (owner team_id : Option Str)
    → predicate_holds (scope_predicate s s.scopes) scope owner team_id
      ≡ allows s scope owner team_id
unfolding allows
predicate-allows scopes session_id team_ids {s} h scope owner team_id =
    let facts = selection-ok scopes session_id team_ids h in
    let t : elem thread s.scopes ≡ true → (i : Str) × (s.session_id ≡ some i) =
      λ m. let (i, e) = facts.1 (ground (arith, facts.0)) in (i, ground (arith, facts.0)) in
    predicate_lem s s.scopes scope owner team_id t
