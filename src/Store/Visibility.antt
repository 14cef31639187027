-- ===== src/Store/Visibility.antt =====
-- Which records a caller may read, and what an upsert may change of a record.
use library_of_context.Prelude.{
  ℕ, suc, ◌≡◌, refl, inl, inr, Bool, true, false, ◌&&◌, Option, some, List, [], ◌∷◌, ◌++◌, keep,
  All, arith, Bool-cases, Option-cases, ok, option_beq_iff,
}
use library_of_context.Models.{Str, str_eq}
use library_of_context.Scopes.{ContextScope, ScopeSelection, selection, allows, scope_eq}
use library_of_context.Scopes.Predicate.{predicate-allows}
use library_of_context.Store.Rows.{find_where, update_where}
use library_of_context.Store.Tables.{Store, ContextRecord, is_record}
use library_of_context.Store.Positions.{get_elem?, get-append_old}
use library_of_context.Store.Invariant.{get-update_of}
use library_of_context.Store.Records.{
  has_expired, is_visible, get_visible, upsert_record, updated_row, same_visibility,
}

find-hit {ℓ} :
    {A : Type ℓ} (p : A → Bool) (rows : List A) (x : A)
    → find_where p rows ≡ some x
    → (p x ≡ true) × ((i : ℕ) × (get_elem? rows i ≡ some x))
unfolding find_where
find-hit p [] x h = absurd (ground (arith, h))
find-hit p (y ∷ rows) x h = elim (Bool-cases (p y)) [
  | inl hit ↦ let e : some y ≡ some x = rw hit at h in (ground (arith, e, hit), (0, e))
  | inr miss ↦ let (q, (i, g)) = find-hit p rows x (rw miss at h) in (q, (suc i, g))
]

-- With a valid selection: a record that `get_visible` returns has the namespace and the identifier
-- asked for, has not expired, and the selection allows it.
pub get_visible-allows :
    (scopes : List ContextScope) (session_id : Option Str) (team_ids : List Str)
    (c : ScopeSelection)
    → selection scopes session_id team_ids ≡ ok c
    → (now : ℕ) (s t : Store) (namespace id : Str) (r : ContextRecord)
    → get_visible now s namespace id c ≡ (t, some r)
    → (r.namespace ≡ namespace)
      × (r.id ≡ id)
      × (has_expired now r ≡ false)
      × (allows c r.scope r.owner_session_id r.team_id ≡ true)
unfolding get_visible is_visible is_record
get_visible-allows scopes session_id team_ids c valid now s t namespace id r h =
    let p : ContextRecord → Bool = λ r. is_record namespace id r && is_visible c r in
    elim (Option-cases (find_where p s.records)) [
      | inl absent ↦ absurd (ground (arith, h, absent))
      | inr (x, found) ↦
          let hit = (find-hit p s.records x found).0 in
          elim (Bool-cases (has_expired now x)) [
            | inl old ↦ absurd (ground (arith, h, found))
            | inr fresh ↦
                let same : x ≡ r = ground (arith, h, found) in
                (
                  ground (arith, same, hit, str_eq.beq_iff x.namespace namespace),
                  ground (arith, same, hit, str_eq.beq_iff x.id id),
                  ground (arith, same, fresh),
                  ground (
                    arith,
                    same,
                    hit,
                    predicate-allows scopes session_id team_ids valid x.scope x.owner_session_id
                        x.team_id,
                  ),
                )
          ]
    ]

All-keep {ℓ} : {A : Type ℓ} (p : A → Bool) (rows : List A) → All (λ r. p r ≡ true) (keep p rows)
All-keep p [] = tt
All-keep p (x ∷ rows) = elim (Bool-cases (p x)) [
  | inl hit ↦ rw hit (hit, All-keep p rows)
  | inr miss ↦ rw miss (All-keep p rows)
]

-- A record that an upsert finds keeps its place, its key, its creation time and its visibility.
pub upsert-keeps_visibility :
    (s t : Store) (r : ContextRecord) (identity : Option (Str × Str))
    → upsert_record s r identity ≡ ok t
    → (i : ℕ) (old : ContextRecord) → get_elem? s.records i ≡ some old
    → (new : ContextRecord) × (get_elem? t.records i ≡ some new)
      × (new.namespace ≡ old.namespace)
      × (new.id ≡ old.id)
      × (new.created_at ≡ old.created_at)
      × (same_visibility new old ≡ true)
unfolding upsert_record
upsert-keeps_visibility s t r identity h i old g =
    let p = is_record r.namespace r.id in
    let self : same_visibility old old ≡ true =
      unfold same_visibility in
      ground (
        arith,
        scope_eq.beq_iff old.scope old.scope,
        option_beq_iff old.owner_session_id old.owner_session_id,
        option_beq_iff old.team_id old.team_id,
      ) in
    elim (Option-cases (find_where p s.records)) [
      | inl absent ↦
          let rows : t.records ≡ s.records ++ r ∷ [] = ground arith in
          (old, rw rows (get-append_old s.records r i old g), refl, refl, refl, self)
      | inr (x, found) ↦
          let rows : t.records ≡ update_where p (updated_row r) s.records = ground arith in
          let row = get-update_of p (updated_row r) s.records i old g in
          elim (Bool-cases (p old)) [
            | inl hit ↦ (
              updated_row r old,
              rw rows (rw hit at row),
              unfold updated_row is_record in
                  ground (arith, hit, str_eq.beq_iff old.namespace r.namespace),
              unfold updated_row is_record in ground (arith, hit, str_eq.beq_iff old.id r.id),
              unfold updated_row in refl,
              unfold updated_row same_visibility in self,
            )
            | inr miss ↦ (old, rw rows (rw miss at row), refl, refl, refl, self)
          ]
    ]
