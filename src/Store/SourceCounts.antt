-- ===== src/Store/SourceCounts.antt =====
-- What `list_source_records`, `count_source` and `delete_source` say about the same records.
use mathlib.Core.List.{reverse-cons}
use library_of_context.Prelude.{
  ℕ, ◌+◌, ◌≡◌, refl, zero, suc, true, false, inl, inr, Bool-cases, Bool, not, ◌&&◌, Option, none,
  some, List, [], ◌∷◌, min, length, length-take, length-append, take, keep, map, reverse, arith,
}
use library_of_context.Models.{Str, str_eq}
use library_of_context.Dict.{elem}
use library_of_context.Store.Positions.{get_elem?}
use library_of_context.Scopes.{ScopeSelection}
use library_of_context.Store.Rows.{count_where, order_by, insert_ordered}
use library_of_context.Store.Tables.{Store, ContextRecord}
use library_of_context.Store.Records.{delete_where, has_expired}
use library_of_context.Store.Sources.{
  list_source_records, count_source, delete_source, of_source, created_after,
}

module _ {ℓ} {A : Type ℓ} where
  length-insert :
      (before : A → A → Bool) (x : A) (rows : List A)
      → length (insert_ordered before x rows) ≡ length rows + 1
  unfolding insert_ordered
  length-insert before x [] = ground arith
  length-insert before x (y ∷ rows) = ground (arith, length-insert before x rows)

  length-order_by :
      (before : A → A → Bool) (rows : List A) → length (order_by before rows) ≡ length rows
  unfolding order_by
  length-order_by before [] = refl
  length-order_by before (x ∷ rows) =
      ground (arith, length-order_by before rows, length-insert before x (order_by before rows))

  length-keep_count : (p : A → Bool) (rows : List A) → length (keep p rows) ≡ count_where p rows
  unfolding count_where
  length-keep_count p [] = refl
  length-keep_count p (x ∷ rows) = ground (arith, length-keep_count p rows)

  length-map {κ} : {B : Type κ} (f : A → B) (rows : List A) → length (map f rows) ≡ length rows
  length-map f [] = refl
  length-map f (x ∷ rows) = ground (arith, length-map f rows)

  length-reverse : (rows : List A) → length (reverse rows) ≡ length rows
  length-reverse [] = refl
  length-reverse (x ∷ rows) =
      ground
        (arith, reverse-cons x rows, length-append (reverse rows) (x ∷ []), length-reverse rows)

module _ {ℓ} {A : Type ℓ} where
  cons-from :
      (p : A → Bool) (x : A) (kept rows : List A)
      → p x ≡ true
      → ((k : ℕ) (r : A)
          → get_elem? kept k ≡ some r
          → (i : ℕ) × (get_elem? rows i ≡ some r) × (p r ≡ true))
      → (k : ℕ) (r : A) → get_elem? (x ∷ kept) k ≡ some r
      → (i : ℕ) × (get_elem? (x ∷ rows) i ≡ some r) × (p r ≡ true)
  cons-from p x kept rows pass rest zero r g = (0, g, ground (arith, g, pass))
  cons-from p x kept rows pass rest (suc k) r g =
      let (i, gi, also) = rest k r g in (suc i, gi, also)

  -- The rows that `keep` keeps are the rows that pass.
  keep-from :
      (p : A → Bool) (rows : List A) (k : ℕ) (r : A)
      → get_elem? (keep p rows) k ≡ some r
      → (i : ℕ) × (get_elem? rows i ≡ some r) × (p r ≡ true)
  keep-from p [] k r g = absurd (ground (arith, g))
  keep-from p (x ∷ rows) k r g = elim (Bool-cases (p x)) [
    | inr out ↦ let (i, gi, pass) = keep-from p rows k r (rw out at g) in (suc i, gi, pass)
    | inl pass ↦ cons-from p x (keep p rows) rows pass (keep-from p rows) k r (rw pass at g)
  ]

  keep-to :
      (p : A → Bool) (rows : List A) (i : ℕ) (r : A)
      → get_elem? rows i ≡ some r
      → p r ≡ true
      → (k : ℕ) × (get_elem? (keep p rows) k ≡ some r)
  keep-to p [] i r g pass = absurd (ground (arith, g))
  keep-to p (x ∷ rows) zero r g pass = (0, ground (arith, g, pass))
  keep-to p (x ∷ rows) (suc i) r g pass =
      let (k, gk) = keep-to p rows i r g pass in
      elim (Bool-cases (p x)) [ inl kept ↦ (suc k, rw kept gk) | inr out ↦ (k, rw out gk) ]

  count-split :
      (p q : A → Bool) (rows : List A)
      → count_where p rows
        ≡ count_where (λ r. p r && not (q r)) rows + count_where (λ r. p r && q r) rows
  unfolding count_where
  count-split p q [] = refl
  count-split p q (x ∷ rows) = ground (arith, count-split p q rows)

ids-from :
    (rows : List ContextRecord) (id : Str)
    → elem id (map (λ (r : ContextRecord). r.id) rows) ≡ true
    → (k : ℕ) × (r : ContextRecord) × (get_elem? rows k ≡ some r) × (r.id ≡ id)
unfolding elem
ids-from [] id h = absurd (ground (arith, h))
ids-from (x ∷ rows) id h = elim (Bool-cases (str_eq.beq x.id id)) [
  | inl hit ↦ (0, x, refl, ground (arith, hit, str_eq.beq_iff x.id id))
  | inr other ↦ let (k, r, g, e) = ids-from rows id (ground (arith, h, other)) in (suc k, r, g, e)
]

ids-to :
    (rows : List ContextRecord) (k : ℕ) (r : ContextRecord)
    → get_elem? rows k ≡ some r
    → elem r.id (map (λ (r : ContextRecord). r.id) rows) ≡ true
unfolding elem
ids-to [] k r g = absurd (ground (arith, g))
ids-to (x ∷ rows) zero r g = ground (arith, g, str_eq.beq_iff r.id r.id)
ids-to (x ∷ rows) (suc k) r g = ground (arith, ids-to rows k r g)

none_left :
    (p q : ContextRecord → Bool) (rows : List ContextRecord)
    → count_where (λ r. p r && q r) (delete_where p rows) ≡ 0
unfolding delete_where count_where
none_left p q [] = refl
none_left p q (r ∷ rows) = ground (arith, none_left p q rows)

-- Under one clock: the list of a source has as many records as `count_source` counts, or the limit
-- if that is less. `delete_source` answers with one identifier for each of these and for each
-- expired record of the source: with the identifiers of the source's records and no others. The
-- records that stay are the records of the store that are not of the source, and afterwards
-- `count_source` counts none, whatever the clock.
pub delete_source_lem :
    (now : ℕ) (s : Store) (namespace source : Str) (selection : Option ScopeSelection)
    → (length (list_source_records now s namespace source none selection)
        ≡ count_source now s namespace source selection)
      × ((limit : ℕ)
          → length (list_source_records now s namespace source (some limit) selection)
            ≡ min limit (count_source now s namespace source selection))
      × (length (delete_source s namespace source selection).1
          ≡ count_source now s namespace source selection
            + count_where
                (λ r. of_source namespace source selection r && has_expired now r)
                s.records)
      × ((i : ℕ) (r : ContextRecord)
          → get_elem? s.records i ≡ some r
          → of_source namespace source selection r ≡ true
          → elem r.id (delete_source s namespace source selection).1 ≡ true)
      × ((id : Str)
          → elem id (delete_source s namespace source selection).1 ≡ true
          → (i : ℕ) × (r : ContextRecord) × (get_elem? s.records i ≡ some r)
            × (of_source namespace source selection r ≡ true)
            × (r.id ≡ id))
      × ((i : ℕ) (r : ContextRecord)
          → get_elem? s.records i ≡ some r
          → of_source namespace source selection r ≡ false
          → (k : ℕ) × (get_elem? (delete_source s namespace source selection).0.records k ≡ some r))
      × ((k : ℕ) (r : ContextRecord)
          → get_elem? (delete_source s namespace source selection).0.records k ≡ some r
          → (i : ℕ) × (get_elem? s.records i ≡ some r)
            × (of_source namespace source selection r ≡ false))
      × ((later : ℕ)
          → count_source later
              (delete_source s namespace source selection).0
              namespace
              source
              selection
            ≡ 0)
unfolding list_source_records count_source delete_source delete_where
delete_source_lem now s namespace source selection =
    let chosen = of_source namespace source selection in
    let fresh : ContextRecord → Bool = λ r. chosen r && not (has_expired now r) in
    let rows = keep fresh s.records in
    let sorted = order_by created_after rows in
    let gone = keep chosen s.records in
    (
      cc (
        length-reverse sorted,
        length-order_by created_after rows,
        length-keep_count fresh s.records,
      ),
      λ limit. ground (
        arith,
        length-reverse (take limit sorted),
        length-take limit sorted,
        length-order_by created_after rows,
        length-keep_count fresh s.records,
      ),
      ground (
        arith,
        length-map (λ (r : ContextRecord). r.id) gone,
        length-keep_count chosen s.records,
        count-split chosen (has_expired now) s.records,
      ),
      λ i r g mine. let (k, gk) = keep-to chosen s.records i r g mine in ids-to gone k r gk,
      λ id named.
          let (k, r, gk, e) = ids-from gone id named in
          let (i, gi, mine) = keep-from chosen s.records k r gk in (i, r, gi, mine, e),
      λ i r g other. keep-to (λ q. not (chosen q)) s.records i r g (ground (arith, other)),
      λ k r g.
          let (i, gi, kept) = keep-from (λ q. not (chosen q)) s.records k r g in
          (i, gi, ground (arith, kept)),
      λ later. none_left chosen (λ r. not (has_expired later r)) s.records,
    )
