-- ===== src/Store/Positions.antt =====
-- Rows by their position in a table.
use library_of_context.Prelude.{
  ℕ, zero, suc, ◌<◌, ◌≡◌, refl, ◌⊎◌, inl, inr, Bool, false, Option, none, some, List, [], ◌∷◌, ◌++◌,
  if◌then◌else◌, length, arith,
}
use library_of_context.Store.Rows.{update_where, exists_where, find_where}

abbrev pub get_elem? {ℓ} : {A : Type ℓ} → List A → ℕ → Option A
get_elem? [] i = none
get_elem? (x ∷ xs) zero = some x
get_elem? (x ∷ xs) (suc i) = get_elem? xs i

module _ {ℓ} {A : Type ℓ} where
  pub get-update :
      (p : A → Bool) (f : A → A) (rows : List A) (i : ℕ) (q : A)
      → get_elem? (update_where p f rows) i ≡ some q
      → (o : A) × (get_elem? rows i ≡ some o) × (q ≡ (if p o then f o else o))
  unfolding update_where
  get-update p f [] i q h = absurd (ground (arith, h))
  get-update p f (o ∷ rows) zero q h = (o, refl, ground arith)
  get-update p f (o ∷ rows) (suc i) q h = get-update p f rows i q h

  pub exists-none :
      (p : A → Bool) (rows : List A) (i : ℕ) (o : A)
      → exists_where p rows ≡ false
      → get_elem? rows i ≡ some o
      → p o ≡ false
  unfolding exists_where
  exists-none p [] i o h g = absurd (ground (arith, g))
  exists-none p (x ∷ rows) zero o h g = ground arith
  exists-none p (x ∷ rows) (suc i) o h g = exists-none p rows i o (ground arith) g

  pub find-none :
      (p : A → Bool) (rows : List A) (i : ℕ) (o : A)
      → find_where p rows ≡ none
      → get_elem? rows i ≡ some o
      → p o ≡ false
  unfolding find_where
  find-none p [] i o h g = absurd (ground (arith, g))
  find-none p (x ∷ rows) zero o h g = ground arith
  find-none p (x ∷ rows) (suc i) o h g = find-none p rows i o (ground arith) g

  pub get-snoc :
      (rows : List A) (x : A) (i : ℕ) (q : A)
      → get_elem? (rows ++ x ∷ []) i ≡ some q
      → ((get_elem? rows i ≡ some q) × (i < length rows)) ⊎ ((q ≡ x) × (i ≡ length rows))
  get-snoc [] x zero q h = inr (ground arith)
  get-snoc [] x (suc i) q h = absurd (ground (arith, h))
  get-snoc (y ∷ rows) x zero q h = inl (ground arith)
  get-snoc (y ∷ rows) x (suc i) q h = elim (get-snoc rows x i q h) [
    | inl old ↦ inl (old.0, ground arith)
    | inr new ↦ inr (new.0, ground arith)
  ]

  pub get-lt-length : (rows : List A) (i : ℕ) (q : A) → get_elem? rows i ≡ some q → i < length rows
  get-lt-length [] i q h = absurd (ground (arith, h))
  get-lt-length (y ∷ rows) zero q h = ground arith
  get-lt-length (y ∷ rows) (suc i) q h = ground (arith, get-lt-length rows i q h)

  pub length-update :
      (p : A → Bool) (f : A → A) (rows : List A) → length (update_where p f rows) ≡ length rows
  unfolding update_where
  length-update p f [] = refl
  length-update p f (x ∷ rows) = ground (arith, length-update p f rows)

  pub get-append_old :
      (rows : List A) (x : A) (i : ℕ) (q : A)
      → get_elem? rows i ≡ some q
      → get_elem? (rows ++ x ∷ []) i ≡ some q
  get-append_old [] x i q h = absurd (ground (arith, h))
  get-append_old (y ∷ rows) x zero q h = h
  get-append_old (y ∷ rows) x (suc i) q h = get-append_old rows x i q h

  pub get-append_new :
      (rows : List A) (x : A) (i : ℕ) → i ≡ length rows → get_elem? (rows ++ x ∷ []) i ≡ some x
  get-append_new [] x zero h = refl
  get-append_new [] x (suc i) h = absurd (omega arith)
  get-append_new (y ∷ rows) x zero h = absurd (omega arith)
  get-append_new (y ∷ rows) x (suc i) h = get-append_new rows x i (omega arith)

  pub get-exists : (rows : List A) (i : ℕ) → i < length rows → (q : A) × (get_elem? rows i ≡ some q)
  get-exists [] i h = absurd (omega arith)
  get-exists (y ∷ rows) zero h = (y, refl)
  get-exists (y ∷ rows) (suc i) h = get-exists rows i (omega arith)
