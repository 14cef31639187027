-- ===== src/Dict/Sums.antt =====
-- Sizes and sums over the items of a dictionary.
use library_of_context.Prelude.{
  ℕ, ◌+◌, ◌≤◌, false, ◌≡◌, refl, none, some, [], ◌∷◌, arith, Eq, length, sum_by,
}
use library_of_context.Dict.Defs.{Dict, keys, get, pop, elem, Unique}

module _ {ℓ κ} {K : Type ℓ} {V : Type κ} ⦃e : Eq K⦄ where
  pub pop_absent : (k : K) (d : Dict K V) → get k d ≡ none → pop k d ≡ d
  unfolding get pop
  pop_absent k [] h = refl
  pop_absent k ((j, v) ∷ d) h = ground (arith, pop_absent k d)

  pub get-none_of_elem : (k : K) (d : Dict K V) → elem k (keys d) ≡ false → get k d ≡ none
  unfolding get elem
  get-none_of_elem k [] h = refl
  get-none_of_elem k ((j, v) ∷ d) h = ground (arith, get-none_of_elem k d)

  pub sum_by-pop :
      (f : K × V → ℕ) (k : K) (d : Dict K V) (v : V)
      → Unique (keys d)
      → get k d ≡ some v
      → sum_by f (pop k d) + f (k, v) ≡ sum_by f d
  unfolding get pop
  sum_by-pop f k [] v u h = ground arith
  sum_by-pop f k ((j, w) ∷ d) v u h =
      ground (arith, sum_by-pop f k d v, e.beq_iff j k, get-none_of_elem k d, pop_absent k d)

  pub length-pop :
      (k : K) (d : Dict K V) (v : V)
      → Unique (keys d)
      → get k d ≡ some v
      → length (pop k d) + 1 ≡ length d
  unfolding get pop
  length-pop k [] v u h = ground arith
  length-pop k ((j, w) ∷ d) v u h =
      ground (arith, length-pop k d v, e.beq_iff j k, get-none_of_elem k d, pop_absent k d)

  pub length-pop_le : (k : K) (d : Dict K V) → length (pop k d) ≤ length d
  unfolding pop
  length-pop_le k [] = ground arith
  length-pop_le k ((j, w) ∷ d) = ground (arith, length-pop_le k d)
