-- ===== src/Dict/Laws.antt =====
-- What `get` finds after each operation, and that the keys stay unique.
use library_of_context.Prelude.{
  ◌+◌, ◌≤◌, true, false, ◌≡◌, refl, none, some, List, [], ◌∷◌, ◌++◌, arith, Eq, if◌then◌else◌,
  length,
}
use library_of_context.Dict.Defs.{
  Dict, keys, get, contains, pop, put, put_last, elem, discard, Unique,
}

module _ {ℓ} {K : Type ℓ} ⦃e : Eq K⦄ where
  pub elem-discard :
      (k j : K) (s : List K) → elem j (discard k s) ≡ (if e.beq k j then false else elem j s)
  unfolding elem discard
  elem-discard k j [] = ground arith
  elem-discard k j (i ∷ s) =
      ground (arith, elem-discard k j s, e.beq_iff i k, e.beq_iff i j, e.beq_iff k j)

  pub Unique-discard : (k : K) (s : List K) → Unique s → Unique (discard k s)
  unfolding discard
  Unique-discard k [] u = tt
  Unique-discard k (i ∷ s) u = ground (arith, Unique-discard k s, elem-discard k i s)

  pub elem-append : (k : K) (s t : List K) → elem k (s ++ t) ≡ (if elem k s then true else elem k t)
  unfolding elem
  elem-append k [] t = refl
  elem-append k (i ∷ s) t = ground (arith, elem-append k s t)

  pub discard_absent : (k : K) (s : List K) → elem k s ≡ false → discard k s ≡ s
  unfolding elem discard
  discard_absent k [] h = refl
  discard_absent k (i ∷ s) h = ground (arith, discard_absent k s)

  pub Unique-snoc : (k : K) (s : List K) → Unique s → elem k s ≡ false → Unique (s ++ k ∷ [])
  unfolding elem
  Unique-snoc k [] u h = ground arith
  Unique-snoc k (i ∷ s) u h =
      ground (arith, Unique-snoc k s, elem-append i s (k ∷ []), e.beq_iff i k, e.beq_iff k i)

  pub length-discard_mem :
      (k : K) (s : List K) → Unique s → elem k s ≡ true → length (discard k s) + 1 ≡ length s
  unfolding elem discard
  length-discard_mem k [] u h = ground arith
  length-discard_mem k (j ∷ s) u h =
      ground (arith, length-discard_mem k s, discard_absent k s, e.beq_iff j k)

  pub length-discard : (k : K) (s : List K) → length (discard k s) ≤ length s
  unfolding discard
  length-discard k [] = ground arith
  length-discard k (i ∷ s) = ground (arith, length-discard k s)

module _ {ℓ κ} {K : Type ℓ} {V : Type κ} ⦃e : Eq K⦄ where
  pub keys-append : (d c : Dict K V) → keys (d ++ c) ≡ keys d ++ keys c
  keys-append [] c = refl
  keys-append ((k, v) ∷ d) c = ground (arith, keys-append d c)

  pub keys-pop : (k : K) (d : Dict K V) → keys (pop k d) ≡ discard k (keys d)
  unfolding pop discard
  keys-pop k [] = refl
  keys-pop k ((j, v) ∷ d) = ground (arith, keys-pop k d)

  pub contains-elem : (k : K) (d : Dict K V) → contains k d ≡ elem k (keys d)
  unfolding contains get elem
  contains-elem k [] = refl
  contains-elem k ((j, v) ∷ d) = ground (arith, contains-elem k d)

  pub get-pop : (k j : K) (d : Dict K V) → get j (pop k d) ≡ (if e.beq k j then none else get j d)
  unfolding get pop
  get-pop k j [] = ground arith
  get-pop k j ((i, v) ∷ d) =
      ground (arith, get-pop k j d, e.beq_iff i k, e.beq_iff i j, e.beq_iff k j)

  pub get-append :
      (j : K) (d c : Dict K V)
      → get j (d ++ c) ≡ elim (get j d) [ none ↦ get j c | some v ↦ some v ]
  unfolding get
  get-append j [] c = refl
  get-append j ((i, v) ∷ d) c = ground (arith, get-append j d c)

  pub get-put :
      (k j : K) (v : V) (d : Dict K V) → get j (put k v d) ≡ (if e.beq k j then some v else get j d)
  unfolding get put
  get-put k j v [] = ground arith
  get-put k j v ((i, w) ∷ d) =
      ground (arith, get-put k j v d, e.beq_iff i k, e.beq_iff i j, e.beq_iff k j)

  pub get-put_last :
      (k j : K) (v : V) (d : Dict K V)
      → get j (put_last k v d) ≡ (if e.beq k j then some v else get j d)
  unfolding get put_last
  get-put_last k j v d = ground (arith, get-append j (pop k d) ((k, v) ∷ []), get-pop k j d)

  pub Unique-pop : (k : K) (d : Dict K V) → Unique (keys d) → Unique (keys (pop k d))
  Unique-pop k d u = ground (arith, keys-pop k d, Unique-discard k (keys d))

  pub Unique-put_last :
      (k : K) (v : V) (d : Dict K V) → Unique (keys d) → Unique (keys (put_last k v d))
  unfolding put_last
  Unique-put_last k v d u = ground (
    arith,
    keys-append (pop k d) ((k, v) ∷ []),
    keys-pop k d,
    Unique-snoc k (discard k (keys d)),
    Unique-discard k (keys d),
    elem-discard k k (keys d),
    e.beq_iff k k,
  )

  pub length-keys : (d : Dict K V) → length (keys d) ≡ length d
  length-keys [] = refl
  length-keys ((k, v) ∷ d) = ground (arith, length-keys d)

  pub elem-keys-put :
      (k j : K) (v : V) (d : Dict K V)
      → elem j (keys (put k v d)) ≡ (if e.beq k j then true else elem j (keys d))
  unfolding elem put
  elem-keys-put k j v [] = ground arith
  elem-keys-put k j v ((i, w) ∷ d) =
      ground (arith, elem-keys-put k j v d, e.beq_iff i k, e.beq_iff i j, e.beq_iff k j)

  pub Unique-put : (k : K) (v : V) (d : Dict K V) → Unique (keys d) → Unique (keys (put k v d))
  unfolding put
  Unique-put k v [] u = unfold elem in ground arith
  Unique-put k v ((i, w) ∷ d) u =
      ground (arith, Unique-put k v d, elem-keys-put k i v d, e.beq_iff i k, e.beq_iff k i)
