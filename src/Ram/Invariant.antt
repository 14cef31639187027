-- ===== src/Ram/Invariant.antt =====
-- The cache's invariant and its eviction loop.
use library_of_context.Prelude.{
  ℕ, ◌+◌, ◌-◌, ◌≤◌, ◌≡◌, refl, [], ◌∷◌, ◌++◌, leb, if◌then◌else◌, length, ok, arith, sum_by,
  sum_by-append, length-append, inl, inr, Option-cases, Bool-cases,
}
use library_of_context.Models.{Str, str_eq}
use library_of_context.Dict
use library_of_context.Dict.{
  Dict, keys, Unique, elem, Unique-pop, Unique-put_last, sum_by-pop, pop_absent, get-pop,
  length-pop,
}
use library_of_context.Ram.Defs.{Entry, ByteLru, init, delete, get, evict}

module _ {ℓ} {T : Type ℓ} where
  abbrev pub item_size : Str × Entry T → ℕ
  item_size p = p.1.size

  pub record IsValid (c : ByteLru T) : Type ℓ where
    pub counted : c.bytes ≡ sum_by item_size c.items
    pub bounded : c.bytes ≤ c.max_bytes
    pub distinct : Unique (keys c.items)

  -- The longest tail of the items whose sizes add up to at most `max_bytes`.
  unfoldable pub fitting : ℕ → Dict Str (Entry T) → Dict Str (Entry T)
  fitting max_bytes [] = []
  fitting max_bytes ((key, entry) ∷ items) =
      let rest = fitting max_bytes items in
      if leb (sum_by item_size ((key, entry) ∷ items)) max_bytes then (key, entry) ∷ items else rest

  module _ (max_bytes : ℕ) where
    pub evict_lem :
        (items : Dict Str (Entry T)) (bytes evictions : ℕ)
        → bytes ≡ sum_by item_size items
        → evict max_bytes items bytes evictions ≡ (
          fitting max_bytes items,
          sum_by item_size (fitting max_bytes items),
          evictions + (length items - length (fitting max_bytes items)),
        )
    unfolding evict fitting
    evict_lem [] bytes evictions h = ground arith
    evict_lem ((key, entry) ∷ items) bytes evictions h =
        ground (arith, evict_lem items (bytes - entry.size) (evictions + 1), length-fitting items)
      where
        length-fitting : (l : Dict Str (Entry T)) → length (fitting max_bytes l) ≤ length l
        length-fitting [] = ground arith
        length-fitting ((k, x) ∷ l) = ground (arith, length-fitting l)

    pub fitting-le :
        (items : Dict Str (Entry T)) → sum_by item_size (fitting max_bytes items) ≤ max_bytes
    unfolding fitting
    fitting-le [] = ground arith
    fitting-le ((key, entry) ∷ items) = ground (arith, fitting-le items)

    pub fitting-longest :
        (older items : Dict Str (Entry T))
        → sum_by item_size items ≤ max_bytes
        → length items ≤ length (fitting max_bytes (older ++ items))
    unfolding fitting
    fitting-longest [] [] h = ground arith
    fitting-longest [] ((key, entry) ∷ items) h = ground arith
    fitting-longest ((key, entry) ∷ older) items h =
        ground (arith, fitting-longest older items, length-append older items)

    pub fitting-tail :
        (items : Dict Str (Entry T))
        → (older : Dict Str (Entry T)) × (items ≡ older ++ fitting max_bytes items)
    unfolding fitting
    fitting-tail [] = ([], refl)
    fitting-tail ((key, entry) ∷ items) =
        elim (Bool-cases (leb (sum_by item_size ((key, entry) ∷ items)) max_bytes)) [
          | inl fits ↦ ([], ground arith)
          | inr over ↦ let (older, p) = fitting-tail items in ((key, entry) ∷ older, ground arith)
        ]

    pub fitting-Unique :
        (items : Dict Str (Entry T)) → Unique (keys items) → Unique (keys (fitting max_bytes items))
    unfolding fitting
    fitting-Unique [] u = tt
    fitting-Unique ((key, entry) ∷ items) u = ground (arith, fitting-Unique items)

  pub init-IsValid : (max_bytes : ℕ) {c : ByteLru T} → init max_bytes ≡ ok c → IsValid c
  unfolding init
  init-IsValid max_bytes h = ground arith

  pub delete-IsValid : (c : ByteLru T) (key : Str) → IsValid c → IsValid (delete c key)
  unfolding delete
  delete-IsValid c key v = elim (Option-cases (Dict.get key c.items)) [
    | inl miss ↦ ground arith
    | inr (entry, hit) ↦
        ground (arith, sum_by-pop item_size key c.items entry, Unique-pop key c.items)
  ]

  pub sum_by-put_last :
      (key : Str) (entry : Entry T) (items : Dict Str (Entry T))
      → sum_by item_size (Dict.put_last key entry items)
        ≡ sum_by item_size (Dict.pop key items) + entry.size
  unfolding Dict.put_last
  sum_by-put_last key entry items =
      ground (arith, sum_by-append item_size (Dict.pop key items) ((key, entry) ∷ []))

  pub get-IsValid : (now : ℕ) (c : ByteLru T) (key : Str) → IsValid c → IsValid (get now c key).0
  unfolding get
  get-IsValid now c key v = elim (Option-cases (Dict.get key c.items)) [
    | inl miss ↦ ground arith
    | inr (entry, hit) ↦ ground (
      arith,
      delete-IsValid c key,
      sum_by-put_last key entry c.items,
      sum_by-pop item_size key c.items entry,
      Unique-put_last key entry c.items,
    )
  ]
