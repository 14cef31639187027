-- ===== src/Ram/Puts.antt =====
-- What `put` leaves in the cache.
use library_of_context.Prelude.{
  ℕ, ◌+◌, ◌-◌, ◌≤◌, ◌<◌, ◌≡◌, ◌⊎◌, refl, Option, none, some, [], ◌∷◌, ◌++◌, leb, length, arith,
  sum_by, sum_by-append, inl, inr, Option-cases, Bool-cases,
}
use library_of_context.Models.{Str, str_eq, ℤ, pos_part}
use library_of_context.Dict
use library_of_context.Dict.{
  Dict, keys, Unique, elem, Unique-pop, Unique-put_last, sum_by-pop, pop_absent, get-pop,
  get-append, get-none_of_elem,
}
use library_of_context.Ram.Defs.{Entry, ByteLru, delete, put}
use library_of_context.Ram.Invariant.{
  item_size, IsValid, fitting, evict_lem, fitting-le, fitting-Unique, delete-IsValid,
}

module _ {ℓ} {T : Type ℓ} where
  abbrev pub new_entry : ℕ → T → ℕ → Option ℤ → Entry T
  new_entry now value size ttl_seconds = record {
    value = value;
    size = size;
    expires_at = elim ttl_seconds [ none ↦ none | some ttl ↦ some (now + pos_part ttl) ];
  }

  pub delete_lem :
      (c : ByteLru T) (key : Str)
      → ((delete c key).items ≡ Dict.pop key c.items)
        × ((delete c key).max_bytes ≡ c.max_bytes)
        × ((delete c key).evictions ≡ c.evictions)
        × ((delete c key).hits ≡ c.hits)
        × ((delete c key).misses ≡ c.misses)
  unfolding delete
  delete_lem c key = elim (Option-cases (Dict.get key c.items)) [
    | inl miss ↦ ground (arith, pop_absent key c.items)
    | inr (entry, hit) ↦ ground arith
  ]

  pub put_last-pop :
      (key : Str) (entry : Entry T) (d : Dict Str (Entry T))
      → Dict.put_last key entry (Dict.pop key d) ≡ Dict.pop key d ++ (key, entry) ∷ []
  unfolding Dict.put_last
  put_last-pop key entry d =
      ground (arith, pop_absent key (Dict.pop key d), get-pop key key d, str_eq.beq_iff key key)

  -- The items that a `put` leaves: its own item last, behind those that still fit.
  unfoldable pub after_put : ℕ → ByteLru T → Str → T → ℕ → Option ℤ → Dict Str (Entry T)
  after_put now c key value size ttl_seconds =
      fitting c.max_bytes (Dict.pop key c.items ++ (key, new_entry now value size ttl_seconds) ∷ [])

  module _ (now : ℕ) (c : ByteLru T) (key : Str) (value : T) (size : ℕ) (ttl_seconds : Option ℤ)
      (v : IsValid c) where
    pub put_steps :
        size ≤ c.max_bytes
        → put now c key value size ttl_seconds ≡ record c {
          items = after_put now c key value size ttl_seconds;
          bytes = sum_by item_size (after_put now c key value size ttl_seconds);
          evictions =
              c.evictions
              + (length (Dict.pop key c.items ++ (key, new_entry now value size ttl_seconds) ∷ [])
                  - length (after_put now c key value size ttl_seconds));
        }
    unfolding put after_put
    put_steps h =
        let e = new_entry now value size ttl_seconds in
        let all = Dict.pop key c.items ++ (key, e) ∷ [] in
        ground (
          arith,
          delete_lem c key,
          (delete-IsValid c key v).counted,
          put_last-pop key e c.items,
          sum_by-append item_size (Dict.pop key c.items) ((key, e) ∷ []),
          evict_lem c.max_bytes all ((delete c key).bytes + size) c.evictions,
        )

    pub put_refused : c.max_bytes < size → put now c key value size ttl_seconds ≡ delete c key
    unfolding put
    put_refused h = ground arith

    -- `put` keeps a valid cache valid: the byte count is the sum of the sizes, within the bound.
    pub put-IsValid : IsValid (put now c key value size ttl_seconds)
    put-IsValid = elim (Bool-cases (leb size c.max_bytes)) [
      | inl fits ↦
          let all = Dict.pop key c.items ++ (key, new_entry now value size ttl_seconds) ∷ [] in
          rw (put_steps (ground arith)) (record {
            counted = refl;
            bounded = unfold after_put in fitting-le c.max_bytes all;
            distinct =
                unfold after_put in
                fitting-Unique c.max_bytes all (
                  rw (← put_last-pop key (new_entry now value size ttl_seconds) c.items) (
                    Unique-put_last key (new_entry now value size ttl_seconds)
                      (Dict.pop key c.items) (Unique-pop key c.items v.distinct)));
          })
      | inr over ↦ rw (put_refused (ground arith)) (delete-IsValid c key v)
    ]

module _ {ℓ} {T : Type ℓ} (max_bytes : ℕ) where
  -- An item that alone fits the bound stays when it is the most recent.
  pub get-fitting_last :
      (key : Str) (entry : Entry T) (items : Dict Str (Entry T))
      → Dict.get key items ≡ none
      → entry.size ≤ max_bytes
      → Dict.get key (fitting max_bytes (items ++ (key, entry) ∷ [])) ≡ some entry
  unfolding fitting Dict.get
  get-fitting_last key entry [] h k = ground (arith, str_eq.beq_iff key key)
  get-fitting_last key entry ((j, x) ∷ items) h k = ground (
    arith,
    get-fitting_last key entry items,
    get-append key items ((key, entry) ∷ []),
    str_eq.beq_iff key key,
  )

  pub get-fitting :
      (key : Str) (items : Dict Str (Entry T))
      → Unique (keys items)
      → (Dict.get key (fitting max_bytes items) ≡ none)
        ⊎ (Dict.get key (fitting max_bytes items) ≡ Dict.get key items)
  unfolding fitting Dict.get
  get-fitting key [] u = inl refl
  get-fitting key ((j, x) ∷ items) u = ground (
    arith,
    get-fitting key items (ground arith),
    get-none_of_elem key items,
    str_eq.beq_iff j key,
  )
