-- ===== src/Ram/Reads.antt =====
-- What `get` returns after `put`.
use library_of_context.Prelude.{
  ℕ, ◌≡◌, ◌≢◌, ◌⊎◌, Option, none, some, [], ◌∷◌, ◌++◌, leb, if◌then◌else◌, arith, inl, inr,
  Option-cases, Bool-cases,
}
use library_of_context.Models.{Str, str_eq, ℤ}
use library_of_context.Dict
use library_of_context.Dict.{
  Dict, keys, Unique, Unique-pop, Unique-put_last, get-pop, get-append, get-put_last,
}
use library_of_context.Ram.Defs.{Entry, ByteLru, is_expired, get, put}
use library_of_context.Ram.Invariant.{IsValid}
use library_of_context.Ram.Puts.{
  new_entry, delete_lem, after_put, put_steps, put_refused, get-fitting_last, get-fitting,
  put_last-pop,
}

module _ {ℓ} {T : Type ℓ} where
  -- The entry that `get` finds.
  abbrev pub live : ℕ → Option (Entry T) → Option T
  live now none = none
  live now (some entry) = if is_expired now entry then none else some entry.value

  get-live :
      (now : ℕ) (c : ByteLru T) (key : Str) → (get now c key).1 ≡ live now (Dict.get key c.items)
  unfolding get
  get-live now c key = ground arith

  module _ (now later : ℕ) (c : ByteLru T) (key : Str) (value : T) (size : ℕ)
      (ttl_seconds : Option ℤ) (v : IsValid c) where
    -- In a valid cache, after `put` the key reads as its new value until the entry expires, if the value fits the
    -- cache at all; a value that is larger than the cache leaves the key without any value.
    pub get-put_self : (get later (put now c key value size ttl_seconds) key).1 ≡ (
        if leb size c.max_bytes
        then live later (some (new_entry now value size ttl_seconds))
        else none)
    get-put_self =
        let absent = get-pop key key c.items in
        rw (get-live later (put now c key value size ttl_seconds) key)
          (elim (Bool-cases (leb size c.max_bytes)) [
            | inl fits ↦
                rw (put_steps now c key value size ttl_seconds v (ground arith), fits)
                  (unfold after_put in
                    ground (
                      arith,
                      absent,
                      str_eq.beq_iff key key,
                      get-fitting_last c.max_bytes key (new_entry now value size ttl_seconds)
                          (Dict.pop key c.items),
                    ))
            | inr over ↦
                rw (put_refused now c key value size ttl_seconds v (ground arith), over)
                  (ground (arith, delete_lem c key, absent, str_eq.beq_iff key key))
          ])

    -- In a valid cache, after `put` any other key reads as it did before, or as nothing.
    pub get-put_ne :
        (other : Str)
        → other ≢ key
        → ((get later (put now c key value size ttl_seconds) other).1 ≡ (get later c other).1)
          ⊎ ((get later (put now c key value size ttl_seconds) other).1 ≡ none)
    get-put_ne other ne =
        let e = new_entry now value size ttl_seconds in
        let all = Dict.pop key c.items ++ (key, e) ∷ [] in
        let unique : Unique (keys all) =
          rw (← put_last-pop key e c.items)
            (Unique-put_last key e (Dict.pop key c.items) (Unique-pop key c.items v.distinct)) in
        let same : Dict.get other all ≡ Dict.get other c.items =
          unfold Dict.get in
          ground (
            arith,
            get-append other (Dict.pop key c.items) ((key, e) ∷ []),
            get-pop key other c.items,
            str_eq.beq_iff key other,
          ) in
        rw (get-live later (put now c key value size ttl_seconds) other, get-live later c other)
          (elim (Bool-cases (leb size c.max_bytes)) [
            | inl fits ↦
                rw (put_steps now c key value size ttl_seconds v (ground arith)) (
                  unfold after_put in
                  ground (arith, same, get-fitting c.max_bytes other all unique))
            | inr over ↦ rw (put_refused now c key value size ttl_seconds v (ground arith)) (
                ground
                  (arith, delete_lem c key, get-pop key other c.items, str_eq.beq_iff key other))
          ])

-- A hit moves the entry to the most recent end and changes no entry; only an expired entry goes.
pub get_lem {ℓ} :
    {T : Type ℓ} (now : ℕ) (c : ByteLru T) (key other : Str)
    → Dict.get other (get now c key).0.items ≡ (
        if str_eq.beq key other
        then elim (Dict.get key c.items) [
          | none ↦ none
          | some entry ↦ if is_expired now entry then none else some entry
        ]
        else Dict.get other c.items)
unfolding get
get_lem now c key other = elim (Option-cases (Dict.get key c.items)) [
  | inl miss ↦ ground (arith, str_eq.beq_iff key other)
  | inr (entry, hit) ↦ ground (
    arith,
    delete_lem c key,
    get-pop key other c.items,
    get-put_last key other entry c.items,
    str_eq.beq_iff key other,
  )
]
