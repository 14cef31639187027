-- ===== src/Ram/Defs.antt =====
-- The state and the methods of `ByteLRU`. The keys stand in order of use, the least recent first.
-- The value of `time.time()` that a call reads is its argument `now`.
use library_of_context.Prelude.{
  ℕ, ◌+◌, ◌-◌, Bool, false, Option, none, some, [], ◌∷◌, leb, ltb, if◌then◌else◌, length, Result,
  ok, raise, value_error,
}
use library_of_context.Models.{Str, str_eq, ℤ, pos_part}
use library_of_context.Dict
use library_of_context.Dict.{Dict}

pub record Entry {ℓ} (T : Type ℓ) : Type ℓ where
  pub value : T
  pub size : ℕ
  pub expires_at : Option ℕ

pub record ByteLru {ℓ} (T : Type ℓ) : Type ℓ where
  pub max_bytes : ℕ
  pub bytes : ℕ
  pub items : Dict Str (Entry T)
  pub hits : ℕ
  pub misses : ℕ
  pub evictions : ℕ

pub record RamStats : Type 0 where
  pub items : ℕ
  pub used_bytes : ℕ
  pub max_bytes : ℕ
  pub hits : ℕ
  pub misses : ℕ
  pub evictions : ℕ

module _ {ℓ} {T : Type ℓ} where
  unfoldable pub init : ℕ → Result (ByteLru T)
  init max_bytes =
      if leb max_bytes 0
      then raise value_error
      else ok (record {
        max_bytes = max_bytes;
        bytes = 0;
        items = [];
        hits = 0;
        misses = 0;
        evictions = 0;
      })

  unfoldable pub is_expired : ℕ → Entry T → Bool
  is_expired now entry = elim entry.expires_at [ none ↦ false | some at ↦ leb at now ]

  -- `delete` and `_delete_unlocked`
  unfoldable pub delete : ByteLru T → Str → ByteLru T
  delete c key = elim (Dict.get key c.items) [
    | none ↦ c
    | some entry ↦ record c { items = Dict.pop key c.items; bytes = c.bytes - entry.size }
  ]

  unfoldable pub get : ℕ → ByteLru T → Str → ByteLru T × Option T
  get now c key =
      let deleted = delete c key in
      elim (Dict.get key c.items) [
        | none ↦ (record c { misses = c.misses + 1 }, none)
        | some entry ↦
            if is_expired now entry
            then (record deleted { misses = deleted.misses + 1 }, none)
            else (
              record c { items = Dict.put_last key entry c.items; hits = c.hits + 1 },
              some entry.value,
            )
      ]

  -- The `while` loop of `put`: the items that stay, their bytes, and the count of evictions.
  unfoldable pub evict : ℕ → Dict Str (Entry T) → ℕ → ℕ → Dict Str (Entry T) × ℕ × ℕ
  evict max_bytes [] bytes evictions = ([], bytes, evictions)
  evict max_bytes ((key, entry) ∷ items) bytes evictions =
      let rest = evict max_bytes items (bytes - entry.size) (evictions + 1) in
      if ltb max_bytes bytes then rest else ((key, entry) ∷ items, bytes, evictions)

  unfoldable pub put : ℕ → ByteLru T → Str → T → ℕ → Option ℤ → ByteLru T
  put now c key value size ttl_seconds =
      let expires_at : Option ℕ = elim ttl_seconds [
        | none ↦ none
        | some ttl ↦ some (now + pos_part ttl)
      ] in
      let deleted = delete c key in
      let entry : Entry T = record { value = value; size = size; expires_at = expires_at } in
      let (items, bytes, evictions) =
        evict c.max_bytes (Dict.put_last key entry deleted.items) (deleted.bytes + size)
          deleted.evictions in
      if ltb c.max_bytes size
      then deleted
      else record deleted { items = items; bytes = bytes; evictions = evictions }

  unfoldable pub clear : ByteLru T → ByteLru T
  clear c = record c { items = []; bytes = 0 }

  unfoldable pub stats : ByteLru T → RamStats
  stats c = record {
    items = length c.items;
    used_bytes = c.bytes;
    max_bytes = c.max_bytes;
    hits = c.hits;
    misses = c.misses;
    evictions = c.evictions;
  }
