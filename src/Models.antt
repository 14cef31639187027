-- ===== src/Models.antt =====
-- The data classes of context_cache/models.py that the components share, and the types of their
-- fields. A Python string is the list of its code points. Times and durations are numbers of ticks
-- of one clock (a duration that a caller passes in may be negative, an ℤ); an importance is a
-- number of thousandths. Both only pass through the modelled code and are compared.
use library_of_context.Prelude.{
  ℕ, Bool, true, false, ◌&&◌, ◌≡◌, ◌↔◌, Option, none, some, List, [], ◌∷◌, arith, ◌==◌, ==_iff, Eq,
  list_beq, list_beq_iff, nat_eq, bool_beq, bool_beq_iff, length,
}
use library_of_context.Dict.{Dict, get, elem, keys, Unique}
use library_of_context.Prelude.{refl, inl, inr, Option-cases}

abbrev pub Str : Type 0
Str = List ℕ

instance abbrev pub str_eq : Eq Str
str_eq = record { beq = list_beq; beq_iff = list_beq_iff }

-- A signed number: `negsuc n` is -(n + 1).
pub data ℤ : Type 0 where
  pos : ℕ → ℤ
  negsuc : ℕ → ℤ

-- `max(0.0, x)`
abbrev pub pos_part : ℤ → ℕ
pos_part (pos n) = n
pos_part (negsuc n) = 0

-- A value of a metadata dictionary. Nested JSON arrays and objects are not modelled.
pub data Value : Type 0 where
  null : Value
  bool : Bool → Value
  num : ℕ → Value
  str : Str → Value

unfoldable pub value_beq : Value → Value → Bool
value_beq null null = true
value_beq (bool a) (bool b) = bool_beq a b
value_beq (num a) (num b) = a == b
value_beq (str a) (str b) = str_eq.beq a b
value_beq _ _ = false

pub value_beq_iff : (a b : Value) → (value_beq a b ≡ true) ↔ (a ≡ b)
unfolding value_beq
value_beq_iff null null = ground arith
value_beq_iff (bool a) (bool b) = ground (arith, bool_beq_iff a b)
value_beq_iff (num a) (num b) = ground (arith, ==_iff a b)
value_beq_iff (str a) (str b) = ground (arith, str_eq.beq_iff a b)
value_beq_iff null (bool b) = ground arith
value_beq_iff null (num b) = ground arith
value_beq_iff null (str b) = ground arith
value_beq_iff (bool a) null = ground arith
value_beq_iff (bool a) (num b) = ground arith
value_beq_iff (bool a) (str b) = ground arith
value_beq_iff (num a) null = ground arith
value_beq_iff (num a) (bool b) = ground arith
value_beq_iff (num a) (str b) = ground arith
value_beq_iff (str a) null = ground arith
value_beq_iff (str a) (bool b) = ground arith
value_beq_iff (str a) (num b) = ground arith

instance abbrev pub value_eq : Eq Value
value_eq = record { beq = value_beq; beq_iff = value_beq_iff }

abbrev pub Metadata : Type 0
Metadata = Dict Str Value

-- Every item of the first is in the second.
unfoldable pub items_in : Metadata → Metadata → Bool
items_in [] d = true
items_in ((k, v) ∷ c) d = elim (get k d) [ none ↦ false | some w ↦ value_beq v w && items_in c d ]

-- `c == d` on dictionaries: the order of the items does not count.
unfoldable pub metadata_beq : Metadata → Metadata → Bool
metadata_beq c d = length c == length d && items_in c d

items_in-cons :
    (k : Str) (v : Value) (c d : Metadata)
    → elem k (keys c) ≡ false
    → items_in c d ≡ true
    → items_in c ((k, v) ∷ d) ≡ true
unfolding items_in get elem
items_in-cons k v [] d h i = refl
items_in-cons k v ((j, w) ∷ c) d h i = elim (Option-cases (get j d)) [
  | inl absent ↦ absurd (ground (arith, i, absent))
  | inr (x, found) ↦ ground (arith, items_in-cons k v c d, str_eq.beq_iff j k, str_eq.beq_iff k j)
]

items_in_refl : (c : Metadata) → Unique (keys c) → items_in c c ≡ true
unfolding items_in get
items_in_refl [] u = refl
items_in_refl ((k, v) ∷ c) u =
    ground (
      arith,
      items_in-cons k v c c u.0 (items_in_refl c u.1),
      str_eq.beq_iff k k,
      value_beq_iff v v,
    )

-- A dictionary equals itself.
pub metadata_beq_refl : (c : Metadata) → Unique (keys c) → metadata_beq c c ≡ true
unfolding metadata_beq
metadata_beq_refl c u = ground (arith, items_in_refl c u, ==_iff (length c) (length c))

pub record ContextEvent : Type 0 where
  pub event_id : Str
  pub namespace : Str
  pub session_id : Str
  pub sequence : ℕ
  pub role : Str
  pub content : Str
  pub metadata : Metadata
  pub importance : ℕ
  pub is_protected : Bool
  pub token_count : ℕ
  pub record_id : Str
  pub created_at : ℕ
  pub indexed_at : Option ℕ
