-- ===== src/Registry/Trims.antt =====
-- Pruning and making room: which slots go and which stay.
use library_of_context.Prelude.{
  ℕ, ◌+◌, ◌<◌, ◌≤◌, ◌≡◌, refl, ◌⊎◌, inl, inr, false, some, [], ◌∷◌, ◌==◌, arith, Bool-cases,
  Option-cases, length, ok, raise, capacity_error,
}
use library_of_context.Models.{str_eq}
use library_of_context.Dict.{Dict, get, keys, elem, Unique, get-none_of_elem}
use library_of_context.Scopes.{ThreadKey, thread_key_eq}
use library_of_context.Registry.Defs.{Entry, is_idle, prune, evict_first}

-- Every entry of the second is in the first, and every entry in use of the first in the second.
pub record Trims (d c : Dict ThreadKey Entry) : Type 0 where
  pub unique : Unique (keys c)
  pub subset : (j : ThreadKey) (e : Entry) → get j c ≡ some e → get j d ≡ some e
  pub leased : (j : ThreadKey) (e : Entry) → get j d ≡ some e → 0 < e.leases → get j c ≡ some e

elem-prune :
    (now ttl : ℕ) (j : ThreadKey) (d : Dict ThreadKey Entry)
    → elem j (keys d) ≡ false
    → elem j (keys (prune now ttl d)) ≡ false
unfolding prune elem
elem-prune now ttl j [] h = refl
elem-prune now ttl j ((k, e) ∷ d) h = ground (arith, elem-prune now ttl j d)

pub length-prune : (now ttl : ℕ) (d : Dict ThreadKey Entry) → length (prune now ttl d) ≤ length d
unfolding prune
length-prune now ttl [] = ground arith
length-prune now ttl ((k, e) ∷ d) = ground (arith, length-prune now ttl d)

pub prune-Trims :
    (now ttl : ℕ) (d : Dict ThreadKey Entry) → Unique (keys d) → Trims d (prune now ttl d)
unfolding prune get is_idle
prune-Trims now ttl [] u = record { unique = tt; subset = λ j e g. g; leased = λ j e g p. g }
prune-Trims now ttl ((k, x) ∷ d) u =
    let rest = prune-Trims now ttl d u.1 in
    record {
      unique = ground (arith, rest.unique, elem-prune now ttl k d u.0);
      subset = λ j e g. elim (Option-cases (get j (prune now ttl d))) [
        | inl absent ↦ ground (arith, thread_key_eq.beq_iff k j)
        | inr (y, found) ↦
            ground
              (arith, rest.subset j y found, thread_key_eq.beq_iff k j, get-none_of_elem k d u.0)
      ];
      leased = λ j e g p. ground (arith, rest.leased j e, thread_key_eq.beq_iff k j);
    }

pub evict_first-cases :
    (d : Dict ThreadKey Entry)
    → Unique (keys d)
    → ((c : Dict ThreadKey Entry) × (evict_first d ≡ ok c)
        × (length c + 1 ≡ length d)
        × Trims d c
        × ((j : ThreadKey) → elem j (keys d) ≡ false → elem j (keys c) ≡ false))
      ⊎ ((evict_first d ≡ raise capacity_error)
          × ((j : ThreadKey) (e : Entry) → get j d ≡ some e → 0 < e.leases))
unfolding evict_first get elem
evict_first-cases [] u = inr (refl, λ j e g. absurd (ground (arith, g)))
evict_first-cases ((k, x) ∷ d) u = elim (Bool-cases (x.leases == 0)) [
  | inl free ↦ inl (
    d,
    ground arith,
    ground arith,
    record {
      unique = u.1;
      subset = λ j e g. ground (arith, thread_key_eq.beq_iff k j, get-none_of_elem k d u.0);
      leased = λ j e g p. ground (arith, thread_key_eq.beq_iff k j);
    },
    λ j h. ground arith,
  )
  | inr busy ↦ elim (evict_first-cases d u.1) [
    | inl (c, done, size, trims, absent) ↦ inl (
      (k, x) ∷ c,
      ground arith,
      ground arith,
      record {
        unique = ground (arith, trims.unique, absent k u.0);
        subset = λ j e g. ground (arith, trims.subset j e, thread_key_eq.beq_iff k j);
        leased = λ j e g p. ground (arith, trims.leased j e, thread_key_eq.beq_iff k j);
      },
      λ j h. ground (arith, absent j),
    )
    | inr (full, all) ↦ inr (ground arith, λ j e g. ground (arith, all j e))
  ]
]

pub Trims-trans : (d c b : Dict ThreadKey Entry) → Trims d c → Trims c b → Trims d b
Trims-trans d c b t u = record {
  unique = u.unique;
  subset = λ j e g. t.subset j e (u.subset j e g);
  leased = λ j e g p. u.leased j e (t.leased j e g p) p;
}

pub Trims-refl : (d : Dict ThreadKey Entry) → Unique (keys d) → Trims d d
Trims-refl d u = record { unique = u; subset = λ j e g. g; leased = λ j e g p. g }
