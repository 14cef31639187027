-- ===== src/Registry/Defs.antt =====
-- The state and the methods of `ThreadStateRegistry`. A `with registry.lease(key)` is two steps:
-- `enter` before the block and `leave` after it. The clock that a step reads is its argument.
use library_of_context.Prelude.{
  ℕ, ◌+◌, ◌-◌, Bool, false, ◌&&◌, Option, none, some, List, [], ◌∷◌, ◌==◌, leb, ltb, if◌then◌else◌,
  length, max, sum_by, Result, ok, raise, ◌>>=◌, capacity_error, value_error,
}
use library_of_context.Models.{Str, str_eq, ContextEvent}
use library_of_context.Dict
use library_of_context.Dict.{Dict}
use library_of_context.Ring.{RecentEventRing}
use library_of_context.Ring
use library_of_context.Scopes.{ThreadKey, thread_key_eq}
use library_of_context.Store.{Store, list_thread_events}

pub record Entry : Type 0 where
  pub recent : RecentEventRing
  pub last_access : ℕ
  pub leases : ℕ

pub record Registry : Type 0 where
  pub max_entries : ℕ
  pub idle_ttl_seconds : ℕ
  pub recent_events : ℕ
  pub recent_tokens : ℕ
  pub entries : Dict ThreadKey Entry

unfoldable pub registry : ℕ → ℕ → ℕ → ℕ → Result Registry
registry max_entries idle_ttl_seconds recent_events recent_tokens =
    if ltb max_entries 1
    then raise value_error
    else if idle_ttl_seconds == 0
    then raise value_error
    else ok (record {
      max_entries = max_entries;
      idle_ttl_seconds = idle_ttl_seconds;
      recent_events = max 1 recent_events;
      recent_tokens = max 64 recent_tokens;
      entries = [];
    })

unfoldable pub append_all : RecentEventRing → List ContextEvent → Result RecentEventRing
append_all recent [] = ok recent
append_all recent (event ∷ events) = Ring.append recent event >>= λ r. append_all r events

-- `_create`
unfoldable pub create : Store → Registry → ThreadKey → Result RecentEventRing
unfolding append_all
create s g key =
    append_all (Ring.init g.recent_events g.recent_tokens)
      (list_thread_events s key.collection key.session_id (some g.recent_events) false)

-- An entry that `_prune_locked` removes: `last_access <= now - idle_ttl_seconds`.
unfoldable pub is_idle : ℕ → ℕ → Entry → Bool
is_idle now ttl e = e.leases == 0 && leb (e.last_access + ttl) now

unfoldable pub prune : ℕ → ℕ → Dict ThreadKey Entry → Dict ThreadKey Entry
unfolding is_idle
prune now ttl [] = []
prune now ttl ((k, e) ∷ entries) =
    let rest = prune now ttl entries in if is_idle now ttl e then rest else (k, e) ∷ rest

-- The loop of `_make_room_locked`: the least recently used entry without a lease goes.
unfoldable pub evict_first : Dict ThreadKey Entry → Result (Dict ThreadKey Entry)
evict_first [] = raise capacity_error
evict_first ((k, e) ∷ entries) =
    let rest = evict_first entries in
    if e.leases == 0 then ok entries else (rest >>= λ r. ok ((k, e) ∷ r))

unfoldable pub make_room : ℕ → Dict ThreadKey Entry → Result (Dict ThreadKey Entry)
unfolding evict_first
make_room max_entries entries =
    if ltb (length entries) max_entries then ok entries else evict_first entries

-- The entry of the key is counted as in use, and becomes the most recently used.
unfoldable pub in_use : ℕ → Entry → Entry
in_use now e = record e { last_access = now; leases = e.leases + 1 }

-- Where it raises, the source keeps the pruning, and the eviction where `create` raises; the result
-- does not say what is left.
unfoldable pub enter : ℕ → Store → Registry → ThreadKey → Result (Registry × RecentEventRing)
unfolding prune make_room create in_use
enter now s g key =
    let kept = prune now g.idle_ttl_seconds g.entries in
    elim (Dict.get key kept) [
      | some e ↦ ok (record g { entries = Dict.put_last key (in_use now e) kept }, e.recent)
      | none ↦ make_room g.max_entries kept >>= λ room. create s g key >>= λ recent. ok (
        record g {
          entries =
              Dict.put_last key
                (in_use now (record { recent = recent; last_access = now; leases = 0 })) room;
        },
        recent,
      )
    ]

unfoldable pub leave : ℕ → Registry → ThreadKey → Registry
leave now g key = elim (Dict.get key g.entries) [
  | none ↦ g
  | some e ↦ record g {
    entries = Dict.put_last key (record e { leases = e.leases - 1; last_access = now }) g.entries;
  }
]

pub record RegistryStats : Type 0 where
  pub active : ℕ
  pub leased : ℕ
  pub capacity : ℕ
  pub idle_ttl_seconds : ℕ
  pub recent_event_capacity : ℕ
  pub recent_token_capacity : ℕ

unfoldable pub of_collection : Option Str → Dict ThreadKey Entry → Dict ThreadKey Entry
of_collection none entries = entries
of_collection (some c) [] = []
of_collection (some c) ((k, e) ∷ entries) =
    let rest = of_collection (some c) entries in
    if str_eq.beq k.collection c then (k, e) ∷ rest else rest

unfoldable pub stats : ℕ → Registry → Option Str → Registry × RegistryStats
unfolding prune of_collection
stats now g collection =
    let kept = prune now g.idle_ttl_seconds g.entries in
    let chosen = of_collection collection kept in
    (
      record g { entries = kept },
      record {
        active = length chosen;
        leased = sum_by (λ p. p.1.leases) chosen;
        capacity = g.max_entries;
        idle_ttl_seconds = g.idle_ttl_seconds;
        recent_event_capacity = g.recent_events;
        recent_token_capacity = g.recent_tokens;
      },
    )

unfoldable pub close : Registry → Registry
close g = record g { entries = [] }
