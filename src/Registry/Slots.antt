-- ===== src/Registry/Slots.antt =====
-- The slots of the registry: their number, the rings in them, and the threads in use.
use mathlib.Core.Path.{subst}
use library_of_context.Prelude.{
  ℕ, ◌-◌, ◌<◌, ◌≤◌, ◌≡◌, refl, sym, ◌⊎◌, inl, inr, false, none, some, List, [], ◌∷◌, arith,
  Bool-cases, Option-cases, length, length-append, ltb, ok, raise, capacity_error,
}
use library_of_context.Models.{str_eq, ContextEvent}
use library_of_context.Dict.{
  Dict, get, pop, keys, put_last, Unique, Unique-put_last, get-put_last, length-pop, pop_absent,
}
use library_of_context.Ring.{RecentEventRing}
use library_of_context.Ring
use library_of_context.Ring.Fitting
use library_of_context.Ring.Methods
use library_of_context.Scopes.{ThreadKey, thread_key_eq}
use library_of_context.Store.{Store, list_thread_events}
use library_of_context.Registry.Defs.{
  Entry, Registry, append_all, create, prune, make_room, in_use, enter, leave,
}
use library_of_context.Registry.Trims.{
  Trims, length-prune, prune-Trims, evict_first-cases, Trims-trans, Trims-refl,
}

pub record IsBounded (g : Registry) : Type 0 where
  pub positive : 0 < g.max_entries
  pub few : length g.entries ≤ g.max_entries
  pub unique : Unique (keys g.entries)
  pub rings : (j : ThreadKey) (e : Entry) → get j g.entries ≡ some e → Ring.Fitting.IsValid e.recent

append_all-IsValid :
    (r : RecentEventRing) (events : List ContextEvent)
    → Ring.Fitting.IsValid r
    → (r' : RecentEventRing) × (append_all r events ≡ ok r') × Ring.Fitting.IsValid r'
unfolding append_all
append_all-IsValid r [] v = (r, refl, v)
append_all-IsValid r (event ∷ events) v =
    let (q, done, w, stale, fresh) = Ring.Methods.append-IsValid r event v in
    let (t, rest, x) = append_all-IsValid q events w in (t, rw done rest, x)

create-IsValid :
    (s : Store) (g : Registry) (key : ThreadKey)
    → (r : RecentEventRing) × (create s g key ≡ ok r) × Ring.Fitting.IsValid r
unfolding create
create-IsValid s g key =
    append_all-IsValid (Ring.init g.recent_events g.recent_tokens)
      (list_thread_events s key.collection key.session_id (some g.recent_events) false)
      (Ring.Fitting.init-IsValid g.recent_events g.recent_tokens)

-- Putting an entry in use at the end, into a registry that has room for it or has its key.
put_last-IsBounded :
    (g : Registry) (d c : Dict ThreadKey Entry) (key : ThreadKey) (e : Entry)
    → 0 < g.max_entries
    → Trims d c
    → (length c < g.max_entries)
      ⊎ ((length c ≤ g.max_entries) × ((old : Entry) × (get key c ≡ some old)))
    → ((j : ThreadKey) (x : Entry) → get j d ≡ some x → Ring.Fitting.IsValid x.recent)
    → Ring.Fitting.IsValid e.recent
    → IsBounded (record g { entries = put_last key e c })
put_last-IsBounded g d c key e positive trims room rings ring = record {
  positive = positive;
  few =
      unfold put_last in
      elim room [
        | inl space ↦ elim (Option-cases (get key c)) [
          | inl absent ↦
              ground
                (arith, space, length-append (pop key c) ((key, e) ∷ []), pop_absent key c absent)
          | inr (old, found) ↦ ground (
            arith,
            space,
            length-append (pop key c) ((key, e) ∷ []),
            length-pop key c old trims.unique found,
          )
        ]
        | inr (le, (old, found)) ↦ ground (
          arith,
          le,
          length-append (pop key c) ((key, e) ∷ []),
          length-pop key c old trims.unique found,
        )
      ];
  unique = Unique-put_last key e c trims.unique;
  rings = λ j x found. elim (Bool-cases (thread_key_eq.beq key j)) [
    | inl same ↦
        let eq : some e ≡ some x = cc (found, sym (rw same at (get-put_last key j e c))) in
        let entry : e ≡ x = ground (arith, eq) in
        subst (λ (y : Entry). Ring.Fitting.IsValid y.recent) entry ring
    | inr other ↦ rings j x (trims.subset j x (cc (found, rw other at (get-put_last key j e c))))
  ];
}

-- What one call of `lease` has done to a registry when its block begins.
pub record Entered (now : ℕ) (g g' : Registry) (key : ThreadKey) (recent : RecentEventRing)
    : Type 0 where
  pub bounded : IsBounded g'
  pub mine : (e : Entry) × (get key g'.entries ≡ some e) × (0 < e.leases) × (e.recent ≡ recent)
  pub others :
      (j : ThreadKey) (e : Entry)
      → thread_key_eq.beq key j ≡ false
      → get j g.entries ≡ some e
      → 0 < e.leases
      → get j g'.entries ≡ some e

entered :
    (now : ℕ) (g : Registry) (key : ThreadKey) (c : Dict ThreadKey Entry) (e : Entry)
    → IsBounded g
    → Trims g.entries c
    → (length c < g.max_entries)
      ⊎ ((length c ≤ g.max_entries) × ((old : Entry) × (get key c ≡ some old)))
    → Ring.Fitting.IsValid e.recent
    → Entered now g (record g { entries = put_last key (in_use now e) c }) key e.recent
unfolding in_use
entered now g key c e v trims room ring = record {
  bounded = put_last-IsBounded g g.entries c key (in_use now e) v.positive trims room v.rings ring;
  mine = (
    in_use now e,
    ground (arith, get-put_last key key (in_use now e) c, thread_key_eq.beq_iff key key),
    ground arith,
    refl,
  );
  others = λ j x other held busy.
      ground (arith, get-put_last key j (in_use now e) c, trims.leased j x held busy);
}

-- In a bounded registry, the start of `lease` either succeeds or raises `capacity_error`.
-- When it succeeds, the registry is bounded again, the key has a slot in use with the ring that
-- the block gets, and every other slot in use is as it was. When it raises, the key has no slot,
-- at least `max_entries` slots are left after the idle ones are pruned, and all of them are in use.
pub enter_lem :
    (now : ℕ) (s : Store) (g : Registry) (key : ThreadKey)
    → IsBounded g
    → ((g' : Registry) × (recent : RecentEventRing) × (enter now s g key ≡ ok (g', recent))
        × Entered now g g' key recent)
      ⊎ ((enter now s g key ≡ raise capacity_error)
          × (get key (prune now g.idle_ttl_seconds g.entries) ≡ none)
          × (g.max_entries ≤ length (prune now g.idle_ttl_seconds g.entries))
          × ((j : ThreadKey) (e : Entry)
              → get j (prune now g.idle_ttl_seconds g.entries) ≡ some e
              → 0 < e.leases))
unfolding enter make_room
enter_lem now s g key v =
    let kept = prune now g.idle_ttl_seconds g.entries in
    let trims = prune-Trims now g.idle_ttl_seconds g.entries v.unique in
    let size = length-prune now g.idle_ttl_seconds g.entries in
    let (recent, made, ring) = create-IsValid s g key in
    let fresh : Entry = record { recent = recent; last_access = now; leases = 0 } in
    elim (Option-cases (get key kept)) [
      | inr (e, found) ↦ inl (
        record g { entries = put_last key (in_use now e) kept },
        e.recent,
        ground (arith, found),
        entered now g key kept e v trims (inr (ground (arith, size, v.few), (e, found)))
            (v.rings key e (trims.subset key e found)),
      )
      | inl absent ↦ elim (Bool-cases (ltb (length kept) g.max_entries)) [
        | inl space ↦ inl (
          record g { entries = put_last key (in_use now fresh) kept },
          recent,
          ground (arith, absent, space, made),
          entered now g key kept fresh v trims (inl (ground arith)) ring,
        )
        | inr crowded ↦ elim (evict_first-cases kept trims.unique) [
          | inl (c, done, shorter, less, gone) ↦ inl (
            record g { entries = put_last key (in_use now fresh) c },
            recent,
            ground (arith, absent, crowded, done, made),
            entered now g key c fresh v (Trims-trans g.entries kept c trims less)
                (inl (ground (arith, shorter, size, v.few))) ring,
          )
          | inr (full, all) ↦ inr (ground (arith, absent, crowded, full), absent, ground arith, all)
        ]
      ]
    ]

-- In a bounded registry, the end of `lease` leaves it bounded, and the slots of all other keys as
-- they were; a slot of the key stays with its ring and one lease less.
pub leave_lem :
    (now : ℕ) (g : Registry) (key : ThreadKey)
    → IsBounded g
    → IsBounded (leave now g key)
      × ((j : ThreadKey)
          → thread_key_eq.beq key j ≡ false
          → get j (leave now g key).entries ≡ get j g.entries)
      × ((e : Entry)
          → get key g.entries ≡ some e
          → (e' : Entry) × (get key (leave now g key).entries ≡ some e')
            × (e'.recent ≡ e.recent)
            × (e'.leases ≡ e.leases - 1))
unfolding leave
leave_lem now g key v = elim (Option-cases (get key g.entries)) [
  | inl absent ↦
      let same : leave now g key ≡ g = ground (arith, absent) in
      (rw same v, λ j other. rw same refl, λ e held. absurd (ground (arith, held, absent)))
  | inr (e, found) ↦
      let e' : Entry = record e { leases = e.leases - 1; last_access = now } in
      let after : leave now g key ≡ record g { entries = put_last key e' g.entries } =
        ground (arith, found) in
      (
        rw after (
            put_last-IsBounded g g.entries g.entries key e' v.positive
              (Trims-refl g.entries v.unique) (inr (v.few, (e, found))) v.rings
              (v.rings key e found)),
        λ j other. rw after (ground (arith, get-put_last key j e' g.entries)),
        λ x held. (
          e',
          rw after
              (ground (arith, get-put_last key key e' g.entries, thread_key_eq.beq_iff key key)),
          ground (arith, held, found),
          ground (arith, held, found),
        ),
      )
]
