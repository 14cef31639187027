-- ===== src/Swapper/Recall.antt =====
-- A refresh that runs alone, and the read behind it.
use mathlib.Core.Path.{◌∙◌}
use library_of_context.Prelude.{
  ℕ, ◌+◌, ◌<◌, ◌≡◌, refl, inl, inr, true, false, ==_iff, Option, some, List, [], ◌∷◌, Bool-cases,
  Option-cases, arith, Result-cases, ok,
}
use library_of_context.Models.{Str}
use library_of_context.Dict
use library_of_context.Dict.{
  Dict, keys, elem, Unique, get-pop, get-put, get-put_last, contains-elem,
}
use library_of_context.Scopes.{ThreadKey, thread_key_eq}
use library_of_context.Store.{ContextRecord}
use library_of_context.Swapper.Hits.{SearchHit, WorkingSet}
use library_of_context.Swapper.Desks.{
  Desks, forget, forget_all, expired_keys, prune_working_sets, is_held, leases_of, add_lease,
  invalidate_refresh, begin_refresh, finish_refresh, store_working_set, publish, drop_desk, get,
  contains_expired_record,
}
use library_of_context.Swapper.Refresh.{Request, check_request, refreshed, refresh}
use library_of_context.Swapper.Steps.{Reach, here, next, begins, gets, publishes, finishes}
use library_of_context.Swapper.Trims.{trimmed, store_working_set_lem, begin_refresh-R}
use library_of_context.Swapper.Stepwise.{Reach-Kept}
use library_of_context.Swapper.Validity.{IsValid, Keeps}
use library_of_context.Swapper.Bounded.{Keeps-Kept}

expired-keys :
    (now ttl : ℕ) (key : ThreadKey) (access : Dict ThreadKey ℕ)
    → elem key (keys access) ≡ false
    → elem key (expired_keys now ttl access) ≡ false
unfolding expired_keys elem
expired-keys now ttl key [] h = refl
expired-keys now ttl key ((j, at) ∷ access) h = ground (arith, h, expired-keys now ttl key access)

-- A key that was used a short while ago is not expired.
expired-used :
    (now ttl at : ℕ) (key : ThreadKey) (access : Dict ThreadKey ℕ)
    → Unique (keys access)
    → Dict.get key access ≡ some at
    → now < at + ttl
    → elem key (expired_keys now ttl access) ≡ false
unfolding expired_keys elem Dict.get
expired-used now ttl at key [] u h used = refl
expired-used now ttl at key ((j, a) ∷ access) u h used = ground (
  arith,
  expired-used now ttl at key access,
  expired-keys now ttl key access,
  thread_key_eq.beq_iff j key,
  h,
  used,
  u,
)

forget_all-get :
    (s : Desks) (key : ThreadKey) (expired : List ThreadKey)
    → elem key expired ≡ false
    → Dict.get key (forget_all s expired).working_sets ≡ Dict.get key s.working_sets
unfolding forget_all forget elem
forget_all-get s key [] h = refl
forget_all-get s key (k ∷ expired) h =
    ground (arith, forget_all-get (forget s k) key expired, get-pop k key s.working_sets, h)

forget-held :
    (s : Desks) (key k : ThreadKey)
    → is_held s key ≡ true
    → (is_held (forget s k) key ≡ true)
      × (Dict.get key (forget s k).refresh_generations ≡ Dict.get key s.refresh_generations)
unfolding forget is_held
forget-held s key k h = elim (Bool-cases (is_held s k)) [
  | inl held ↦ (h, ground (arith, held))
  | inr free ↦
      let other : thread_key_eq.beq k key ≡ false = elim (Bool-cases (thread_key_eq.beq k key)) [
        | inr e ↦ e
        | inl same ↦
            let equal : k ≡ key = (thread_key_eq.beq_iff k key).0 same in
            absurd (ground (arith, h, rw equal at free))
      ] in
      (h, ground (arith, free, other, get-pop k key s.refresh_generations))
]

-- A key that is held keeps its generation.
forget_all-held :
    (s : Desks) (key : ThreadKey) (expired : List ThreadKey)
    → is_held s key ≡ true
    → Dict.get key (forget_all s expired).refresh_generations ≡ Dict.get key s.refresh_generations
unfolding forget_all forget
forget_all-held s key [] h = refl
forget_all-held s key (k ∷ expired) h =
    let one = forget-held s key k h in forget_all-held (forget s k) key expired one.0 ∙ one.1

get-generations :
    (now wall : ℕ) (s : Desks) (key : ThreadKey)
    → is_held s key ≡ true
    → Dict.get key (get now wall s key).0.refresh_generations ≡ Dict.get key s.refresh_generations
unfolding get prune_working_sets drop_desk
get-generations now wall s key held =
    let t = prune_working_sets now s in
    let kept =
      forget_all-held s key (expired_keys now s.working_set_ttl_seconds s.working_set_access)
        held in
    elim (Option-cases (Dict.get key t.working_sets)) [
      | inl miss ↦ ground (arith, miss, kept)
      | inr (w, hit) ↦ elim (Bool-cases (contains_expired_record wall w.hits)) [
        | inl old ↦ ground (arith, hit, old, kept)
        | inr fresh ↦ ground (arith, hit, fresh, kept)
      ]
    ]

-- What `begin_refresh` gives out.
begin_refresh-holds :
    (now : ℕ) (s t : Desks) (key : ThreadKey) (generation : ℕ)
    → begin_refresh now s key ≡ ok (t, generation)
    → (is_held t key ≡ true) × (Dict.get key t.refresh_generations ≡ some generation)
unfolding add_lease invalidate_refresh is_held leases_of
begin_refresh-holds now s t key generation h =
    let (r, before, after, number) =
      begin_refresh-R (λ a b. Unit {0}) (λ a. tt) (λ a b c x y. tt) (λ a k. tt) (λ a k. tt) now s t
        key generation h in
    let same = thread_key_eq.beq_iff key key in
    let bumped = invalidate_refresh r key in
    rw after (
      ground (arith, same, get-put key key (leases_of bumped key + 1) r.refresh_leases),
      ground (
        arith,
        same,
        number,
        get-put_last key key (r.next_refresh_generation + 1) r.refresh_generations,
      ),
    )

publish-latest :
    (now : ℕ) (s : Desks) (key : ThreadKey) (generation : ℕ) (w : WorkingSet)
    → Dict.get key s.refresh_generations ≡ some generation
    → publish now s key generation true w ≡ store_working_set now s key w
unfolding publish
publish-latest now s key generation w h = ground (arith, h, ==_iff generation generation)

store_working_set-get :
    (now : ℕ) (s : Desks) (key : ThreadKey) (w : WorkingSet)
    → (Dict.get key (store_working_set now s key w).working_sets ≡ some w)
      × (Dict.get key (store_working_set now s key w).working_set_access ≡ some now)
store_working_set-get now s key w =
    let t = trimmed now s key in
    let same = thread_key_eq.beq_iff key key in
    rw (store_working_set_lem now s key w) (
      ground (arith, same, get-put_last key key w t.working_sets),
      ground (arith, same, get-put key key now t.working_set_access),
    )

-- A working set of a short while ago, without an expired record, is read.
get-recent :
    (now wall at : ℕ) (s : Desks) (key : ThreadKey) (w : WorkingSet)
    → IsValid s
    → Dict.get key s.working_sets ≡ some w
    → Dict.get key s.working_set_access ≡ some at
    → now < at + s.working_set_ttl_seconds
    → contains_expired_record wall w.hits ≡ false
    → (get now wall s key).1 ≡ some w
unfolding get prune_working_sets
get-recent now wall at s key w v found used soon fresh =
    let ttl = s.working_set_ttl_seconds in
    let expired = expired_keys now ttl s.working_set_access in
    let unexpired = expired-used now ttl at key s.working_set_access v.single_access used soon in
    let stays = forget_all-get s key expired unexpired ∙ found in ground (arith, stays, fresh)

finish_refresh-same :
    (s : Desks) (key : ThreadKey)
    → ((finish_refresh s key).working_sets ≡ s.working_sets)
      × ((finish_refresh s key).working_set_access ≡ s.working_set_access)
unfolding finish_refresh
finish_refresh-same s key = (refl, refl)

module _ (shown : ℕ → Str) (retrieve : ThreadKey → Request → ℕ → List SearchHit)
    (lookup : ThreadKey → Request → Str → Option ContextRecord) where
  -- A refresh that runs alone on valid desks is a sequence of the steps under the lock, and then the
  -- desk of the thread holds its working set: until that has not been used for the time to live, it
  -- is read again, if none of its records has expired.
  pub refresh-get :
      (now wall : ℕ) (s t : Desks) (key : ThreadKey) (request : Request) (w : WorkingSet)
      → IsValid s
      → refresh shown retrieve lookup now wall s key request true ≡ ok (t, w)
      → Reach s t
        × ((later date : ℕ)
            → later < now + t.working_set_ttl_seconds
            → contains_expired_record date w.hits ≡ false
            → (get later date t key).1 ≡ some w)
  unfolding refresh
  refresh-get now wall s t key request w v h =
      elim (Result-cases (check_request shown retrieve lookup request)) [
        | inr (e, refused) ↦ absurd (ground (arith, h, refused))
        | inl (u, checked) ↦ elim (Result-cases (begin_refresh now s key)) [
          | inr (e, refused) ↦ absurd (ground (arith, h, checked, refused))
          | inl (b, begun) ↦
              let read = get now wall b.0 key in
              let made = refreshed shown retrieve lookup wall key request read.1 in
              let published = publish now read.0 key b.1 true made in
              let end = finish_refresh published key in
              let result : (t ≡ end) × (w ≡ made) =
                (ground (arith, h, checked, begun), ground (arith, h, checked, begun)) in
              let path : Reach s end =
                next
                  (next (next (next here (begins now key b.1 begun)) (gets now wall key refl))
                    (publishes now key b.1 true made refl))
                  (finishes key refl) in
              let held = begin_refresh-holds now s b.0 key b.1 begun in
              let latest = get-generations now wall b.0 key held.0 ∙ held.1 in
              let stored = store_working_set-get now read.0 key made in
              let same = publish-latest now read.0 key b.1 made latest in
              let finished = finish_refresh-same published key in
              let valid = (Reach-Kept Keeps Keeps-Kept s end path).1 v in
              (
                rw result.0 path,
                λ later date soon fresh.
                    rw (result.0, result.1)
                      (get-recent later date now end key made valid (rw (finished.0, same) stored.0)
                        (rw (finished.1, same) stored.1) (rw result.0 at soon)
                        (rw result.1 at fresh)),
              )
        ]
      ]
