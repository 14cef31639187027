-- ===== src/Store/Claims.antt =====
-- Claiming rows of the outbox, and the order within each thread.
use mathlib.Core.Path.{sym, ap}
use library_of_context.Prelude.{
  ltb, ℕ, suc, ◌+◌, ◌≡◌, refl, inl, inr, Bool, true, false, ◌&&◌, some, List, [], ◌∷◌, take, keep,
  All, All-take, arith, Bool-cases,
}
use library_of_context.Models.{Str, str_eq}
use library_of_context.Store.Rows.{update_where, exists_where, order_by, insert_ordered}
use library_of_context.Store.Tables.{OutboxRow, OutboxClaim, row_in_thread, is_row, is_active}
use library_of_context.Store.Positions.{get_elem?, get-update}
use library_of_context.Store.Leasing.{
  is_earlier, is_claimable, is_leasable, claims_of, lease_all, leased, created_before,
}
use library_of_context.Store.Serial.{SameThread, IsSerial}
use library_of_context.Store.Leases.{lease-IsSerial}

module _ {ℓ} {A : Type ℓ} where
  pub All-positions :
      (Q : A → Type 0) (rows : List A)
      → ((k : ℕ) (r : A) → get_elem? rows k ≡ some r → Q r)
      → All Q rows
  All-positions Q [] h = tt
  All-positions Q (x ∷ rows) h = (h 0 x refl, All-positions Q rows (λ k r g. h (suc k) r g))

  pub All-keep :
      (Q : A → Type 0) (p : A → Bool) (rows : List A)
      → All Q rows
      → All (λ r. Q r × (p r ≡ true)) (keep p rows)
  All-keep Q p [] h = tt
  All-keep Q p (x ∷ rows) h = elim (Bool-cases (p x)) [
    | inl hit ↦ rw hit ((h.0, hit), All-keep Q p rows h.1)
    | inr miss ↦ rw miss (All-keep Q p rows h.1)
  ]

  All-insert :
      (Q : A → Type 0) (before : A → A → Bool) (x : A) (rows : List A)
      → Q x
      → All Q rows
      → All Q (insert_ordered before x rows)
  unfolding insert_ordered
  All-insert Q before x [] q h = (q, tt)
  All-insert Q before x (y ∷ rows) q h = elim (Bool-cases (before y x)) [
    | inl after ↦ rw after (h.0, All-insert Q before x rows q h.1)
    | inr first ↦ rw first (q, h)
  ]

  pub All-order_by :
      (Q : A → Type 0) (before : A → A → Bool) (rows : List A)
      → All Q rows
      → All Q (order_by before rows)
  unfolding order_by
  All-order_by Q before [] h = tt
  All-order_by Q before (x ∷ rows) h =
      All-insert Q before x (order_by before rows) h.0 (All-order_by Q before rows h.1)

  pub exists-update :
      (q p : A → Bool) (f : A → A) (rows : List A)
      → ((r : A) → q (f r) ≡ q r)
      → exists_where q (update_where p f rows) ≡ exists_where q rows
  unfolding exists_where update_where
  exists-update q p f [] h = refl
  exists-update q p f (x ∷ rows) h = ground (arith, exists-update q p f rows h, h x)

-- Every row with the claim's key is the first unfinished one of its thread.
abbrev LeadsThread : List OutboxRow → OutboxClaim → Type 0
LeadsThread outbox c =
    (i : ℕ) (o : OutboxRow)
    → get_elem? outbox i ≡ some o
    → is_row c.namespace c.session_id c.event_id o ≡ true
    → exists_where (is_earlier o) outbox ≡ false

LeadsThread-leased :
    (outbox : List OutboxRow) (c : OutboxClaim) (p : OutboxRow → Bool) (owner : Str) (until : ℕ)
    (token : Str)
    → LeadsThread outbox c
    → LeadsThread (update_where p (leased owner until token) outbox) c
unfolding leased is_earlier is_row row_in_thread
LeadsThread-leased outbox c p owner until token h i o' g row =
    let f = leased owner until token in
    let (o, go, eo) = get-update p f outbox i o' g in
    let same = exists-update (is_earlier o') p f outbox (λ r. refl) in
    elim (Bool-cases (p o)) [
      | inl hit ↦ rw (same, eo, hit) (h i o go (rw (eo, hit) at row))
      | inr miss ↦ rw (same, eo, miss) (h i o go (rw (eo, miss) at row))
    ]

All-LeadsThread-leased :
    (outbox : List OutboxRow) (claims : List OutboxClaim) (p : OutboxRow → Bool) (owner : Str)
    (until : ℕ) (token : Str)
    → All (LeadsThread outbox) claims
    → All (LeadsThread (update_where p (leased owner until token) outbox)) claims
All-LeadsThread-leased outbox [] p owner until token h = tt
All-LeadsThread-leased outbox (c ∷ claims) p owner until token h = (
  LeadsThread-leased outbox c p owner until token h.0,
  All-LeadsThread-leased outbox claims p owner until token h.1,
)

module _ (last : Str → Str → ℕ) (now : ℕ) (owner : Str) (until : ℕ) where
  lease_all-IsSerial :
      (claims : List OutboxClaim) (outbox : List OutboxRow)
      → IsSerial outbox last
      → All (LeadsThread outbox) claims
      → IsSerial (lease_all now owner until claims outbox) last
  unfolding lease_all
  lease_all-IsSerial [] outbox serial h = serial
  lease_all-IsSerial (c ∷ claims) outbox serial h =
      let p = λ (o : OutboxRow).
        is_row c.namespace c.session_id c.event_id o && is_active o && is_leasable now owner o in
      let f = leased owner until c.claim_token in
      lease_all-IsSerial claims (update_where p f outbox)
        (lease-IsSerial last outbox serial p f
          (λ i o g hit.
            unfold leased in
            record {
              namespace = refl;
              session = refl;
              event = refl;
              sequence = refl;
              lively = ground arith;
            })
          (λ o. unfold leased in refl) (λ i o g hit. h.0 i o g (ground arith)))
        (All-LeadsThread-leased outbox claims p owner until c.claim_token h.1)

-- A claim has the key of a row that satisfies `Q`.
claims_of-All :
    (Q : OutboxRow → Type 0) (P : OutboxClaim → Type 0) (tokens : ℕ → Str) (i : ℕ)
    (rows : List OutboxRow)
    → ((o : OutboxRow) (c : OutboxClaim)
        → Q o
        → c.namespace ≡ o.namespace
        → c.session_id ≡ o.session_id
        → c.event_id ≡ o.event_id
        → P c)
    → All Q rows
    → All P (claims_of tokens i rows)
unfolding claims_of
claims_of-All Q P tokens i [] h q = tt
claims_of-All Q P tokens i (o ∷ rows) h q =
    (h o _ q.0 refl refl refl, claims_of-All Q P tokens (i + 1) rows h q.1)

-- Two rows of a serial outbox with one key are one row.
pub same_row :
    (last : Str → Str → ℕ) (outbox : List OutboxRow) (i k : ℕ) (o r : OutboxRow)
    → IsSerial outbox last
    → get_elem? outbox i ≡ some o
    → get_elem? outbox k ≡ some r
    → SameThread o r
    → o.event_id ≡ r.event_id
    → (i ≡ k) × (o ≡ r)
same_row last outbox i k o r serial gi gk same event = elim (Bool-cases (ltb i k)) [
  | inl lt ↦
      let f = serial.follows i k o r gi gk (ground arith) same in
      absurd (ground (arith, f.other, str_eq.beq_iff o.event_id r.event_id))
  | inr ge ↦ elim (Bool-cases (ltb k i)) [
    | inl lt ↦
        let f = serial.follows k i r o gk gi (ground arith) (sym same.0, sym same.1) in
        absurd (ground (arith, f.other, str_eq.beq_iff r.event_id o.event_id))
    | inr eq ↦ let e : i ≡ k = ground arith in (e, cc (gi, gk, ap (get_elem? outbox) e))
  ]
]

claimable-LeadsThread :
    (last : Str → Str → ℕ) (now : ℕ) (owner : Str) (outbox : List OutboxRow)
    → IsSerial outbox last
    → (r : OutboxRow) (c : OutboxClaim)
    → ((k : ℕ) × (get_elem? outbox k ≡ some r)) × (is_claimable now owner outbox r ≡ true)
    → c.namespace ≡ r.namespace
    → c.session_id ≡ r.session_id
    → c.event_id ≡ r.event_id
    → LeadsThread outbox c
unfolding is_claimable
claimable-LeadsThread last now owner outbox serial r c h en es ee i o g row =
    let (k, gk) = h.0 in
    let keys : (o.namespace ≡ r.namespace)
        × (o.session_id ≡ r.session_id)
        × (o.event_id ≡ r.event_id) =
      unfold is_row row_in_thread in
      ground (
        arith,
        str_eq.beq_iff o.namespace c.namespace,
        str_eq.beq_iff o.session_id c.session_id,
        str_eq.beq_iff o.event_id c.event_id,
      ) in
    let one = same_row last outbox i k o r serial g gk (keys.0, keys.1) keys.2 in
    rw one.1 (ground arith)

-- Claiming leaves the outbox serial, whoever claims, and whatever the limit and the clock.
pub claims-IsSerial :
    (last : Str → Str → ℕ) (now until limit : ℕ) (tokens : ℕ → Str) (owner : Str)
    (outbox : List OutboxRow)
    → IsSerial outbox last
    → IsSerial
        (lease_all now owner until
          (claims_of tokens 0
            (take limit (order_by created_before (keep (is_claimable now owner outbox) outbox))))
          outbox)
        last
claims-IsSerial last now until limit tokens owner outbox serial =
    let claimable = is_claimable now owner outbox in
    let Q = λ (r : OutboxRow). ((k : ℕ) × (get_elem? outbox k ≡ some r)) × (claimable r ≡ true) in
    let all =
      All-keep (λ (r : OutboxRow). (k : ℕ) × (get_elem? outbox k ≡ some r)) claimable outbox
        (All-positions _ outbox (λ k r g. (k, g))) in
    let taken =
      All-take Q limit (order_by created_before (keep claimable outbox))
        (All-order_by Q created_before (keep claimable outbox) all) in
    lease_all-IsSerial last now owner until _ outbox serial (
      claims_of-All Q (LeadsThread outbox) tokens 0 _
        (claimable-LeadsThread last now owner outbox serial) taken)
