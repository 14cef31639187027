-- ===== src/Store/Invariant.antt =====
-- The event table and the outbox together.
use mathlib.Core.Path.{subst}
use library_of_context.Prelude.{
  ℕ, zero, suc, ◌<◌, ◌≡◌, refl, sym, inl, inr, Bool, true, some, List, [], ◌∷◌, if◌then◌else◌,
  length, arith, Bool-cases,
}
use library_of_context.Models.{Str, str_eq, ContextEvent}
use library_of_context.Store.Rows.{update_where, count_where}
use library_of_context.Store.Tables.{OutboxRow, OutboxClaim, is_null}
use library_of_context.Store.Positions.{get_elem?, get-update, length-update}
use library_of_context.Store.Leasing.{lease_all, leased}

pub record Matches (e : ContextEvent) (o : OutboxRow) : Type 0 where
  pub namespace : e.namespace ≡ o.namespace
  pub session : e.session_id ≡ o.session_id
  pub event : e.event_id ≡ o.event_id
  pub sequence : e.sequence ≡ o.sequence
  pub indexed : is_null e.indexed_at ≡ is_null o.processed_at

-- Each event has its row of the outbox at the same place, processed exactly if the event is indexed.
pub record IsPaired (events : List ContextEvent) (outbox : List OutboxRow) : Type 0 where
  pub sized : length events ≡ length outbox
  pub matched :
      (i : ℕ) (o : OutboxRow)
      → get_elem? outbox i ≡ some o
      → (e : ContextEvent) × (get_elem? events i ≡ some e) × Matches e o

pub get-update_of {ℓ} :
    {A : Type ℓ} (p : A → Bool) (f : A → A) (rows : List A) (i : ℕ) (o : A)
    → get_elem? rows i ≡ some o
    → get_elem? (update_where p f rows) i ≡ some (if p o then f o else o)
unfolding update_where
get-update_of p f [] i o h = absurd (ground (arith, h))
get-update_of p f (x ∷ rows) zero o h = ground arith
get-update_of p f (x ∷ rows) (suc i) o h = get-update_of p f rows i o h

pub update-IsPaired :
    (events : List ContextEvent) (outbox : List OutboxRow) (q : ContextEvent → Bool)
    (g : ContextEvent → ContextEvent) (p : OutboxRow → Bool) (f : OutboxRow → OutboxRow)
    → IsPaired events outbox
    → ((i : ℕ) (e : ContextEvent) (o : OutboxRow)
        → get_elem? outbox i ≡ some o
        → Matches e o
        → Matches (if q e then g e else e) (if p o then f o else o))
    → IsPaired (update_where q g events) (update_where p f outbox)
update-IsPaired events outbox q g p f paired keeps = record {
  sized = ground (arith, paired.sized, length-update q g events, length-update p f outbox);
  matched = λ i o' gi.
      let (o, go, eo) = get-update p f outbox i o' gi in
      let (e, ge, m) = paired.matched i o go in
      (
        (if q e then g e else e),
        get-update_of q g events i e ge,
        subst (Matches (if q e then g e else e)) (sym eo) (keeps i e o go m),
      );
}

-- An update of the outbox alone, that keeps each row's identity and whether it is processed.
pub outbox-IsPaired :
    (events : List ContextEvent) (outbox : List OutboxRow) (p : OutboxRow → Bool)
    (f : OutboxRow → OutboxRow)
    → IsPaired events outbox
    → ((e : ContextEvent) (o : OutboxRow) → p o ≡ true → Matches e o → Matches e (f o))
    → IsPaired events (update_where p f outbox)
outbox-IsPaired events outbox p f paired keeps = record {
  sized = ground (arith, paired.sized, length-update p f outbox);
  matched = λ i o' gi.
      let (o, go, eo) = get-update p f outbox i o' gi in
      let (e, ge, m) = paired.matched i o go in
      (
        e,
        ge,
        elim (Bool-cases (p o)) [
          | inl hit ↦ subst (Matches e) (sym eo) (rw hit (keeps e o hit m))
          | inr miss ↦ subst (Matches e) (sym eo) (rw miss m)
        ],
      );
}

-- An update of the events alone, that keeps each event's identity and whether it is indexed.
pub events-IsPaired :
    (events : List ContextEvent) (outbox : List OutboxRow) (q : ContextEvent → Bool)
    (g : ContextEvent → ContextEvent)
    → IsPaired events outbox
    → ((e : ContextEvent) (o : OutboxRow) → Matches e o → Matches (g e) o)
    → IsPaired (update_where q g events) outbox
events-IsPaired events outbox q g paired keeps = record {
  sized = ground (arith, paired.sized, length-update q g events);
  matched = λ i o go.
      let (e, ge, m) = paired.matched i o go in
      (
        (if q e then g e else e),
        get-update_of q g events i e ge,
        elim (Bool-cases (q e)) [ inl hit ↦ rw hit (keeps e o m) | inr miss ↦ rw miss m ],
      );
}

pub lease_all-IsPaired :
    (now : ℕ) (owner : Str) (until : ℕ) (claims : List OutboxClaim) (events : List ContextEvent)
    (outbox : List OutboxRow)
    → IsPaired events outbox
    → IsPaired events (lease_all now owner until claims outbox)
unfolding lease_all
lease_all-IsPaired now owner until [] events outbox paired = paired
lease_all-IsPaired now owner until (c ∷ claims) events outbox paired =
    lease_all-IsPaired now owner until claims events _ (
      outbox-IsPaired events outbox _ (leased owner until c.claim_token) paired (λ e o hit m.
        unfold leased in
        record {
          namespace = m.namespace;
          session = m.session;
          event = m.event;
          sequence = m.sequence;
          indexed = m.indexed;
        }))

pub count-position {ℓ} :
    {A : Type ℓ} (p : A → Bool) (rows : List A)
    → 0 < count_where p rows
    → (k : ℕ) × (r : A) × (get_elem? rows k ≡ some r) × (p r ≡ true)
unfolding count_where
count-position p [] h = absurd (omega arith)
count-position p (x ∷ rows) h = elim (Bool-cases (p x)) [
  | inl hit ↦ (0, x, refl, hit)
  | inr miss ↦ let (k, r, g, hit) = count-position p rows (ground arith) in (suc k, r, g, hit)
]
