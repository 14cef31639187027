-- ===== src/Store/Serial.antt =====
-- The order of the outbox within each thread.
use mathlib.Core.Path.{subst, sym}
use library_of_context.Prelude.{
  ℕ, ◌<◌, ◌≤◌, ◌≡◌, refl, inl, inr, Bool, true, false, not, ◌&&◌, some, List, if◌then◌else◌, arith,
  Bool-cases,
}
use library_of_context.Models.{Str, str_eq}
use library_of_context.Store.Rows.{update_where}
use library_of_context.Store.Tables.{OutboxRow, is_active, is_claimed}
use library_of_context.Store.Positions.{get_elem?, get-update}

abbrev pub SameThread : OutboxRow → OutboxRow → Type 0
SameThread o p = (o.namespace ≡ p.namespace) × (o.session_id ≡ p.session_id)

pub record Follows (o p : OutboxRow) : Type 0 where
  pub later : o.sequence < p.sequence
  pub other : str_eq.beq o.event_id p.event_id ≡ false
  pub exclusive : (is_active o && is_claimed p) ≡ false

-- The rows stand in the order of their threads; only an unfinished row is claimed; and no
-- sequence number passes that of the thread's head.
pub record IsSerial (outbox : List OutboxRow) (last : Str → Str → ℕ) : Type 0 where
  pub follows :
      (i j : ℕ) (o p : OutboxRow)
      → get_elem? outbox i ≡ some o
      → get_elem? outbox j ≡ some p
      → i < j
      → SameThread o p
      → Follows o p
  pub lively :
      (i : ℕ) (o : OutboxRow)
      → get_elem? outbox i ≡ some o
      → (is_claimed o && not (is_active o)) ≡ false
  pub headed :
      (i : ℕ) (o : OutboxRow)
      → get_elem? outbox i ≡ some o
      → o.sequence ≤ last o.namespace o.session_id

-- What the update of a row keeps.
pub record Keeps (o q : OutboxRow) : Type 0 where
  pub namespace : q.namespace ≡ o.namespace
  pub session : q.session_id ≡ o.session_id
  pub event : q.event_id ≡ o.event_id
  pub sequence : q.sequence ≡ o.sequence
  pub lively : (is_claimed q && not (is_active q)) ≡ false

Follows-new :
    {o q o' q' o'' q'' : OutboxRow}
    → Follows o q
    → Keeps o o'
    → Keeps q q'
    → (is_active o' && is_claimed q') ≡ false
    → o'' ≡ o'
    → q'' ≡ q'
    → Follows o'' q''
Follows-new {o} {q} {o'} {q'} {o''} {q''} h k l x eo eq =
    subst (λ a. Follows a q'') (sym eo)
      (subst (Follows o') (sym eq)
        (record { later = ground arith; other = cc (h.other, k.event, l.event); exclusive = x }))

-- The row after `UPDATE … SET f WHERE p`.
abbrev pub new_row : (OutboxRow → Bool) → (OutboxRow → OutboxRow) → OutboxRow → OutboxRow
new_row p f o = if p o then f o else o

module _ (last : Str → Str → ℕ) (outbox : List OutboxRow) (serial : IsSerial outbox last) where
  Keeps-refl : (i : ℕ) (o : OutboxRow) → get_elem? outbox i ≡ some o → Keeps o o
  Keeps-refl i o g = record {
    namespace = refl;
    session = refl;
    event = refl;
    sequence = refl;
    lively = serial.lively i o g;
  }

  module _ (p : OutboxRow → Bool) (f : OutboxRow → OutboxRow)
      (keeps : (i : ℕ) (o : OutboxRow)
        → get_elem? outbox i ≡ some o
        → p o ≡ true
        → Keeps o (f o)) where
    Keeps-new_row : (i : ℕ) (o : OutboxRow) → get_elem? outbox i ≡ some o → Keeps o (new_row p f o)
    Keeps-new_row i o g = elim (Bool-cases (p o)) [
      | inl hit ↦ rw hit (keeps i o g hit)
      | inr miss ↦ rw miss (Keeps-refl i o g)
    ]

    -- An update of rows in place keeps the outbox serial, if it leaves no row claimed behind an
    -- unfinished one.
    pub update-IsSerial :
        ((i j : ℕ) (o q : OutboxRow)
          → get_elem? outbox i ≡ some o
          → get_elem? outbox j ≡ some q
          → SameThread o q
          → Follows o q
          → (is_active (new_row p f o) && is_claimed (new_row p f q)) ≡ false)
        → IsSerial (update_where p f outbox) last
    update-IsSerial exclusive = record {
      follows = λ i j o' q' gi gj lt same.
          let (o, go, eo) = get-update p f outbox i o' gi in
          let (q, gq, eq) = get-update p f outbox j q' gj in
          let so = Keeps-new_row i o go in
          let sq = Keeps-new_row j q gq in
          let together : SameThread o q = (
            cc (so.namespace, sq.namespace, eo, eq, same.0),
            cc (so.session, sq.session, eo, eq, same.1),
          ) in
          let before = serial.follows i j o q go gq lt together in
          Follows-new before so sq (exclusive i j o q go gq together before) eo eq;
      lively = λ i o' gi.
          let (o, go, eo) = get-update p f outbox i o' gi in
          subst (λ (r : OutboxRow). (is_claimed r && not (is_active r)) ≡ false) (sym eo)
            (Keeps-new_row i o go).lively;
      headed = λ i o' gi.
          let (o, go, eo) = get-update p f outbox i o' gi in
          let so = Keeps-new_row i o go in
          subst (λ (r : OutboxRow). r.sequence ≤ last r.namespace r.session_id) (sym eo)
            (rw (so.sequence, so.namespace, so.session) (serial.headed i o go));
    }
