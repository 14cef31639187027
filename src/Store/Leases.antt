-- ===== src/Store/Leases.antt =====
-- Updates of the outbox in place, and the append of a row.
use mathlib.Core.Path.{subst, sym}
use library_of_context.Prelude.{
  ℕ, ◌+◌, ◌≤◌, ◌≡◌, inl, inr, Bool, true, false, not, ◌&&◌, some, List, [], ◌∷◌, ◌++◌, arith,
  Bool-cases,
}
use library_of_context.Models.{Str, str_eq}
use library_of_context.Store.Rows.{update_where, exists_where}
use library_of_context.Store.Tables.{OutboxRow, row_in_thread, is_active, is_claimed}
use library_of_context.Store.Positions.{get_elem?, exists-none, get-snoc}
use library_of_context.Store.Leasing.{is_earlier}
use library_of_context.Store.Outbox.{is_busy}
use library_of_context.Store.Serial.{SameThread, Follows, IsSerial, Keeps, new_row, update-IsSerial}

-- The update keeps the row's identity, and neither revives nor claims it.
pub record Shrinks (o q : OutboxRow) : Type 0 where
  pub keeps : Keeps o q
  pub active : (is_active q && not (is_active o)) ≡ false
  pub claimed : (is_claimed q && not (is_claimed o)) ≡ false

module _ (last : Str → Str → ℕ) (outbox : List OutboxRow) (serial : IsSerial outbox last)
    (p : OutboxRow → Bool) (f : OutboxRow → OutboxRow) where
  pub shrink-IsSerial :
      ((i : ℕ) (o : OutboxRow) → get_elem? outbox i ≡ some o → p o ≡ true → Shrinks o (f o))
      → IsSerial (update_where p f outbox) last
  shrink-IsSerial shrinks =
      update-IsSerial last outbox serial p f (λ i o g h. (shrinks i o g h).keeps)
        λ i j o q gi gj same before. elim (Bool-cases (p o)) [
          | inl ho ↦ elim (Bool-cases (p q)) [
            | inl hq ↦
                let so = shrinks i o gi ho in
                let sq = shrinks j q gj hq in
                rw (ho, hq) (ground (arith, before.exclusive, so.active, sq.claimed))
            | inr hq ↦
                let so = shrinks i o gi ho in
                rw (ho, hq) (ground (arith, before.exclusive, so.active))
          ]
          | inr ho ↦ elim (Bool-cases (p q)) [
            | inl hq ↦
                let sq = shrinks j q gj hq in
                rw (ho, hq) (ground (arith, before.exclusive, sq.claimed))
            | inr hq ↦ rw (ho, hq) before.exclusive
          ]
        ]

  -- Rows may be claimed that are the first unfinished ones of their threads.
  pub lease-IsSerial :
      ((i : ℕ) (o : OutboxRow) → get_elem? outbox i ≡ some o → p o ≡ true → Keeps o (f o))
      → ((o : OutboxRow) → is_active (f o) ≡ is_active o)
      → ((i : ℕ) (o : OutboxRow)
          → get_elem? outbox i ≡ some o
          → p o ≡ true
          → exists_where (is_earlier o) outbox ≡ false)
      → IsSerial (update_where p f outbox) last
  lease-IsSerial keeps same_active first =
      update-IsSerial last outbox serial p f keeps λ i j o q gi gj same before.
        let active : is_active (new_row p f o) ≡ is_active o = ground (arith, same_active o) in
        elim (Bool-cases (p q)) [
          | inl hq ↦
              let none_earlier = exists-none (is_earlier q) outbox i o (first j q gj hq) gi in
              rw active (
                unfold is_earlier row_in_thread in
                ground (
                  arith,
                  none_earlier,
                  before.later,
                  str_eq.beq_iff o.namespace q.namespace,
                  str_eq.beq_iff o.session_id q.session_id,
                ))
          | inr hq ↦ rw (active, hq) before.exclusive
        ]

  -- Unclaimed rows may become active again, where no other row of the thread is claimed.
  pub retry-IsSerial :
      ((i : ℕ) (o : OutboxRow) → get_elem? outbox i ≡ some o → p o ≡ true → Keeps o (f o))
      → ((o : OutboxRow) → is_claimed (f o) ≡ false)
      → ((i : ℕ) (o : OutboxRow)
          → get_elem? outbox i ≡ some o
          → p o ≡ true
          → exists_where (is_busy o) outbox ≡ false)
      → IsSerial (update_where p f outbox) last
  retry-IsSerial keeps unclaimed free =
      update-IsSerial last outbox serial p f keeps λ i j o q gi gj same before.
        elim (Bool-cases (p q)) [
          | inl hq ↦ rw hq (ground (arith, unclaimed q))
          | inr hq ↦ elim (Bool-cases (p o)) [
            | inl ho ↦
                let not_busy = exists-none (is_busy o) outbox j q (free i o gi ho) gj in
                rw (ho, hq)
                  (unfold is_busy row_in_thread in
                    ground (
                      arith,
                      not_busy,
                      before.other,
                      str_eq.beq_iff q.namespace o.namespace,
                      str_eq.beq_iff q.session_id o.session_id,
                      str_eq.beq_iff q.event_id o.event_id,
                      str_eq.beq_iff o.event_id q.event_id,
                    ))
            | inr ho ↦ rw (ho, hq) before.exclusive
          ]
        ]

-- A row goes to the end, with an identifier that is new in its thread and the next number.
pub append-IsSerial :
    (last last' : Str → Str → ℕ) (outbox : List OutboxRow) (n : OutboxRow)
    → IsSerial outbox last
    → is_claimed n ≡ false
    → ((i : ℕ) (o : OutboxRow)
        → get_elem? outbox i ≡ some o
        → SameThread o n
        → str_eq.beq o.event_id n.event_id ≡ false)
    → n.sequence ≡ last n.namespace n.session_id + 1
    → last' n.namespace n.session_id ≡ n.sequence
    → ((namespace session_id : Str) → last namespace session_id ≤ last' namespace session_id)
    → IsSerial (outbox ++ n ∷ []) last'
append-IsSerial last last' outbox n serial unclaimed fresh next head grows = record {
  follows = λ i j o q gi gj lt same. elim (get-snoc outbox n j q gj) [
    | inl old ↦ elim (get-snoc outbox n i o gi) [
      | inl older ↦ serial.follows i j o q older.0 old.0 lt same
      | inr newer ↦ absurd (omega (arith, newer.1, old.1))
    ]
    | inr new ↦ elim (get-snoc outbox n i o gi) [
      | inl older ↦
          let together : SameThread o n = (cc (same.0, new.0), cc (same.1, new.0)) in
          let bound = serial.headed i o older.0 in
          let rank : last o.namespace o.session_id ≡ last n.namespace n.session_id =
            cc (together.0, together.1) in
          subst (Follows o) (sym new.0) (record {
            later = omega (arith, bound, rank, next);
            other = fresh i o older.0 together;
            exclusive = ground (arith, unclaimed);
          })
      | inr newer ↦ absurd (omega (arith, newer.1, new.1))
    ]
  ];
  lively = λ i o gi. elim (get-snoc outbox n i o gi) [
    | inl old ↦ serial.lively i o old.0
    | inr new ↦
        subst (λ (r : OutboxRow). (is_claimed r && not (is_active r)) ≡ false) (sym new.0)
          (ground (arith, unclaimed))
  ];
  headed = λ i o gi. elim (get-snoc outbox n i o gi) [
    | inl old ↦ omega (arith, serial.headed i o old.0, grows o.namespace o.session_id)
    | inr new ↦
        subst (λ (r : OutboxRow). r.sequence ≤ last' r.namespace r.session_id) (sym new.0)
          (omega (arith, head))
  ];
}
