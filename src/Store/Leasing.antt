-- ===== src/Store/Leasing.antt =====
-- The outbox: `claim_outbox_events`, which leases rows with fencing tokens.
use library_of_context.Prelude.{
  ℕ, ◌+◌, Bool, true, false, not, ◌&&◌, ◌||◌, none, some, List, [], ◌∷◌, ltb, leb, ◌==◌,
  if◌then◌else◌, length, take, keep, max, Result, ok, raise, value_error,
}
use library_of_context.Models.{Str, str_eq, ℤ, pos_part}
use library_of_context.Scopes.{strip}
use library_of_context.Store.Rows.{exists_where, order_by, update_where}
use library_of_context.Store.Tables.{
  Store, OutboxRow, OutboxClaim, row_in_thread, is_row, is_active,
}

-- One second, in ticks of the clock.
abbrev pub second : ℕ
second = 1000000

-- `lease_owner IS NULL OR (lease_owner <> ? AND lease_until <= ?)`
unfoldable pub is_leasable : ℕ → Str → OutboxRow → Bool
is_leasable now owner o = elim o.lease_owner [
  | none ↦ true
  | some holder ↦
      not (str_eq.beq holder owner)
      && elim o.lease_until [ none ↦ false | some until ↦ leb until now ]
]

-- The row of the `NOT EXISTS` clause: an unfinished earlier event of the thread of `o`.
unfoldable pub is_earlier : OutboxRow → OutboxRow → Bool
is_earlier o earlier =
    row_in_thread o.namespace o.session_id earlier
    && is_active earlier
    && ltb earlier.sequence o.sequence

unfoldable pub is_claimable : ℕ → Str → List OutboxRow → OutboxRow → Bool
unfolding is_leasable is_earlier
is_claimable now owner outbox o =
    is_active o
    && leb o.available_at now
    && is_leasable now owner o
    && not (exists_where (is_earlier o) outbox)

-- `ORDER BY created_at, sequence`
unfoldable pub created_before : OutboxRow → OutboxRow → Bool
created_before a b =
    ltb a.created_at b.created_at || (a.created_at == b.created_at && leb a.sequence b.sequence)

-- One claim for each selected row, with a token of its own. `tokens` stands for `uuid4`.
unfoldable pub claims_of : (ℕ → Str) → ℕ → List OutboxRow → List OutboxClaim
claims_of tokens i [] = []
claims_of tokens i (o ∷ rows) =
    record {
      namespace = o.namespace;
      event_id = o.event_id;
      session_id = o.session_id;
      sequence = o.sequence;
      attempts = o.attempts;
      claim_token = tokens i;
    }
    ∷ claims_of tokens (i + 1) rows

unfoldable pub leased : Str → ℕ → Str → OutboxRow → OutboxRow
leased owner lease_until token o = record o {
  lease_owner = some owner;
  lease_until = some lease_until;
  claim_token = some token;
}

-- The `executemany` of the claims.
unfoldable pub lease_all : ℕ → Str → ℕ → List OutboxClaim → List OutboxRow → List OutboxRow
unfolding leased is_leasable
lease_all now owner lease_until [] outbox = outbox
lease_all now owner lease_until (c ∷ claims) outbox = lease_all now owner lease_until claims (
    update_where
      (λ o. is_row c.namespace c.session_id c.event_id o && is_active o && is_leasable now owner o)
      (leased owner lease_until c.claim_token) outbox)

unfoldable pub claim_outbox_events :
    ℕ → (ℕ → Str) → Store → Str → ℕ → ℤ → Result (Store × List OutboxClaim)
unfolding claims_of lease_all is_claimable created_before
claim_outbox_events now tokens s owner limit lease_seconds =
    let lease_until = now + max second (pos_part lease_seconds) in
    let rows =
      take (max 1 limit)
        (order_by created_before (keep (is_claimable now owner s.outbox) s.outbox)) in
    let claims = claims_of tokens 0 rows in
    if length (strip owner) == 0
    then raise value_error
    else ok (record s { outbox = lease_all now owner lease_until claims s.outbox }, claims)
