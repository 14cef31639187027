-- ===== src/Store/Tables.antt =====
-- The rows of the four tables and the tests on them that the statements share. An embedding is
-- only carried along, and the full-text index mirrors the records: neither is in the model.
use library_of_context.Prelude.{
  ℕ, Bool, true, false, not, ◌&&◌, Option, none, some, List, option_beq,
}
use library_of_context.Models.{Str, str_eq, Metadata, ContextEvent}
use library_of_context.Dict.{Dict}
use library_of_context.Scopes.{ContextScope, ThreadKey, thread_key_eq}

pub record ContextRecord : Type 0 where
  pub id : Str
  pub namespace : Str
  pub text : Str
  pub metadata : Metadata
  pub source : Str
  pub importance : ℕ
  pub token_count : ℕ
  pub created_at : ℕ
  pub updated_at : ℕ
  pub accessed_at : ℕ
  pub expires_at : Option ℕ
  pub content_hash : Str
  pub scope : ContextScope
  pub owner_session_id : Option Str
  pub team_id : Option Str

pub record OutboxRow : Type 0 where
  pub namespace : Str
  pub event_id : Str
  pub session_id : Str
  pub sequence : ℕ
  pub created_at : ℕ
  pub available_at : ℕ
  pub attempts : ℕ
  pub processed_at : Option ℕ
  pub last_error : Option Str
  pub lease_owner : Option Str
  pub lease_until : Option ℕ
  pub claim_token : Option Str
  pub terminal_at : Option ℕ
  pub terminal_error : Option Str

pub record OutboxClaim : Type 0 where
  pub namespace : Str
  pub event_id : Str
  pub session_id : Str
  pub sequence : ℕ
  pub attempts : ℕ
  pub claim_token : Str

pub record ContextWatermarks : Type 0 where
  pub recorded_through : ℕ
  pub embedded_through : ℕ
  pub indexed_through : ℕ
  pub team_synced_through : ℕ
  pub pending_events : ℕ
  pub failed_events : ℕ

pub record Store : Type 0 where
  pub records : List ContextRecord
  pub heads : Dict ThreadKey ℕ
  pub events : List ContextEvent
  pub outbox : List OutboxRow

-- `column IS NULL`
abbrev pub is_null {ℓ} : {A : Type ℓ} → Option A → Bool
is_null none = true
is_null (some a) = false

unfoldable pub in_thread : Str → Str → ContextEvent → Bool
in_thread namespace session_id e =
    str_eq.beq e.namespace namespace && str_eq.beq e.session_id session_id

unfoldable pub is_event : Str → Str → Str → ContextEvent → Bool
unfolding in_thread
is_event namespace session_id event_id e =
    in_thread namespace session_id e && str_eq.beq e.event_id event_id

unfoldable pub row_in_thread : Str → Str → OutboxRow → Bool
row_in_thread namespace session_id o =
    str_eq.beq o.namespace namespace && str_eq.beq o.session_id session_id

unfoldable pub is_row : Str → Str → Str → OutboxRow → Bool
unfolding row_in_thread
is_row namespace session_id event_id o =
    row_in_thread namespace session_id o && str_eq.beq o.event_id event_id

unfoldable pub is_record : Str → Str → ContextRecord → Bool
is_record namespace id r = str_eq.beq r.namespace namespace && str_eq.beq r.id id

-- `processed_at IS NULL AND terminal_at IS NULL`
abbrev pub is_active : OutboxRow → Bool
is_active o = is_null o.processed_at && is_null o.terminal_at

-- `claim_token IS NOT NULL`
abbrev pub is_claimed : OutboxRow → Bool
is_claimed o = not (is_null o.claim_token)

-- `claim_token = ?`
abbrev pub has_token : Str → OutboxRow → Bool
has_token token o = option_beq o.claim_token (some token)
