-- ===== src/Governor/Defs.antt =====
-- `LibraryContextGovernor`, where a method runs under the lease and the lock of its thread's state.
-- `digest` is `hashlib.sha256` of a text, as 24 hexadecimal digits. Importances are thousandths.
use library_of_context.Prelude.{
  ℕ, Bool, true, false, not, ◌&&◌, ◌||◌, Option, none, some, List, [], ◌∷◌, ◌++◌, leb, ltb,
  if◌then◌else◌, Result, ok, raise, ◌>>=◌, value_error, timeout_error,
}
use library_of_context.Models.{Str, str_eq, Metadata, str, ContextEvent}
use library_of_context.Dict.{elem}
use library_of_context.Text.{codes, estimate_tokens}
use library_of_context.Scopes.{strip, is_empty, validate_identifier, thread_key}
use library_of_context.Ring.Defs.{RecentEventRing}
use library_of_context.Ring
use library_of_context.Store.{
  Store, NewEvent, append_thread_event, set_thread_event_protected, retry_failed_outbox_event,
}
use library_of_context.Indexing.Defs.{Indexer, enqueue}
use library_of_context.Swapper.{WorkingSet}
use library_of_context.Prompt.{PromptBudget, GovernedPrompt}
use library_of_context.Prompt.Defs.{build}

-- The checks of `__init__` in their order, with those of `ThreadKey`, and the budget of the prompt
-- builder.
unfoldable pub governor_budget : Str → Str → ℕ → ℕ → ℕ → ℕ → Result PromptBudget
governor_budget collection session_id token_budget recent_token_budget protected_token_budget
      max_books =
    if is_empty (strip session_id)
    then raise value_error
    else if ltb token_budget 256
    then raise value_error
    else if ltb 128000 token_budget
    then raise value_error
    else if ltb recent_token_budget 64 || leb token_budget recent_token_budget
    then raise value_error
    else if leb token_budget protected_token_budget
    then raise value_error
    else if ltb max_books 1 || ltb 100 max_books
    then raise value_error
    else (thread_key collection session_id >>= λ key. ok (record {
      total_tokens = token_budget;
      recent_tokens = recent_token_budget;
      protected_tokens = protected_token_budget;
      max_books = max_books;
    }))

unfoldable pub roles : List Str
roles = codes "system" ∷ codes "developer" ∷ codes "user" ∷ codes "assistant" ∷ codes "tool" ∷ []

unfoldable pub is_privileged : Str → Bool
is_privileged role = elem role (codes "system" ∷ codes "developer" ∷ [])

-- The arguments of `record`.
pub record Draft : Type 0 where
  pub role : Str
  pub content : Str
  pub metadata : Metadata
  pub importance : Option ℕ
  pub is_protected : Option Bool
  pub event_id : Option Str

-- `event_id or uuid.uuid4().hex`
unfoldable pub id_or : Option Str → Str → Str
id_or none fresh = fresh
id_or (some id) fresh = if is_empty id then fresh else id

-- The thread that the governor serves, with what it shares.
pub record Thread : Type 0 where
  pub store : Store
  pub recent : RecentEventRing
  pub indexer : Indexer
  pub last_prompt_tokens : ℕ
  pub last_prompt_at : Option ℕ

module _ (digest : Str → Str) (session_id collection : Str) where
  -- The event of `_record_locked`, with its checks; `fresh` is from `uuid4`.
  unfoldable pub drafted : ℕ → Str → Draft → Result NewEvent
  unfolding roles is_privileged id_or
  drafted wall fresh d =
      let importance : ℕ = elim d.importance [
        | none ↦ if is_privileged d.role then 850 else 500
        | some i ↦ i
      ] in
      let flag : Bool = elim d.is_protected [ none ↦ is_privileged d.role | some p ↦ p ] in
      if not (elem d.role roles)
      then raise value_error
      else if is_empty (strip d.content)
      then raise value_error
      else if ltb 1000 importance
      then raise value_error
      else (validate_identifier (id_or d.event_id fresh) >>= λ id. ok (record {
        namespace = collection;
        session_id = session_id;
        event_id = id;
        role = d.role;
        content = d.content;
        metadata = d.metadata;
        importance = importance;
        is_protected = flag;
        token_count = estimate_tokens d.content;
        record_id = digest (collection ++ 0 ∷ [] ++ session_id ++ 0 ∷ [] ++ id);
        created_at = wall;
      }))

  -- `_record_locked` behind its checks; `tokens` are those of the claims that the enqueueing makes.
  unfoldable pub record_new : ℕ → (ℕ → Str) → Thread → NewEvent → Result (Thread × ContextEvent)
  record_new wall tokens g n = append_thread_event g.store n >>= λ appended.
      Ring.append g.recent appended.1 >>= λ recent.
      (let (s, x, found) = enqueue wall tokens appended.0 g.indexer in
        ok (record g { store = s; recent = recent; indexer = x }, appended.1))

  unfoldable pub record_locked :
      ℕ → (ℕ → Str) → Str → Thread → Draft → Result (Thread × ContextEvent)
  unfolding drafted record_new
  record_locked wall tokens fresh g d = drafted wall fresh d >>= λ n. record_new wall tokens g n

  -- `protect`
  unfoldable pub protected_draft : Str → Str → Option Str → ℕ → Option Str → Draft
  protected_draft content role label importance event_id = record {
    role = role;
    content = content;
    metadata = elim label [ none ↦ [] | some l ↦ (codes "label", str l) ∷ [] ];
    importance = some importance;
    is_protected = some true;
    event_id = event_id;
  }

  -- `release`
  unfoldable pub release : ℕ → Thread → Str → Result (Thread × Bool)
  release now g event_id = validate_identifier event_id >>= λ id.
      (let (s, released, rewritten) =
          set_thread_event_protected now g.store collection session_id id false in
        let ring = (Ring.set_protected g.recent id false).0 in
        ok (record g { store = s; recent = if released then ring else g.recent }, released))

  -- `retry_failed`
  unfoldable pub retry_failed : ℕ → (ℕ → Str) → Thread → Str → Result (Thread × Bool)
  retry_failed now tokens g event_id = validate_identifier event_id >>= λ id.
      (let (s, retried) = retry_failed_outbox_event now g.store collection session_id id in
        let (t, x, found) = enqueue now tokens s g.indexer in
        ok (
          if retried then record g { store = t; indexer = x } else record g { store = s },
          retried,
        ))

  module _ (printed shown : ℕ → Str) (budget : PromptBudget)
      (refresh : Str → ℕ → ℕ → List Str → Result WorkingSet)
      (protected_events : Store → List ContextEvent) where
    -- `_build_locked`; `flushed` is the answer of `flush`.
    unfoldable pub build_locked :
        ℕ → Thread → Option Str → Str → Bool → Bool → Result (Thread × GovernedPrompt)
    build_locked wall g focus system_prompt strict_freshness flushed =
        if strict_freshness && not flushed
        then raise timeout_error
        else (build printed shown session_id collection budget refresh wall g.store
              (Ring.snapshot g.recent) (protected_events g.store) focus system_prompt
            >>= λ envelope. ok (
              record g { last_prompt_tokens = envelope.token_count; last_prompt_at = some wall },
              envelope,
            ))

    -- `focus or user_message`
    unfoldable pub focus_or : Option Str → Str → Str
    focus_or none message = message
    focus_or (some focus) message = if is_empty focus then message else focus

    unfoldable pub prepare :
        ℕ
        → (ℕ → Str)
        → Str
        → Thread
        → Draft
        → Option Str
        → Str
        → Bool
        → Bool
        → Result (Thread × GovernedPrompt)
    unfolding record_locked build_locked focus_or
    prepare wall tokens fresh g d focus system_prompt strict_freshness flushed =
        record_locked wall tokens fresh g (record d { role = codes "user" }) >>= λ recorded.
        build_locked wall recorded.0 (some (focus_or focus d.content)) system_prompt
          strict_freshness flushed
