-- ===== src/Tests/Stores.antt =====
-- The store's theorems.
use library_of_context.Prelude.{
  ◌≡◌, ◌≤◌, refl, true, false, none, some, [], ◌∷◌, ok, raise, lease_lost, arith,
}
use library_of_context.Models.{str_eq, ContextEvent, pos}
use library_of_context.Text.{codes}
use library_of_context.Scopes.{selection, project, allows, scope_beq, validate_all, thread_key_eq}
use library_of_context.Dict
use library_of_context.Scopes.Defs.{thread_key_beq, strip}
use library_of_context.Prelude.{list_beq, option_beq}
use library_of_context.Scopes.Predicate.{predicate_holds, scope_predicate}
use library_of_context.Store.Tables.{
  Store, ContextRecord, in_thread, is_event, is_active, is_null, is_record, is_row, row_in_thread,
}
use library_of_context.Store.Rows.{count_where, find_where, exists_where, update_where, order_by}
use library_of_context.Store.Positions.{get_elem?}
use library_of_context.Store.Events.{
  append_thread_event, get_thread_event, event_of, row_of, last_sequence, count_thread_events,
  links_record,
}
use library_of_context.Store.Leasing.{
  claim_outbox_events, leased, lease_all, claims_of, is_claimable, is_earlier,
}
use library_of_context.Store.Outbox.{
  is_live_claim, mark_thread_event_indexed, processed, thread_watermarks,
}
use library_of_context.Store.Records.{
  get_visible, upsert_record, same_visibility, has_expired, may_write, linked_events, is_nil,
  updated_row, is_visible,
}
use library_of_context.Dict.{elem}
use library_of_context.Store.Sources.{delete_source, of_source, passes}
use library_of_context.Store.Steps.{Reach, here, next, appends, claims, marks, IsValid}
use library_of_context.Store.Order.{
  empty, empty-IsValid, Reach-in_order, Reach-count_thread_events, Reach-thread_watermarks,
}
use library_of_context.Store.Validity.{Reach-IsValid}
use library_of_context.Store.Events.{pages, wanted, before}
use library_of_context.Store.Pages.{pages_enough}
use library_of_context.Prelude.{◌&&◌, List, ◌<◌}
use library_of_context.Store.Fencing.{stale_token, live_token}
use library_of_context.Store.Retries.{append_thread_event-again, append_thread_event-numbers}
use library_of_context.Store.Visibility.{get_visible-allows, upsert-keeps_visibility}
use library_of_context.Store.SourceCounts.{delete_source_lem}
use library_of_context.Tests.Data.{
  shelf, talk, first, then, one, two, first_row, claimed, tokens, claim, note, noted, of_project,
  finished, leased_row, resumed, next_claim,
}

first-appended : append_thread_event empty first ≡ ok (one, event_of first 1)
unfolding append_thread_event last_sequence find_where exists_where event_of row_of Dict.get
    Dict.put
first-appended = refl

then-appended : append_thread_event one then ≡ ok (two, event_of then 2)
unfolding append_thread_event last_sequence find_where exists_where event_of row_of Dict.get
    Dict.put is_event in_thread links_record thread_key_beq list_beq
then-appended = refl

first-claimed : claim_outbox_events 10 tokens two (codes "w") 1 (pos 1) ≡ ok (claimed, claim ∷ [])
unfolding claim_outbox_events lease_all claims_of is_claimable order_by update_where exists_where
    row_of last_sequence event_of leased is_earlier is_row row_in_thread Dict.get Dict.put
    thread_key_beq list_beq strip
first-claimed = refl

pub reached : Reach empty claimed
reached =
    next
      (next (next here (appends first (event_of first 1) first-appended))
        (appends then (event_of then 2) then-appended))
      (claims 10 tokens (codes "w") 1 (pos 1) (claim ∷ []) first-claimed)

Reach-IsValid_example : IsValid claimed
Reach-IsValid_example = Reach-IsValid reached empty-IsValid

first-marked :
    mark_thread_event_indexed claimed shelf talk (codes "e1") 20 (some (0 ∷ [])) ≡ ok finished
unfolding mark_thread_event_indexed is_live_claim count_where update_where is_row row_in_thread
    is_event in_thread option_beq list_beq event_of last_sequence Dict.get Dict.put thread_key_beq
first-marked = refl

then-claimed :
    claim_outbox_events 30 tokens finished (codes "v") 1 (pos 1) ≡ ok (resumed, next_claim ∷ [])
unfolding claim_outbox_events lease_all claims_of is_claimable order_by update_where exists_where
    processed leased is_earlier is_row row_in_thread list_beq strip
then-claimed = refl

resumed-reached : Reach empty resumed
resumed-reached =
    next (next reached (marks shelf talk (codes "e1") 20 (some (0 ∷ [])) first-marked))
      (claims 30 tokens (codes "v") 1 (pos 1) (next_claim ∷ []) then-claimed)

Reach-in_order_example : is_active (processed 20 first_row) ≡ false
unfolding processed
Reach-in_order_example =
    Reach-in_order resumed resumed-reached 0 1 (processed 20 first_row) leased_row refl refl
      (refl, refl) (omega arith) refl

stale_token_example :
    mark_thread_event_indexed claimed shelf talk (codes "e1") 20 (some (codes "old"))
    ≡ raise lease_lost
unfolding is_row row_in_thread option_beq list_beq
stale_token_example =
    (stale_token claimed reached shelf talk (codes "e1") 0 first_row refl refl (codes "old") refl).1
      20

live_token_example :
    (t : Store) × (mark_thread_event_indexed claimed shelf talk (codes "e1") 20 (some (0 ∷ []))
      ≡ ok t)
    × (get_elem? t.outbox 0 ≡ some (processed 20 first_row))
    × ((e : ContextEvent) × (get_elem? t.events 0 ≡ some e)
        × (is_event shelf talk (codes "e1") e ≡ true)
        × (is_null e.indexed_at ≡ false))
unfolding is_row row_in_thread option_beq list_beq
live_token_example =
    live_token claimed reached shelf talk (codes "e1") 0 first_row refl refl (0 ∷ []) 20 refl refl

Reach-thread_watermarks_example :
    (thread_watermarks claimed shelf talk).indexed_through
    ≤ (thread_watermarks claimed shelf talk).recorded_through
Reach-thread_watermarks_example = (Reach-thread_watermarks claimed reached shelf talk).0

Reach-count_thread_events_example :
    count_thread_events claimed shelf talk ≡ count_where (in_thread shelf talk) claimed.events
Reach-count_thread_events_example = (Reach-count_thread_events claimed reached shelf talk).0

append_thread_event-again_example : append_thread_event two then ≡ ok (two, event_of then 2)
append_thread_event-again_example =
    append_thread_event-again one two then (event_of then 2) tt then-appended

append_thread_event-numbers_example :
    get_thread_event two shelf talk (codes "e2") ≡ some (event_of then 2)
append_thread_event-numbers_example =
    (append_thread_event-numbers one two then (event_of then 2) then-appended).0

get_visible-allows_example :
    (note.namespace ≡ shelf)
    × (note.id ≡ codes "n")
    × (has_expired 7 note ≡ false)
    × (allows of_project note.scope note.owner_session_id note.team_id ≡ true)
unfolding get_visible find_where is_record is_visible has_expired list_beq selection Dict.elem
    scope_beq validate_all predicate_holds scope_predicate
get_visible-allows_example =
    get_visible-allows (project ∷ []) none [] of_project refl 7 noted noted shelf (codes "n") note
      refl

upsert-keeps_visibility_example :
    (new : ContextRecord) × (get_elem? noted.records 0 ≡ some new)
    × (new.namespace ≡ note.namespace)
    × (new.id ≡ note.id)
    × (new.created_at ≡ note.created_at)
    × (same_visibility new note ≡ true)
unfolding upsert_record may_write linked_events is_nil find_where is_record same_visibility
    updated_row update_where list_beq scope_beq option_beq
upsert-keeps_visibility_example = upsert-keeps_visibility noted noted note none refl 0 note refl

delete_source_lem_example : elem note.id (delete_source noted shelf (codes "manual") none).1 ≡ true
unfolding of_source passes list_beq
delete_source_lem_example =
    (delete_source_lem 7 noted shelf (codes "manual") none).3 0 note refl refl

two_wanted : count_where (λ e. wanted shelf talk false e && before none e) two.events < 3
unfolding count_where wanted before in_thread event_of list_beq
two_wanted = omega arith

pages_enough_example :
    (rows : List ContextEvent) × (pages 3 two shelf talk false 1 none ≡ some rows)
pages_enough_example = pages_enough 3 two shelf talk false 1 none two_wanted
