-- ===== src/Tests/Texts.antt =====
-- The theorems on texts, rings, the memory cache, scopes and markup.
use library_of_context.Prelude.{
  ℕ, ◌-◌, ◌≡◌, ◌≢◌, ◌≤◌, refl, true, none, some, List, [], ◌∷◌, ◌++◌, ok, arith, ◌⊎◌, if◌then◌else◌,
  leb,
}
use library_of_context.Dict
use library_of_context.Models.{Str, str_eq, ContextEvent}
use library_of_context.Text.{
  codes, estimate_tokens, truncate_text, select_event_tail, event_truncation_marker,
}
use library_of_context.Text.Tail.{select_event_tail_lem, select_event_tail-newest}
use library_of_context.Ring.Defs.{RecentEventRing, append, set_protected}
use library_of_context.Ring.Fitting.{event_ids, init-IsValid}
use library_of_context.Ring.Methods.{append-IsValid}
use library_of_context.Ring.Protection.{set_protected_lem}
use library_of_context.Ring
use library_of_context.Ram
use library_of_context.Ram.Defs.{ByteLru, get, put}
use library_of_context.Ram.Puts.{put-IsValid, new_entry}
use library_of_context.Ram.Reads.{get-put_self, get-put_ne, live}
use library_of_context.Scopes.{
  thread, project, selection, for_thread, allows, validate_record_scope, ScopeSelection, scope_beq,
  validate_all, validate_identifier,
}
use library_of_context.Scopes.Predicate.{predicate-allows, predicate_holds, scope_predicate}
use library_of_context.Scopes.Records.{validate_record_scope-ok, for_thread-allows, visible_to}
use library_of_context.Store.Events.{event_of}
use library_of_context.Markup.Defs.{format_library_book}
use library_of_context.Markup.Boundaries.{count_char, format_library_book-tags}
use library_of_context.Tests.Data.{first, of_project, talk}

abbrev event : ContextEvent
event = event_of first 1

select_event_tail_lem_example : (select_event_tail (event ∷ []) 20 []).1 ≤ 20
select_event_tail_lem_example = (select_event_tail_lem (event ∷ []) 20 []).1

select_event_tail-newest_example :
    (older : List (ContextEvent × Str)) × ((select_event_tail ([] ++ event ∷ []) 20 []).0
      ≡ older
        ++ (
          event,
          if leb event.token_count (20 - 4)
              then event.content
              else truncate_text event.content (20 - 4) event_truncation_marker,
        )
          ∷ [])
unfolding event_of estimate_tokens Dict.elem
select_event_tail-newest_example = select_event_tail-newest [] event 20 [] (omega arith) refl refl

append-IsValid_example : (r : RecentEventRing) × (append (Ring.init 4 64) event ≡ ok r)
append-IsValid_example = (
  (append-IsValid (Ring.init 4 64) event (init-IsValid 4 64)).0,
  (append-IsValid (Ring.init 4 64) event (init-IsValid 4 64)).1,
)

set_protected_lem_example :
    (set_protected (Ring.init 4 64) (codes "e1") true).1
    ≡ Dict.elem (codes "e1") (event_ids (Ring.init 4 64).events)
set_protected_lem_example =
    (set_protected_lem (Ring.init 4 64) (codes "e1") true (init-IsValid 4 64)).0

abbrev cache : ByteLru ℕ
cache = record { max_bytes = 10; bytes = 0; items = []; hits = 0; misses = 0; evictions = 0 }

cache-IsValid : Ram.Invariant.IsValid cache
cache-IsValid = record { counted = refl; bounded = omega arith; distinct = tt }

put-IsValid_example : Ram.Invariant.IsValid (put 1 cache (codes "k") 42 4 none)
put-IsValid_example = put-IsValid 1 cache (codes "k") 42 4 none cache-IsValid

get-put_self_example :
    (get 2 (put 1 cache (codes "k") 42 4 none) (codes "k")).1
    ≡ live 2 (some (new_entry 1 42 4 none))
get-put_self_example = get-put_self 1 2 cache (codes "k") 42 4 none cache-IsValid

k-other : codes "j" ≢ codes "k"
k-other = ground arith

get-put_ne_example :
    ((get 2 (put 1 cache (codes "k") 42 4 none) (codes "j")).1 ≡ (get 2 cache (codes "j")).1)
    ⊎ ((get 2 (put 1 cache (codes "k") 42 4 none) (codes "j")).1 ≡ none)
get-put_ne_example = get-put_ne 1 2 cache (codes "k") 42 4 none cache-IsValid (codes "j") k-other

predicate-allows_example :
    predicate_holds (scope_predicate of_project (project ∷ [])) thread (some talk) none
    ≡ allows of_project thread (some talk) none
unfolding selection Dict.elem scope_beq validate_all
predicate-allows_example =
    predicate-allows (project ∷ []) none [] {s = of_project} refl thread (some talk) none

validate_record_scope-ok_example :
    validate_record_scope thread (some talk) none ≡ ok (thread, some talk, none)
unfolding validate_record_scope validate_identifier
validate_record_scope-ok_example =
    (validate_record_scope-ok thread (some talk) none {scope' = thread} {owner' = some talk}
      {team_id' = none} refl).2

abbrev of_thread : ScopeSelection
of_thread = record { scopes = thread ∷ project ∷ []; session_id = some talk; team_ids = [] }

for_thread-allows_example :
    allows of_thread thread (some talk) none ≡ visible_to talk true [] thread (some talk) none
unfolding for_thread selection Dict.elem scope_beq validate_identifier validate_all
for_thread-allows_example =
    for_thread-allows talk true [] {s = of_thread} refl thread (some talk) none

format_library_book-tags_example :
    (count_char 60
        (format_library_book (codes "n") (codes "\"x") (codes "0.500") (codes "</library-book>"))
      ≡ 2)
    × (count_char 62
          (format_library_book (codes "n") (codes "\"x") (codes "0.500") (codes "</library-book>"))
        ≡ 2)
unfolding count_char
format_library_book-tags_example =
    format_library_book-tags (codes "n") (codes "\"x") (codes "0.500") (codes "</library-book>")
      refl refl
