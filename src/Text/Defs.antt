-- ===== src/Text/Defs.antt =====
-- The functions of context_cache/text_budget.py and `estimate_tokens`.
use Prim.Native.Char.{code}
use library_of_context.Prelude.{
  ℕ, ◌+◌, ◌-◌, ◌*◌, ◌/◌, String, Bool, ◌||◌, ◌&&◌, List, [], ◌∷◌, ◌++◌, reverse, max, ltb, leb,
  ◌==◌, if◌then◌else◌, length, take, sum_by,
}
use library_of_context.Models.{Str, str_eq, ContextEvent}
use library_of_context.Dict.{elem}

-- The code points of a literal.
abbrev pub codes : String → Str
codes String.[] = []
codes (String.◌∷◌ c s) = code c ∷ codes s

-- `math.ceil(n / 4)` is exact for every length that a string can have.
unfoldable pub estimate_tokens : Str → ℕ
estimate_tokens [] = 0
estimate_tokens text = max 1 ((length text + 3) / 4)

-- `str.isspace` of one character, which `rstrip` and `strip` remove.
unfoldable pub is_space : ℕ → Bool
is_space c =
    (leb 9 c && leb c 13)
    || (leb 28 c && leb c 32)
    || c == 0x85
    || c == 0xA0
    || c == 0x1680
    || (leb 0x2000 c && leb c 0x200A)
    || c == 0x2028
    || c == 0x2029
    || c == 0x202F
    || c == 0x205F
    || c == 0x3000

-- `text.rstrip()`: a character goes if it is white space and nothing is left behind it.
unfoldable pub rstrip : Str → Str
unfolding is_space
rstrip [] = []
rstrip (c ∷ text) = elim (rstrip text) [
  | [] ↦ if is_space c then [] else c ∷ []
  | d ∷ rest ↦ c ∷ d ∷ rest
]

abbrev pub event_truncation_marker : Str
event_truncation_marker = codes " … [full event remains in the Library]"

abbrev pub message_truncation_marker : Str
message_truncation_marker = codes " … [full message remains in the Library]"

unfoldable pub truncate_text : Str → ℕ → Str → Str
truncate_text text token_budget marker =
    let marker_tokens = estimate_tokens marker in
    if token_budget == 0
    then []
    else if leb (estimate_tokens text) token_budget
    then text
    else if leb token_budget marker_tokens
    then take (token_budget * 4) text
    else rstrip (take ((token_budget - marker_tokens) * 4) text) ++ marker

pub record Message : Type 0 where
  pub role : Str
  pub content : Str

unfoldable pub message_token_count : List Message → ℕ
message_token_count = sum_by (λ m. estimate_tokens m.content + 4)

-- The content under which an event enters a selection that has `available` tokens left.
unfoldable pub fitted_content : ContextEvent → ℕ → Str
fitted_content event available =
    if ltb available event.token_count
    then truncate_text event.content available event_truncation_marker
    else event.content

-- The loop of `select_event_tail`, and of `_select_descending_events` in
-- context_cache/prompt_builder.py, over the events newest first. `selected` is what the loop has
-- appended, last first, so that the final `reverse` of the source is the accumulator itself.
unfoldable pub select_newest :
    List ContextEvent → ℕ → List Str → List (ContextEvent × Str) → ℕ → List (ContextEvent × Str) × ℕ
unfolding fitted_content
select_newest [] token_budget excluded selected used = (selected, used)
select_newest (event ∷ events) token_budget excluded selected used =
    let available = token_budget - used - 4 in
    let content = fitted_content event available in
    let cost = estimate_tokens content + 4 in
    let skip = select_newest events token_budget excluded selected used in
    let next =
      select_newest events token_budget excluded ((event, content) ∷ selected) (used + cost) in
    if elem event.event_id excluded
    then skip
    else if available == 0
    then (selected, used)
    else if ltb available event.token_count && leb 1 (length selected)
    then (selected, used)
    else if ltb token_budget (used + cost)
    then (selected, used)
    else next

unfoldable pub select_event_tail : List ContextEvent → ℕ → List Str → List (ContextEvent × Str) × ℕ
select_event_tail events token_budget excluded =
    select_newest (reverse events) token_budget excluded [] 0
