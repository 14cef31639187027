-- ===== src/Prompt/Framing.antt =====
-- The length of a system message that carries a context.
use library_of_context.Prelude.{
  ℕ, ◌+◌, ◌≤◌, ◌≡◌, false, Option, some, [], ◌∷◌, ◌++◌, length, length-append, arith,
}
use library_of_context.Models.{Str}
use library_of_context.Text.{codes}
use library_of_context.Scopes.{is_empty}
use library_of_context.Markup.{
  format_library_context, escape_library_attribute, escape_library_text, mode_attribute,
  refreshed_attribute, trust_notice,
}
use library_of_context.Swapper.{WorkingSet}
use library_of_context.Prompt.Defs.{PromptBudget, library_block, framed}

length-inside :
    (before context after : Str)
    → length (before ++ context ++ after) ≡ length (before ++ [] ++ after) + length context
length-inside before context after = omega (
  arith,
  length-append (before ++ context) after,
  length-append (before ++ []) after,
  length-append before context,
  length-append before [],
)

-- A formatted context up to the books.
abbrev context_head : Str → Option Str → Option Str → Str
context_head session_id refreshed_at mode =
    codes "<library-context replacement=\"true\" trust=\"untrusted-reference-data\" session=\""
    ++ escape_library_attribute session_id
    ++ codes "\""
    ++ mode_attribute mode
    ++ refreshed_attribute refreshed_at
    ++ codes ">\n<trust-notice>"
    ++ escape_library_text trust_notice
    ++ codes "</trust-notice>\n"

length-format_library_context :
    (books session_id : Str) (refreshed_at mode : Option Str)
    → length (format_library_context books session_id refreshed_at mode)
      ≡ length (format_library_context [] session_id refreshed_at mode) + length books
unfolding format_library_context
length-format_library_context books session_id refreshed_at mode =
    length-inside (context_head session_id refreshed_at mode) books (codes "\n</library-context>")

pub length_nonempty : (s : Str) → is_empty s ≡ false → 1 ≤ length s
unfolding is_empty
length_nonempty [] h = absurd (ground (arith, h))
length_nonempty (c ∷ s) h = omega arith

module _ (printed shown : ℕ → Str) (session_id collection : Str) (budget : PromptBudget) where
  -- The text that a system message has around a context.
  abbrev pub around : Str → WorkingSet → Str
  around system_prompt working =
      framed printed shown session_id collection budget system_prompt
        (record working { context = [] })

  pub length-framed :
      (system_prompt : Str) (working : WorkingSet)
      → length (framed printed shown session_id collection budget system_prompt working)
        ≡ length (around system_prompt working) + length working.context
  unfolding framed library_block
  length-framed system_prompt working =
      let at = some (printed working.refreshed_at) in
      let mode = some (codes "semantic-paging") in
      let whole = format_library_context working.context session_id at mode in
      let empty = format_library_context [] session_id at mode in
      ground (
        arith,
        length-format_library_context working.context session_id at mode,
        length-append (system_prompt ++ codes "\n\n") whole,
        length-append (system_prompt ++ codes "\n\n") empty,
      )
