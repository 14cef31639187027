-- ===== src/Text/Bounds.antt =====
-- What `estimate_tokens` and `truncate_text` promise about sizes.
use library_of_context.Prelude.{
  ℕ, ◌+◌, ◌-◌, ◌*◌, ◌/◌, ◌≤◌, ◌≡◌, [], ◌∷◌, ◌++◌, arith, length, take, length-append, length-take,
}
use library_of_context.Models.{Str}
use library_of_context.Text.Defs.{estimate_tokens, rstrip, truncate_text}

pub estimate_tokens_lem : (text : Str) → estimate_tokens text ≡ (length text + 3) / 4
unfolding estimate_tokens
estimate_tokens_lem [] = omega arith
estimate_tokens_lem (c ∷ text) = omega arith

pub length-rstrip : (text : Str) → length (rstrip text) ≤ length text
unfolding rstrip
length-rstrip [] = omega arith
length-rstrip (c ∷ text) = ground (arith, length-rstrip text)

-- The estimate of a concatenation is at most the sum of the estimates, and misses it by at most
-- one token.
pub estimate_tokens-append :
    (s t : Str)
    → (estimate_tokens (s ++ t) ≤ estimate_tokens s + estimate_tokens t)
      × (estimate_tokens s + estimate_tokens t ≤ estimate_tokens (s ++ t) + 1)
estimate_tokens-append s t = omega (
  arith,
  estimate_tokens_lem s,
  estimate_tokens_lem t,
  estimate_tokens_lem (s ++ t),
  length-append s t,
)

-- Whatever the text, the budget and the marker, the truncated text fits the budget.
pub truncate_text-le :
    (text : Str) (token_budget : ℕ) (marker : Str)
    → estimate_tokens (truncate_text text token_budget marker) ≤ token_budget
unfolding truncate_text
truncate_text-le text token_budget marker =
    let room = (token_budget - estimate_tokens marker) * 4 in
    ground (
      arith,
      estimate_tokens_lem [],
      estimate_tokens_lem marker,
      estimate_tokens_lem (take (token_budget * 4) text),
      length-take (token_budget * 4) text,
      estimate_tokens_lem (rstrip (take room text) ++ marker),
      length-append (rstrip (take room text)) marker,
      length-rstrip (take room text),
      length-take room text,
    )
