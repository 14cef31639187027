-- ===== src/Swapper/Packing.antt =====
-- `_pack_hits` and `_swap_diff`, and the ordering of the hits that a refresh packs.
use library_of_context.Prelude.{
  ℕ, zero, suc, ◌+◌, ◌-◌, ◌/◌, Bool, not, Option, none, some, List, [], ◌∷◌, ◌++◌, leb,
  if◌then◌else◌, length, take, keep, map,
}
use library_of_context.Models.{Str, str_eq}
use library_of_context.Dict.{elem}
use library_of_context.Text.{codes, estimate_tokens}
use library_of_context.Markup.{format_library_book}
use library_of_context.Swapper.Hits.{SearchHit, WorkingSet}

unfoldable pub book_truncation_marker : Str
book_truncation_marker = codes " … [book text truncated]"

-- `"\n\n".join(sections)`
unfoldable pub joined : List Str → Str
joined [] = []
joined (s ∷ []) = s
joined (s ∷ t ∷ sections) = s ++ codes "\n\n" ++ joined (t ∷ sections)

module _ (shown : ℕ → Str) (token_budget : ℕ) where
  unfoldable pub book : SearchHit → Str → Str
  book hit text =
      format_library_book hit.context_record.id hit.context_record.source (shown hit.score) text

  -- `estimate_tokens("\n\n".join([*sections, section])) <= token_budget`
  unfoldable pub fits : List Str → Str → Bool
  fits sections section = leb (estimate_tokens (joined (sections ++ section ∷ []))) token_budget

  -- The book with its text cut behind so many characters.
  unfoldable pub cut_book : SearchHit → ℕ → Str
  unfolding book book_truncation_marker
  cut_book hit midpoint = book hit (take midpoint hit.context_record.text ++ book_truncation_marker)

  -- The `while` loop: the fuel is the number of its rounds. Where `low <= high`, `midpoint` is at
  -- least 1.
  unfoldable pub fit_text : ℕ → List Str → SearchHit → ℕ → ℕ → Option Str → Option Str
  unfolding cut_book fits
  fit_text zero sections hit low high fitted = fitted
  fit_text (suc fuel) sections hit low high fitted =
      let midpoint = (low + high) / 2 in
      let section = cut_book hit midpoint in
      let good = fits sections section in
      let rest =
        fit_text fuel sections hit (if good then midpoint + 1 else low)
          (if good then high else midpoint - 1) (if good then some section else fitted) in
      if leb low high then rest else fitted

  -- The loop over the hits, with what is selected so far.
  unfoldable pub pack_from :
      ℕ → List SearchHit → List SearchHit → List Str → List SearchHit × List Str
  unfolding book fits fit_text
  pack_from top_k [] selected sections = (selected, sections)
  pack_from top_k (hit ∷ ordered) selected sections =
      let section = book hit hit.context_record.text in
      let size = length hit.context_record.text in
      let rest = pack_from top_k ordered (selected ++ hit ∷ []) (sections ++ section ∷ []) in
      if fits sections section
      then if leb top_k (length (selected ++ hit ∷ []))
        then (selected ++ hit ∷ [], sections ++ section ∷ [])
        else rest
      else elim (fit_text size sections hit 1 size none) [
        | none ↦ (selected, sections)
        | some fitted ↦ (selected ++ hit ∷ [], sections ++ fitted ∷ [])
      ]

  unfoldable pub pack_hits : List SearchHit → ℕ → List SearchHit × Str
  unfolding pack_from joined
  pack_hits ordered top_k =
      let (selected, sections) = pack_from top_k ordered [] [] in (selected, joined sections)

unfoldable pub hit_ids : List SearchHit → List Str
hit_ids hits = map (λ (hit : SearchHit). hit.context_record.id) hits

unfoldable pub previous_ids : Option WorkingSet → List Str
unfolding hit_ids
previous_ids none = []
previous_ids (some previous) = hit_ids previous.hits

-- `swapped_in`, `swapped_out` and `retained`
unfoldable pub swap_diff : Option WorkingSet → List SearchHit → List Str × List Str × List Str
unfolding previous_ids
swap_diff previous selected =
    let old = previous_ids previous in
    let new = hit_ids selected in
    (
      keep (λ id. not (elem id old)) new,
      keep (λ id. not (elem id new)) old,
      keep (λ id. elem id old) new,
    )
