-- ===== src/Swapper/Packed.antt =====
-- The books that `_pack_hits` selects, and the text that it joins them to.
use library_of_context.Prelude.{
  ℕ, zero, suc, ◌+◌, ◌≤◌, ◌≡◌, ◌⊎◌, inl, inr, refl, sym, true, false, Option, none, some, List, [],
  ◌∷◌, ◌++◌, if◌then◌else◌, length, length-append, arith, Bool-cases, Option-cases,
}
use mathlib.Core.List.{append-nil, append_assoc}
use library_of_context.Models.{Str}
use library_of_context.Text.{estimate_tokens}
use library_of_context.Swapper.Hits.{SearchHit}
use library_of_context.Swapper.Packing.{
  joined, book, fits, cut_book, fit_text, pack_from, pack_hits,
}
use library_of_context.Swapper.Longest.{Best, fit_text_lem, cut_fits}

module _ (shown : ℕ → Str) (token_budget : ℕ) where
  -- The longest cut of the book's text that fits, of those with at most so many characters, by
  -- trying them all.
  unfoldable pub longest_fit : List Str → SearchHit → ℕ → Option Str
  longest_fit sections hit zero = none
  longest_fit sections hit (suc n) =
      let section = cut_book shown token_budget hit (suc n) in
      let rest = longest_fit sections hit n in
      if fits shown token_budget sections section then some section else rest

  longest_fit_lem :
      (sections : List Str) (hit : SearchHit) (size k : ℕ) (fitted : Option Str)
      → k ≤ size
      → Best shown token_budget sections hit k fitted
      → (k ≡ size)
        ⊎ (fits shown token_budget sections (cut_book shown token_budget hit (k + 1)) ≡ false)
      → longest_fit sections hit size ≡ fitted
  unfolding longest_fit
  longest_fit_lem sections hit zero k none inside best top = refl
  longest_fit_lem sections hit zero k (some s) inside best top = absurd (omega arith)
  longest_fit_lem sections hit (suc n) k none inside best top = ground (
    arith,
    longest_fit_lem sections hit n k none,
    cut_fits shown token_budget sections hit (k + 1) (suc n),
  )
  longest_fit_lem sections hit (suc n) k (some s) inside best top = ground (
    arith,
    longest_fit_lem sections hit n k (some s),
    cut_fits shown token_budget sections hit (k + 1) (suc n),
  )

  -- The search by halves finds what trying all cuts finds.
  fit_text-longest_fit :
      (sections : List Str) (hit : SearchHit) (size : ℕ)
      → fit_text shown token_budget size sections hit 1 size none ≡ longest_fit sections hit size
  fit_text-longest_fit sections hit size =
      let (k, inside, best, top) =
        fit_text_lem shown token_budget sections hit size size 1 size 0 none refl (omega arith)
          (omega arith) (omega arith) refl (inl refl) in
      sym (longest_fit_lem sections hit size k _ inside best top)

  -- At most so many books behind the sections: whole ones while they fit, then the longest cut of
  -- the next one.
  unfoldable pub greedy : ℕ → List SearchHit → List Str → List (SearchHit × Str)
  unfolding longest_fit
  greedy zero ordered sections = []
  greedy (suc n) [] sections = []
  greedy (suc n) (hit ∷ ordered) sections =
      let section = book shown token_budget hit hit.context_record.text in
      let rest = greedy n ordered (sections ++ section ∷ []) in
      let cut = longest_fit sections hit (length hit.context_record.text) in
      if fits shown token_budget sections section
      then (hit, section) ∷ rest
      else elim cut [ none ↦ [] | some fitted ↦ (hit, fitted) ∷ [] ]

abbrev pub hits_in : List (SearchHit × Str) → List SearchHit
hits_in [] = []
hits_in ((hit, section) ∷ books) = hit ∷ hits_in books

abbrev pub sections_in : List (SearchHit × Str) → List Str
sections_in [] = []
sections_in ((hit, section) ∷ books) = section ∷ sections_in books

predecessor : (n : ℕ) → 1 ≤ n → (m : ℕ) × (n ≡ suc m)
predecessor zero h = absurd (omega arith)
predecessor (suc n) h = (n, refl)

module _ (shown : ℕ → Str) (token_budget top_k : ℕ) where
  pack_from-greedy :
      (ordered selected : List SearchHit) (sections : List Str) (room : ℕ)
      → length selected + suc room ≡ top_k
      → pack_from shown token_budget top_k ordered selected sections ≡ (
        selected ++ hits_in (greedy shown token_budget (suc room) ordered sections),
        sections ++ sections_in (greedy shown token_budget (suc room) ordered sections),
      )
  unfolding pack_from greedy
  pack_from-greedy [] selected sections room count =
      ground (arith, append-nil selected, append-nil sections)
  pack_from-greedy (hit ∷ ordered) selected sections zero count = ground (
    arith,
    length-append selected (hit ∷ []),
    fit_text-longest_fit shown token_budget sections hit (length hit.context_record.text),
    append-nil selected,
    append-nil sections,
  )
  pack_from-greedy (hit ∷ ordered) selected sections (suc room) count =
      let section = book shown token_budget hit hit.context_record.text in
      let behind =
        pack_from-greedy ordered (selected ++ hit ∷ []) (sections ++ section ∷ []) room
          (omega (arith, length-append selected (hit ∷ []), count)) in
      let books = greedy shown token_budget (suc room) ordered (sections ++ section ∷ []) in
      ground (
        arith,
        behind,
        length-append selected (hit ∷ []),
        fit_text-longest_fit shown token_budget sections hit (length hit.context_record.text),
        append-nil selected,
        append-nil sections,
        append_assoc selected (hit ∷ []) (hits_in books),
        append_assoc sections (section ∷ []) (sections_in books),
      )

  -- For at least one book: the selected hits and their text are those of the greedy choice, that
  -- takes books whole, in order, while the text with them fits the budget and there are fewer than
  -- `top_k`, and then the longest cut of the next book with which the text fits, if there is one.
  pub pack_hits-greedy :
      (ordered : List SearchHit)
      → 1 ≤ top_k
      → pack_hits shown token_budget ordered top_k ≡ (
        hits_in (greedy shown token_budget top_k ordered []),
        joined (sections_in (greedy shown token_budget top_k ordered [])),
      )
  unfolding pack_hits
  pack_hits-greedy ordered some_room =
      let (room, e) = predecessor top_k some_room in
      ground (arith, pack_from-greedy ordered [] [] room (omega (arith, e)), e)

module _ (shown : ℕ → Str) (token_budget : ℕ) where
  longest_fit-fits :
      (sections : List Str) (hit : SearchHit) (size : ℕ) (section : Str)
      → longest_fit shown token_budget sections hit size ≡ some section
      → fits shown token_budget sections section ≡ true
  unfolding longest_fit
  longest_fit-fits sections hit zero section found = ground arith
  longest_fit-fits sections hit (suc n) section found =
      ground (arith, longest_fit-fits sections hit n section)

  greedy-fits :
      (n : ℕ) (ordered : List SearchHit) (sections : List Str)
      → estimate_tokens (joined sections) ≤ token_budget
      → estimate_tokens
          (joined (sections ++ sections_in (greedy shown token_budget n ordered sections)))
        ≤ token_budget
  unfolding greedy fits
  greedy-fits zero ordered sections h = ground (arith, append-nil sections)
  greedy-fits (suc n) [] sections h = ground (arith, append-nil sections)
  greedy-fits (suc n) (hit ∷ ordered) sections h =
      let section = book shown token_budget hit hit.context_record.text in
      let size = length hit.context_record.text in
      elim (Option-cases (longest_fit shown token_budget sections hit size)) [
        | inl nothing ↦ ground (
          arith,
          append-nil sections,
          nothing,
          greedy-fits n ordered (sections ++ section ∷ []),
          append_assoc sections (section ∷ [])
              (sections_in (greedy shown token_budget n ordered (sections ++ section ∷ []))),
        )
        | inr (cut, found) ↦ ground (
          arith,
          found,
          longest_fit-fits sections hit size cut found,
          greedy-fits n ordered (sections ++ section ∷ []),
          append_assoc sections (section ∷ [])
              (sections_in (greedy shown token_budget n ordered (sections ++ section ∷ []))),
        )
      ]

  greedy-prefix :
      (n : ℕ) (ordered : List SearchHit) (sections : List Str)
      → (length (hits_in (greedy shown token_budget n ordered sections)) ≤ n)
        × (left_out : List SearchHit) × (ordered
            ≡ hits_in (greedy shown token_budget n ordered sections) ++ left_out)
  unfolding greedy
  greedy-prefix zero ordered sections = (omega arith, ordered, refl)
  greedy-prefix (suc n) [] sections = (omega arith, [], refl)
  greedy-prefix (suc n) (hit ∷ ordered) sections =
      let section = book shown token_budget hit hit.context_record.text in
      let size = length hit.context_record.text in
      let (few, left_out, e) = greedy-prefix n ordered (sections ++ section ∷ []) in
      elim (Bool-cases (fits shown token_budget sections section)) [
        | inl whole ↦ (ground (arith, whole, few), left_out, ground (arith, whole, e))
        | inr long ↦ elim (Option-cases (longest_fit shown token_budget sections hit size)) [
          | inl nothing ↦
              (ground (arith, long, nothing), hit ∷ ordered, ground (arith, long, nothing))
          | inr (cut, found) ↦ (ground (arith, long, found), ordered, ground (arith, long, found))
        ]
      ]

  -- For at least one book: the text that the selected books are joined to fits the budget, there
  -- are at most `top_k`, and they are the first ones of the list, in its order.
  pub pack_hits-bounds :
      (ordered : List SearchHit) (top_k : ℕ)
      → 1 ≤ top_k
      → (estimate_tokens (pack_hits shown token_budget ordered top_k).1 ≤ token_budget)
        × (length (pack_hits shown token_budget ordered top_k).0 ≤ top_k)
        × (left_out : List SearchHit) × (ordered
            ≡ (pack_hits shown token_budget ordered top_k).0 ++ left_out)
  pack_hits-bounds ordered top_k some_room =
      let same = pack_hits-greedy shown token_budget top_k ordered some_room in
      let (few, left_out, e) = greedy-prefix top_k ordered [] in
      (
        ground (
          arith,
          same,
          greedy-fits top_k ordered [] (unfold estimate_tokens joined in omega arith),
        ),
        ground (arith, same, few),
        left_out,
        ground (arith, same, e),
      )
