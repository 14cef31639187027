-- ===== src/Swapper/Longest.antt =====
-- The binary search for the text of the last book: it ends within as many rounds as the text has
-- characters.
use library_of_context.Prelude.{
  ℕ, zero, suc, ◌+◌, ◌-◌, ◌/◌, ◌≤◌, ◌<◌, ◌≡◌, ◌⊎◌, inl, inr, refl, true, false, Option, none, some,
  List, [], ◌∷◌, ◌++◌, leb, length, take, sum_by, length-append, sum_by-append, arith, Bool-cases,
}
use library_of_context.Models.{Str}
use library_of_context.Text.{codes}
use library_of_context.Text.Bounds.{estimate_tokens_lem}
use library_of_context.Markup.{
  format_library_book, escape_library_text, escape_library_attribute, escape, escaped,
  replace_control, replace_disallowed_controls,
}
use library_of_context.Swapper.Hits.{SearchHit}
use library_of_context.Swapper.Packing.{
  joined, book, fits, cut_book, fit_text, book_truncation_marker,
}

abbrev separated : Str → ℕ
separated section = length section + 2

pub length-joined_snoc :
    (sections : List Str) (section : Str)
    → length (joined (sections ++ section ∷ [])) ≡ sum_by separated sections + length section
unfolding joined
length-joined_snoc [] section = omega arith
length-joined_snoc (s ∷ []) section =
    ground (arith, length-append (s ++ codes "\n\n") section, length-append s (codes "\n\n"))
length-joined_snoc (s ∷ t ∷ sections) section = ground (
  arith,
  length-append (s ++ codes "\n\n") (joined ((t ∷ sections) ++ section ∷ [])),
  length-append s (codes "\n\n"),
  length-joined_snoc (t ∷ sections) section,
)

abbrev width : ℕ → ℕ
width c = length (escaped false (replace_control c))

length-escape_library_text : (text : Str) → length (escape_library_text text) ≡ sum_by width text
unfolding escape_library_text replace_disallowed_controls escape
length-escape_library_text [] = refl
length-escape_library_text (c ∷ text) = ground (
  arith,
  length-append (escaped false (replace_control c)) (escape_library_text text),
  length-escape_library_text text,
)

sum_by-take {ℓ} :
    {A : Type ℓ} (f : A → ℕ) (m n : ℕ) (xs : List A)
    → m ≤ n
    → sum_by f (take m xs) ≤ sum_by f (take n xs)
sum_by-take f zero n xs h = omega arith
sum_by-take f (suc m) zero xs h = absurd (omega arith)
sum_by-take f (suc m) (suc n) [] h = omega arith
sum_by-take f (suc m) (suc n) (x ∷ xs) h = omega (arith, sum_by-take f m n xs (omega arith))

sum_by-cut :
    (m n : ℕ) (text marker : Str)
    → m ≤ n
    → sum_by width (take m text ++ marker) ≤ sum_by width (take n text ++ marker)
sum_by-cut m n text marker h = omega (
  arith,
  sum_by-append width (take m text) marker,
  sum_by-append width (take n text) marker,
  sum_by-take width m n text h,
)

length-framed :
    (before s t after : Str)
    → length s ≤ length t
    → length (before ++ s ++ after) ≤ length (before ++ t ++ after)
length-framed before s t after h = omega (
  arith,
  length-append (before ++ s) after,
  length-append (before ++ t) after,
  length-append before s,
  length-append before t,
  h,
)

-- A book up to its text.
abbrev book_head : (ℕ → Str) → SearchHit → Str
book_head shown hit =
    codes "<library-book id=\""
    ++ escape_library_attribute hit.context_record.id
    ++ codes "\" source=\""
    ++ escape_library_attribute hit.context_record.source
    ++ codes "\" relevance=\""
    ++ shown hit.score
    ++ codes "\">\n"

module _ (shown : ℕ → Str) (token_budget : ℕ) where
  length-book :
      (hit : SearchHit) (s t : Str)
      → sum_by width s ≤ sum_by width t
      → length (book shown token_budget hit s) ≤ length (book shown token_budget hit t)
  unfolding book format_library_book
  length-book hit s t h =
      length-framed (book_head shown hit) (escape_library_text s) (escape_library_text t)
        (codes "\n</library-book>")
        (omega (arith, length-escape_library_text s, length-escape_library_text t, h))

  fits-length :
      (sections : List Str) (s t : Str)
      → length s ≤ length t
      → fits shown token_budget sections t ≡ true
      → fits shown token_budget sections s ≡ true
  unfolding fits
  fits-length sections s t h good = ground (
    arith,
    estimate_tokens_lem (joined (sections ++ s ∷ [])),
    estimate_tokens_lem (joined (sections ++ t ∷ [])),
    length-joined_snoc sections s,
    length-joined_snoc sections t,
  )

  -- A shorter cut of a book that fits fits.
  pub cut_fits :
      (sections : List Str) (hit : SearchHit) (m n : ℕ)
      → m ≤ n
      → fits shown token_budget sections (cut_book shown token_budget hit n) ≡ true
      → fits shown token_budget sections (cut_book shown token_budget hit m) ≡ true
  unfolding cut_book
  cut_fits sections hit m n h good =
      fits-length sections (cut_book shown token_budget hit m) (cut_book shown token_budget hit n)
        (length-book hit (take m hit.context_record.text ++ book_truncation_marker)
          (take n hit.context_record.text ++ book_truncation_marker)
          (sum_by-cut m n hit.context_record.text book_truncation_marker h))
        good

  module _ (sections : List Str) (hit : SearchHit) where
    -- What the search knows when it has tried all cuts up to `k`: the best of them.
    abbrev pub Best : ℕ → Option Str → Type 0
    Best k none = k ≡ 0
    Best k (some section) =
        (1 ≤ k)
        × (section ≡ cut_book shown token_budget hit k)
        × (fits shown token_budget sections section ≡ true)

    -- The result of the search over a text of a given size.
    abbrev pub IsLongest : ℕ → Option Str → Type 0
    IsLongest size fitted =
        (k : ℕ) × (k ≤ size)
        × Best k fitted
        × ((k ≡ size)
            ⊎ (fits shown token_budget sections (cut_book shown token_budget hit (k + 1)) ≡ false))

    fit_text_none :
        (low high : ℕ) (fitted : Option Str)
        → fit_text shown token_budget 0 sections hit low high fitted ≡ fitted
    unfolding fit_text
    fit_text_none low high fitted = refl

    module _ (fuel low high : ℕ) (fitted : Option Str) where
      fit_text_end :
          high < low → fit_text shown token_budget (suc fuel) sections hit low high fitted ≡ fitted
      unfolding fit_text
      fit_text_end h = ground arith

      fit_text_good :
          low ≤ high
          → fits shown token_budget sections (cut_book shown token_budget hit ((low + high) / 2))
            ≡ true
          → fit_text shown token_budget (suc fuel) sections hit low high fitted
            ≡ fit_text shown token_budget fuel sections hit
                ((low + high) / 2 + 1)
                high
                (some (cut_book shown token_budget hit ((low + high) / 2)))
      unfolding fit_text
      fit_text_good h good = ground arith

      fit_text_bad :
          low ≤ high
          → fits shown token_budget sections (cut_book shown token_budget hit ((low + high) / 2))
            ≡ false
          → fit_text shown token_budget (suc fuel) sections hit low high fitted
            ≡ fit_text shown token_budget fuel sections hit low ((low + high) / 2 - 1) fitted
      unfolding fit_text
      fit_text_bad h bad = ground arith

    -- What is known above the range of the search.
    abbrev Above : ℕ → ℕ → Type 0
    Above size high =
        (high ≡ size)
        ⊎ (fits shown token_budget sections (cut_book shown token_budget hit (high + 1)) ≡ false)

    ended :
        (size high k : ℕ) (fitted : Option Str)
        → high ≡ k
        → k ≤ size
        → Best k fitted
        → Above size high
        → IsLongest size fitted
    ended size high k fitted e inside best top = (k, inside, best, ground (arith, top, e))

    pub fit_text_lem :
        (fuel size low high k : ℕ) (fitted : Option Str)
        → low ≡ k + 1
        → high + 1 ≤ low + fuel
        → k ≤ high
        → high ≤ size
        → Best k fitted
        → Above size high
        → IsLongest size (fit_text shown token_budget fuel sections hit low high fitted)
    fit_text_lem zero size low high k fitted start enough ordered inside best top =
        rw (fit_text_none low high fitted)
          (ended size high k fitted (omega arith) (omega arith) best top)
    fit_text_lem (suc fuel) size low high k fitted start enough ordered inside best top =
        let midpoint = (low + high) / 2 in
        let section = cut_book shown token_budget hit midpoint in
        elim (Bool-cases (leb low high)) [
          | inl going ↦
              let bounds : (low ≤ midpoint) × (midpoint ≤ high) × (low ≤ high) =
                ground (arith, going) in
              elim (Bool-cases (fits shown token_budget sections section)) [
                | inl good ↦ rw (fit_text_good fuel low high fitted bounds.2 good) (
                    fit_text_lem fuel size (midpoint + 1) high midpoint (some section) refl
                      (omega (arith, bounds)) (bounds.1) inside (omega (arith, bounds), refl, good)
                      top)
                | inr bad ↦ rw (fit_text_bad fuel low high fitted bounds.2 bad) (
                    fit_text_lem fuel size low (midpoint - 1) k fitted start (omega (arith, bounds))
                      (omega (arith, bounds)) (omega (arith, bounds)) best
                      (ground (arith, bounds, bad)))
              ]
          | inr over ↦
              let past : high < low = ground (arith, over) in
              rw (fit_text_end fuel low high fitted past)
                (ended size high k fitted (omega (arith, past)) (omega arith) best top)
        ]
