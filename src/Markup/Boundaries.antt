-- ===== src/Markup/Boundaries.antt =====
-- The characters that delimit elements and attributes, in escaped text and in a whole book.
use library_of_context.Prelude.{
  ℕ, ◌+◌, ◌≡◌, refl, inl, inr, Bool, true, false, ◌||◌, [], ◌∷◌, ◌++◌, ◌==◌, if◌then◌else◌, arith,
  Bool-cases,
}
use library_of_context.Models.{Str}
use library_of_context.Text.{codes}
use library_of_context.Markup.Defs.{
  replace_disallowed_controls, escaped, escape, flattened, flatten, escape_library_text,
  escape_library_attribute, format_library_book,
}

-- How often a character occurs.
unfoldable pub count_char : ℕ → Str → ℕ
count_char c [] = 0
count_char c (d ∷ s) = (if d == c then 1 else 0) + count_char c s

count-append : (c : ℕ) (s t : Str) → count_char c (s ++ t) ≡ count_char c s + count_char c t
unfolding count_char
count-append c [] t = ground arith
count-append c (d ∷ s) t = ground (arith, count-append c s t)

escaped-free :
    (quote : Bool) (d : ℕ)
    → (count_char 60 (escaped quote d) ≡ 0) × (count_char 62 (escaped quote d) ≡ 0)
unfolding count_char escaped
escaped-free quote d = (ground arith, ground arith)

escape-free :
    (quote : Bool) (s : Str)
    → (count_char 60 (escape quote s) ≡ 0) × (count_char 62 (escape quote s) ≡ 0)
unfolding escape
escape-free quote [] = unfold count_char in (refl, refl)
escape-free quote (d ∷ s) =
    let one = escaped-free quote d in
    let rest = escape-free quote s in
    (
      ground (arith, one, rest, count-append 60 (escaped quote d) (escape quote s)),
      ground (arith, one, rest, count-append 62 (escaped quote d) (escape quote s)),
    )

-- The characters that an attribute's value may not have.
unfoldable pub is_delimiter : ℕ → Bool
is_delimiter c = c == 9 || c == 10 || c == 13 || c == 34 || c == 39 || c == 60 || c == 62

flattened-free :
    (c d : ℕ)
    → is_delimiter c ≡ true
    → count_char c (flattened d)
      ≡ (if c == 9 || c == 10 || c == 13 then 0 else if d == c then 1 else 0)
unfolding count_char flattened is_delimiter
flattened-free c d h = ground arith

flatten-count :
    (c : ℕ) (s : Str)
    → is_delimiter c ≡ true
    → count_char c (flatten s) ≡ (if c == 9 || c == 10 || c == 13 then 0 else count_char c s)
unfolding flatten count_char
flatten-count c [] h = ground arith
flatten-count c (d ∷ s) h =
    ground
      (arith, count-append c (flattened d) (flatten s), flattened-free c d h, flatten-count c s h)

quoted-free :
    (c d : ℕ)
    → is_delimiter c ≡ true
    → (c == 9 || c == 10 || c == 13) ≡ false
    → count_char c (escaped true d) ≡ 0
unfolding count_char escaped is_delimiter
quoted-free c d h k = ground arith

escape-quoted :
    (c : ℕ) (s : Str)
    → is_delimiter c ≡ true
    → (c == 9 || c == 10 || c == 13) ≡ false
    → count_char c (escape true s) ≡ 0
unfolding escape
escape-quoted c [] h k = unfold count_char in refl
escape-quoted c (d ∷ s) h k = ground (
  arith,
  count-append c (escaped true d) (escape true s),
  quoted-free c d h k,
  escape-quoted c s h k,
)

-- Whatever the value is, its escaped form for an attribute has no tab, line feed, carriage return,
-- quotation mark, apostrophe, `<` or `>`, so it cannot end the attribute or the element.
pub escape_library_attribute-closed :
    (value : Str) (c : ℕ)
    → is_delimiter c ≡ true
    → count_char c (escape_library_attribute value) ≡ 0
unfolding escape_library_attribute
escape_library_attribute-closed value c h =
    let v = escape true (replace_disallowed_controls value) in
    elim (Bool-cases (c == 9 || c == 10 || c == 13)) [
      | inl blank ↦ ground (arith, flatten-count c v h)
      | inr other ↦
          ground (
            arith,
            flatten-count c v h,
            escape-quoted c (replace_disallowed_controls value) h other,
          )
    ]

-- The count in a book, by its parts.
book-count :
    (c : ℕ) (record_id source relevance text : Str)
    → count_char c (format_library_book record_id source relevance text)
      ≡ count_char c (codes "<library-book id=\"")
        + count_char c (escape_library_attribute record_id)
        + count_char c (codes "\" source=\"")
        + count_char c (escape_library_attribute source)
        + count_char c (codes "\" relevance=\"")
        + count_char c relevance
        + count_char c (codes "\">\n")
        + count_char c (escape_library_text text)
        + count_char c (codes "\n</library-book>")
unfolding format_library_book
book-count c record_id source relevance text =
    let s1 : Str = codes "<library-book id=\"" ++ escape_library_attribute record_id in
    let s2 : Str = s1 ++ codes "\" source=\"" in
    let s3 : Str = s2 ++ escape_library_attribute source in
    let s4 : Str = s3 ++ codes "\" relevance=\"" in
    let s5 : Str = s4 ++ relevance in
    let s6 : Str = s5 ++ codes "\">\n" in
    let s7 : Str = s6 ++ escape_library_text text in
    omega (
      arith,
      count-append c (codes "<library-book id=\"") (escape_library_attribute record_id),
      count-append c s1 (codes "\" source=\""),
      count-append c s2 (escape_library_attribute source),
      count-append c s3 (codes "\" relevance=\""),
      count-append c s4 relevance,
      count-append c s5 (codes "\">\n"),
      count-append c s6 (escape_library_text text),
      count-append c s7 (codes "\n</library-book>"),
    )

-- A book has exactly the two tags that the format writes, of its own start and end, whatever the
-- identifier, the source and the text are, where the printed relevance has no `<` and no `>`.
pub format_library_book-tags :
    (record_id source relevance text : Str)
    → count_char 60 relevance ≡ 0
    → count_char 62 relevance ≡ 0
    → (count_char 60 (format_library_book record_id source relevance text) ≡ 2)
      × (count_char 62 (format_library_book record_id source relevance text) ≡ 2)
unfolding count_char is_delimiter escape_library_text
format_library_book-tags record_id source relevance text lt gt =
    let safe = escape-free false (replace_disallowed_controls text) in
    (
      omega (
        arith,
        book-count 60 record_id source relevance text,
        lt,
        safe.0,
        escape_library_attribute-closed record_id 60 refl,
        escape_library_attribute-closed source 60 refl,
      ),
      omega (
        arith,
        book-count 62 record_id source relevance text,
        gt,
        safe.1,
        escape_library_attribute-closed record_id 62 refl,
        escape_library_attribute-closed source 62 refl,
      ),
    )
