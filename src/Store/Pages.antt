-- ===== src/Store/Pages.antt =====
-- The loop of `iter_thread_events_descending`.
use library_of_context.Prelude.{
  ℕ, zero, suc, ◌+◌, ◌<◌, ◌≡◌, refl, inl, inr, Bool, true, false, ◌&&◌, Option, some, List, [], ◌∷◌,
  ◌++◌, ◌==◌, length, keep, All, All-take, arith, Bool-cases, Option-cases, ltb,
}
use library_of_context.Models.{Str, ContextEvent}
use library_of_context.Store.Rows.{count_where, order_by}
use library_of_context.Store.Tables.{Store}
use library_of_context.Store.Positions.{get_elem?}
use library_of_context.Store.Events.{wanted, before, newer, page, pages, last_of}
use library_of_context.Store.Claims.{All-positions, All-keep, All-order_by}

module _ {ℓ} {A : Type ℓ} (p q : A → Bool) (implied : (r : A) → q r ≡ true → p r ≡ true) where
  count-le : (rows : List A) → count_where q rows < count_where p rows + 1
  unfolding count_where
  count-le [] = omega arith
  count-le (x ∷ rows) = ground (arith, count-le rows, implied x)

  -- A row that only the weaker test passes makes the count smaller.
  count-lt :
      (rows : List A) (k : ℕ) (r : A)
      → get_elem? rows k ≡ some r
      → p r ≡ true
      → q r ≡ false
      → count_where q rows < count_where p rows
  unfolding count_where
  count-lt [] k r g pr qr = absurd (ground (arith, g))
  count-lt (x ∷ rows) zero r g pr qr = ground (arith, count-le rows)
  count-lt (x ∷ rows) (suc k) r g pr qr = ground (arith, count-lt rows k r g pr qr, implied x)

last_of-All :
    (P : ContextEvent → Type 0) (rows : List ContextEvent)
    → 0 < length rows
    → All P rows
    → (e : ContextEvent) × (last_of rows ≡ some e.sequence) × P e
unfolding last_of
last_of-All P [] n h = absurd (omega arith)
last_of-All P (e ∷ []) n h = (e, refl, h.0)
last_of-All P (e ∷ f ∷ rows) n h = last_of-All P (f ∷ rows) (omega arith) h.1

-- With more fuel than there are wanted events before the given number, the loop comes to its end
-- and returns a list of events, whatever the page size is.
pub pages_enough :
    (fuel : ℕ) (s : Store) (namespace session_id : Str) (protected_only : Bool) (page_size : ℕ)
    (before_sequence : Option ℕ)
    → count_where
        (λ e. wanted namespace session_id protected_only e && before before_sequence e)
        s.events
      < fuel
    → (rows : List ContextEvent) × (pages fuel s namespace session_id protected_only page_size
          before_sequence
        ≡ some rows)
unfolding pages page
pages_enough zero s namespace session_id protected_only page_size b h = absurd (omega arith)
pages_enough (suc fuel) s namespace session_id protected_only page_size b h =
    let rows = page s namespace session_id protected_only page_size b in
    let chosen : ContextEvent → Bool =
      λ e. wanted namespace session_id protected_only e && before b e in
    let later : ℕ → ContextEvent → Bool =
      λ n e. wanted namespace session_id protected_only e && before (some n) e in
    let Found : ContextEvent → Type 0 =
      λ r. ((k : ℕ) × (get_elem? s.events k ≡ some r)) × (chosen r ≡ true) in
    let earlier-chosen : (e : ContextEvent)
        → chosen e ≡ true
        → (r : ContextEvent) → later e.sequence r ≡ true
        → chosen r ≡ true =
      λ e found r hit. elim (Option-cases b) [
        | inl any ↦ unfold before in ground (arith, any)
        | inr (n, bound) ↦ unfold before in ground (arith, bound)
      ] in
    elim (Bool-cases (length rows == 0)) [
      | inl empty_page ↦ ([], ground (arith, empty_page))
      | inr full ↦ elim (Bool-cases (ltb (length rows) page_size)) [
        | inl short ↦ (rows, ground (arith, full, short))
        | inr long ↦
            let (e, last, ((k, g), found)) = last_of-All Found rows (ground (arith, full)) (
              All-take Found page_size (order_by newer (keep chosen s.events)) (
                All-order_by Found newer (keep chosen s.events) (
                  All-keep (λ r. (k : ℕ) × (get_elem? s.events k ≡ some r)) chosen s.events
                    (All-positions _ s.events (λ k r g. (k, g)))))) in
            let fewer =
              count-lt chosen (later e.sequence) (earlier-chosen e found) s.events k e g found
                (unfold before in ground arith) in
            let (rest, more) =
              pages_enough fuel s namespace session_id protected_only page_size (some e.sequence)
                (omega (arith, h, fewer)) in
            (rows ++ rest, ground (arith, full, long, last, more))
      ]
    ]
