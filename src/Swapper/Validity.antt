-- ===== src/Swapper/Validity.antt =====
-- Valid working sets, and what keeps them valid.
use library_of_context.Prelude.{
  ℕ, ◌<◌, ◌≤◌, ◌≡◌, refl, true, [], ◌∷◌, length, length-append, if◌then◌else◌, arith,
}
use mathlib.Core.Path.{ap, ◌∙◌}
use library_of_context.Dict
use library_of_context.Dict.{
  Dict, keys, elem, Unique, Unique-pop, Unique-put, Unique-put_last, keys-pop, keys-append,
  elem-discard, elem-append, length-pop, length-pop_le, contains-elem, elem-keys-put,
}
use library_of_context.Scopes.{ThreadKey, thread_key_eq}
use library_of_context.Swapper.Hits.{WorkingSet}
use library_of_context.Swapper.Desks.{Desks, forget, remove_desk}

pub record IsValid (s : Desks) : Type 0 where
  pub positive : 1 ≤ s.max_working_sets
  pub single_sets : Unique (keys s.working_sets)
  pub single_access : Unique (keys s.working_set_access)
  pub accessed :
      (key : ThreadKey) → elem key (keys s.working_sets) ≡ elem key (keys s.working_set_access)
  pub bounded : length s.working_sets ≤ s.max_working_sets

-- The bound stays, and with it the validity.
abbrev pub Keeps : Desks → Desks → Type 0
Keeps s t = (t.max_working_sets ≡ s.max_working_sets) × (IsValid s → IsValid t)

pub Keeps-trans : (s t u : Desks) → Keeps s t → Keeps t u → Keeps s u
Keeps-trans s t u a b = (b.0 ∙ a.0, λ v. b.1 (a.1 v))

pub same-Keeps :
    (s t : Desks)
    → t.max_working_sets ≡ s.max_working_sets
    → t.working_sets ≡ s.working_sets
    → t.working_set_access ≡ s.working_set_access
    → Keeps s t
same-Keeps s t em ew ea = (
  em,
  λ v. record {
    positive = rw em v.positive;
    single_sets = rw ew v.single_sets;
    single_access = rw ea v.single_access;
    accessed = λ key. rw (ew, ea) (v.accessed key);
    bounded = rw (ew, em) v.bounded;
  },
)

pub pop-Keeps :
    (s t : Desks) (key : ThreadKey)
    → t.max_working_sets ≡ s.max_working_sets
    → t.working_sets ≡ Dict.pop key s.working_sets
    → t.working_set_access ≡ Dict.pop key s.working_set_access
    → Keeps s t
pop-Keeps s t key em ew ea = (
  em,
  λ v. record {
    positive = rw em v.positive;
    single_sets = rw ew (Unique-pop key s.working_sets v.single_sets);
    single_access = rw ea (Unique-pop key s.working_set_access v.single_access);
    accessed = λ k. ground (
      arith,
      ew,
      ea,
      keys-pop key s.working_sets,
      keys-pop key s.working_set_access,
      elem-discard key k (keys s.working_sets),
      elem-discard key k (keys s.working_set_access),
      v.accessed k,
    );
    bounded = omega (
      arith,
      ap (λ (d : Dict ThreadKey WorkingSet). length d) ew,
      em,
      length-pop_le key s.working_sets,
      v.bounded,
    );
  },
)

pub forget-Keeps : (s : Desks) (key : ThreadKey) → Keeps s (forget s key)
unfolding forget
forget-Keeps s key = pop-Keeps s (forget s key) key refl refl refl

pub remove_desk-Keeps : (s : Desks) (key : ThreadKey) → Keeps s (remove_desk s key)
unfolding remove_desk
remove_desk-Keeps s key = pop-Keeps s (remove_desk s key) key refl refl refl

-- An item that is put last.
elem-put_last :
    {V : Type 0} (key k : ThreadKey) (v : V) (d : Dict ThreadKey V)
    → elem k (keys (Dict.put_last key v d))
      ≡ (if thread_key_eq.beq key k then true else elem k (keys d))
unfolding Dict.put_last elem
elem-put_last key k v d = ground (
  arith,
  keys-append (Dict.pop key d) ((key, v) ∷ []),
  keys-pop key d,
  elem-append k (Dict.discard key (keys d)) (key ∷ []),
  elem-discard key k (keys d),
)

pub put-Keeps :
    (s t : Desks) (key : ThreadKey) (w : WorkingSet) (now : ℕ)
    → t.max_working_sets ≡ s.max_working_sets
    → t.working_sets ≡ Dict.put_last key w s.working_sets
    → t.working_set_access ≡ Dict.put key now s.working_set_access
    → length (Dict.pop key s.working_sets) < s.max_working_sets
    → IsValid s
    → IsValid t
unfolding Dict.put_last
put-Keeps s t key w now em ew ea room v = record {
  positive = rw em v.positive;
  single_sets = rw ew (Unique-put_last key w s.working_sets v.single_sets);
  single_access = rw ea (Unique-put key now s.working_set_access v.single_access);
  accessed = λ k. ground (
    arith,
    ew,
    ea,
    elem-put_last key k w s.working_sets,
    elem-keys-put key k now s.working_set_access,
    v.accessed k,
  );
  bounded = omega (
    arith,
    ap (λ (d : Dict ThreadKey WorkingSet). length d) ew,
    em,
    room,
    length-append (Dict.pop key s.working_sets) ((key, w) ∷ []),
  );
}
