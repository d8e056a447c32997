-- ===== src/Common/JsMap/Summaries.antt =====
-- Maps of summaries: rows that were found by their ids, stored again under their ids in another form.
use pos_cloud.Common.{
  ◌≡◌, refl, ◌⊎◌, inl, inr, Bool, true, false, none, some, List, [], ◌∷◌, arith, any, Bool-cases,
  All, Option-cases, ap, ◌∙◌, sym,
}
use mathlib.Core.List.{map}
use pos_cloud.Common.Text.{Text, ◌===◌, ===_iff, ===_refl}
use pos_cloud.Common.JsMap.{JsMap, get, set, get_all}
use pos_cloud.Common.JsMap.Laws.{get-set, IsKeyed, key_of_get}

abbrev pub contains : List Text → Text → Bool
contains ids x = any (λ y. y === x) ids

-- `[...new Set(xs)]`, with the values that it has already
unfoldable pub distinct_from : List Text → List Text → List Text
distinct_from seen [] = []
distinct_from seen (x ∷ xs) = elim (contains seen x) [
  | true ↦ distinct_from seen xs
  | false ↦ x ∷ distinct_from (x ∷ seen) xs
]

abbrev pub distinct : List Text → List Text
distinct xs = distinct_from [] xs

contains-distinct_from :
    (seen xs : List Text) (x : Text)
    → contains xs x ≡ true
    → (contains seen x ≡ true) ⊎ (contains (distinct_from seen xs) x ≡ true)
unfolding distinct_from
contains-distinct_from seen [] x h = absurd (cc h)
contains-distinct_from seen (y ∷ ys) x h = elim (Bool-cases (contains seen y)) [
  | inl known ↦ elim (Bool-cases (y === x)) [
    | inl same ↦ inl (ap (contains seen) (sym ((===_iff y x).0 same)) ∙ known)
    | inr other ↦ ground (arith, contains-distinct_from seen ys x)
  ]
  | inr unknown ↦ ground (arith, contains-distinct_from (y ∷ seen) ys x)
]

pub contains-distinct :
    (xs : List Text) (x : Text) → contains xs x ≡ true → contains (distinct xs) x ≡ true
contains-distinct xs x h = elim (contains-distinct_from [] xs x h) [
  | inl seen ↦ absurd (cc seen)
  | inr kept ↦ kept
]

contains_later :
    (y : Text) (ids : List Text) (x : Text) → contains ids x ≡ true → contains (y ∷ ids) x ≡ true
contains_later y ids x h = ground arith

-- Every item of a list has its text among the texts of the list, each taken once.
contains-All :
    {A : Type 0} (f : A → Text) (ids : List Text) (xs : List A)
    → ((x : Text) → contains (map f xs) x ≡ true → contains ids x ≡ true)
    → All (λ a. contains ids (f a) ≡ true) xs
contains-All f ids [] h = tt
contains-All f ids (a ∷ xs) h = (
  h (f a) (rw (===_refl (f a)) refl),
  contains-All f ids xs λ x inside. h x (contains_later (f a) (map f xs) x inside),
)

pub contains_distinct-All :
    {A : Type 0} (f : A → Text) (xs : List A)
    → All (λ a. contains (distinct (map f xs)) (f a) ≡ true) xs
contains_distinct-All f xs = contains-All f (distinct (map f xs)) xs (contains-distinct (map f xs))

module _ {V D : Type 0} (key : V → Text) (form : V → D) where
  -- `for (const v of values) map.set(v.id, form(v))`
  unfoldable pub set_all : List V → JsMap D → JsMap D
  set_all [] m = m
  set_all (v ∷ vs) m = set_all vs (set (key v) (form v) m)

  get_all_missing :
      (id : Text) (ids : List Text) (m : JsMap V)
      → get id m ≡ none
      → get_all (id ∷ ids) m ≡ get_all ids m
  unfolding get_all
  get_all_missing id ids m missing = rw (get_all, missing) refl

  get_all_there :
      (id : Text) (ids : List Text) (m : JsMap V) (u : V)
      → get id m ≡ some u
      → get_all (id ∷ ids) m ≡ u ∷ get_all ids m
  unfolding get_all
  get_all_there id ids m u there = rw (get_all, there) refl

  -- An id that is asked for is the first one, or one of the others.
  contains_cons :
      (id : Text) (ids : List Text) (x : Text)
      → contains (id ∷ ids) x ≡ true
      → (id ≡ x) ⊎ (contains ids x ≡ true)
  contains_cons id ids x h = elim (Bool-cases (id === x)) [
    | inl same ↦ inl ((===_iff id x).0 same)
    | inr other ↦ inr (ground arith)
  ]

  -- A row that is asked for, or is there already, is in the map under its id.
  pub get-set_all :
      (ids : List Text) (m : JsMap V) (acc : JsMap D) (x : Text) (v : V)
      → IsKeyed key m
      → get x m ≡ some v
      → (contains ids x ≡ true) ⊎ (get x acc ≡ some (form v))
      → get x (set_all (get_all ids m) acc) ≡ some (form v)
  unfolding set_all get_all
  get-set_all [] m acc x v keyed found (inl h) = absurd (cc h)
  get-set_all [] m acc x v keyed found (inr h) = h
  get-set_all (id ∷ ids) m acc x v keyed found h = elim (Option-cases (get id m)) [
    | inl missing ↦ rw (get_all_missing id ids m missing) (
        get-set_all ids m acc x v keyed found (elim h [
          | inl asked ↦ elim (contains_cons id ids x asked) [
            | inl same ↦ absurd (cc (ap (λ i. get i m) same, missing, found))
            | inr later ↦ inl later
          ]
          | inr stored ↦ inr stored
        ]))
    | inr (u, there) ↦ rw (get_all_there id ids m u there) (
        get-set_all ids m (set (key u) (form u) acc) x v keyed found (elim h [
          | inl asked ↦ elim (contains_cons id ids x asked) [
            | inl same ↦ inr (
                ground (
                  arith,
                  get-set x (key u) (form u) acc,
                  key_of_get key id m u keyed there,
                  ===_iff x (key u),
                  ap (λ i. get i m) same,
                ))
            | inr later ↦ inl later
          ]
          | inr stored ↦ elim (Bool-cases (x === key u)) [
            | inl same ↦ inr (
                ground (
                  arith,
                  get-set x (key u) (form u) acc,
                  ap (λ i. get i m)
                      (((===_iff x (key u)).0 same) ∙ key_of_get key id m u keyed there),
                ))
            | inr other ↦ inr (ground (arith, get-set x (key u) (form u) acc))
          ]
        ]))
  ]
