-- ===== src/Pagination/Pages.antt =====
-- The pages of a list are the list.
use pos_cloud.Common.{
  ℕ, zero, suc, ◌↔◌, ◌∙◌, sym, ap, ◌+◌, ◌-◌, ◌*◌, ◌/◌, ◌≤◌, ◌<◌, ◌≡◌, refl, List, [], ◌∷◌, ◌++◌,
  arith, take, drop, length, length-take-le, filter, filter-true, filter-filter, ◌&&◌, Bool, true,
  Option, none, some, ◌≢◌,
}
use mathlib.Core.Path.{ap₂}
use mathlib.Core.List.{map}
use native.Mathlib.Decide.{dec_lt}
use native.Mathlib.Nat.{
  div-add-mod, mod-lt, mul_comm, suc-mul, lt_of_mul-lt-mul_right, mul-le-mul_right,
}
use pos_cloud.Pagination.{
  pos, finite, narrow, PaginationQuery, PaginationParams, PaginatedResult, normalize_pagination,
  page_of, ceil_div, map_items, build_paginated_result,
}

pub record IsNormal (p : PaginationParams) : Type 0 where
  pub page : 1 ≤ p.page
  pub page_size : 1 ≤ p.page_size
  pub bounded : p.page_size ≤ 100

pub normalize-IsNormal : (q : PaginationQuery) → IsNormal (normalize_pagination q)
unfolding normalize_pagination
normalize-IsNormal q = record {
  page = ground arith;
  page_size = ground arith;
  bounded = ground arith;
}

-- `(n + d - 1) / d` is the least number of pages of d items that hold n items.
ceil_bounds : (n d : ℕ) → 1 ≤ d → (n ≤ ceil_div n d * d) × (ceil_div n d * d < n + d)
ceil_bounds n d h = (
  omega (
    arith,
    div-add-mod (n + d - 1) d,
    mod-lt (n + d - 1) {m = d} h,
    mul_comm d ((n + d - 1) / d),
  ),
  omega (arith, div-add-mod (n + d - 1) d, mul_comm d ((n + d - 1) / d)),
)

-- The p-th page starts before the end exactly if it is one of these.
starts_within : (n d p : ℕ) → 1 ≤ d → 1 ≤ p → (((p - 1) * d < n) ↔ (p ≤ ceil_div n d))
starts_within n d p h k =
    let (above, below) = ceil_bounds n d h in
    let same : suc (p - 1) ≡ p = omega arith in
    (
      λ within.
          omega (arith, lt_of_mul-lt-mul_right d {m = p - 1} {n = ceil_div n d} (omega arith)),
      λ inside. omega (
        arith,
        mul-le-mul_right {m = p} {n = ceil_div n d} d inside,
        suc-mul (p - 1) d,
        ap (λ (t : ℕ). t * d) same,
      ),
    )

module _ {A : Type 0} where
  take-nil : (n : ℕ) → take {A = A} n [] ≡ []
  take-nil zero = refl
  take-nil (suc n) = refl

  take-add : (m n : ℕ) (xs : List A) → take (m + n) xs ≡ take m xs ++ take n (drop m xs)
  take-add zero n xs = let e : 0 + n ≡ n = omega arith in ap (λ k. take k xs) e
  take-add (suc m) n [] = take-nil (suc m + n) ∙ sym (take-nil n)
  take-add (suc m) n (x ∷ xs) =
      let e : suc m + n ≡ suc (m + n) = omega arith in
      ap (λ k. take k (x ∷ xs)) e ∙ ap (λ r. x ∷ r) (take-add m n xs)

  take-all : (n : ℕ) (xs : List A) → length xs ≤ n → take n xs ≡ xs
  take-all zero [] h = refl
  take-all zero (x ∷ xs) h = absurd (omega arith)
  take-all (suc n) [] h = refl
  take-all (suc n) (x ∷ xs) h = ground (arith, take-all n xs)

  length-drop : (n : ℕ) (xs : List A) → length (drop n xs) ≡ length xs - n
  length-drop zero xs = omega arith
  length-drop (suc n) [] = omega arith
  length-drop (suc n) (x ∷ xs) = omega (arith, length-drop n xs)

  -- The items of the pages 1 to n, one page after the other.
  abbrev pub up_to : ℕ → (ℕ → List A) → List A
  up_to zero page = []
  up_to (suc n) page = up_to n page ++ page (suc n)

  pages_take :
      (d n : ℕ) (xs : List A) → up_to n (λ p. take d (drop ((p - 1) * d) xs)) ≡ take (n * d) xs
  pages_take d zero xs = let e : 0 ≡ 0 * d = omega arith in ap (λ k. take k xs) e
  pages_take d (suc n) xs =
      let start : suc n - 1 ≡ n = omega arith in
      let e : n * d + d ≡ suc n * d = omega (arith, suc-mul n d) in
      ap₂ ◌++◌ (pages_take d n xs) (ap (λ k. take d (drop (k * d) xs)) start)
      ∙ sym (take-add (n * d) d xs)
      ∙ ap (λ k. take k xs) e

  take_nonempty : (d : ℕ) (xs : List A) → 1 ≤ d → (take d xs ≡ []) ↔ (length xs ≡ 0)
  take_nonempty zero xs h = absurd (omega arith)
  take_nonempty (suc d) [] h = (λ e. refl, λ e. refl)
  take_nonempty (suc d) (x ∷ xs) h = (λ e. absurd (cc e), λ e. absurd (omega arith))

  module _ (items : List A) (criteria : PaginationParams) (normal : IsNormal criteria) where
    abbrev result : PaginatedResult A
    result = page_of items criteria

    -- What a page tells of the items that matched.
    record IsPage : Type 0 where
      pub fits : length result.items ≤ result.page_size
      pub size : (1 ≤ result.page_size) × (result.page_size ≤ 100)
      pub total : result.total ≡ length items
      pub some_items : (result.items ≢ []) ↔ (result.page ≤ result.total_pages)
      pub whole :
          up_to result.total_pages (λ p. (page_of items (record criteria { page = p })).items)
          ≡ items

    nonempty : (result.items ≢ []) ↔ (result.page ≤ result.total_pages)
    unfolding page_of
    nonempty =
        let d = criteria.page_size in
        let start = (criteria.page - 1) * d in
        let (into, from) =
          starts_within (length items) d criteria.page normal.page_size normal.page in
        let (nil, empty) = take_nonempty d (drop start items) normal.page_size in
        (
          λ there. elim (dec_lt start (length items)) [
            | yes within ↦ into within
            | no outside ↦ absurd (there (empty (omega (arith, length-drop start items))))
          ],
          λ inside e. omega (arith, from inside, nil e, length-drop start items),
        )

    all_items :
        up_to result.total_pages (λ p. (page_of items (record criteria { page = p })).items) ≡ items
    unfolding page_of
    all_items =
        pages_take criteria.page_size (ceil_div (length items) criteria.page_size) items
        ∙ take-all (ceil_div (length items) criteria.page_size * criteria.page_size) items
            (ceil_bounds (length items) criteria.page_size normal.page_size).0

    page_of-IsPage : IsPage
    unfolding page_of
    page_of-IsPage = record {
      fits = length-take-le criteria.page_size _;
      size = (normal.page_size, normal.bounded);
      total = refl;
      some_items = nonempty;
      whole = all_items;
    }

-- The same criterion as a test of one item.
abbrev pub passes : {K V : Type 0} → Option K → (K → V → Bool) → V → Bool
passes none p v = true
passes (some k) p v = p k v

pub narrow-filter :
    {K V : Type 0} (o : Option K) (p : K → V → Bool) (items : List V)
    → narrow o p items ≡ filter (passes o p) items
narrow-filter none p items = sym (filter-true items)
narrow-filter (some k) p items = refl

-- One more criterion of a query.
pub narrow_more :
    {K V : Type 0} (o : Option K) (p : K → V → Bool) (q : V → Bool) (xs items : List V)
    → items ≡ filter q xs
    → narrow o p items ≡ filter (λ v. q v && passes o p v) xs
narrow_more o p q xs items h =
    narrow-filter o p items ∙ ap (filter (passes o p)) h ∙ filter-filter q (passes o p) xs

normalize_page :
    (q : PaginationQuery) (n : ℕ)
    → normalize_pagination (record q { page = finite (pos (suc n)) })
      ≡ record (normalize_pagination q) { page = suc n }
unfolding normalize_pagination
normalize_page q n = ground arith

up_to-eq :
    {A : Type 0} (f g : ℕ → List A) (n : ℕ)
    → ((k : ℕ) → f (suc k) ≡ g (suc k))
    → up_to n f ≡ up_to n g
up_to-eq f g zero h = refl
up_to-eq f g (suc n) h = ap₂ ◌++◌ (up_to-eq f g n h) (h n)

-- What a listing answers of the items that match, page by page: at most a hundred to a page, how
-- many there are, a page exactly up to the number of pages, and the pages put together are the items.
pub record IsListing {A : Type 0} (list : PaginationQuery → PaginatedResult A) (items : List A)
    (q : PaginationQuery) : Type 0 where
  pub fits : length (list q).items ≤ (list q).page_size
  pub size : (1 ≤ (list q).page_size) × ((list q).page_size ≤ 100)
  pub total : (list q).total ≡ length items
  pub some_items : ((list q).items ≢ []) ↔ ((list q).page ≤ (list q).total_pages)
  pub whole :
      up_to (list q).total_pages (λ n. (list (record q { page = finite (pos n) })).items) ≡ items

pub page_of-IsListing :
    {A : Type 0} (items : List A) (q : PaginationQuery)
    → IsListing (λ r. page_of items (normalize_pagination r)) items q
page_of-IsListing items q =
    let p = page_of-IsPage items (normalize_pagination q) (normalize-IsNormal q) in
    record {
      fits = p.fits;
      size = p.size;
      total = p.total;
      some_items = p.some_items;
      whole =
          up_to-eq
            (λ n. (page_of items (normalize_pagination (record q { page = finite (pos n) }))).items)
            (λ n. (page_of items (record (normalize_pagination q) { page = n })).items)
            (page_of items (normalize_pagination q)).total_pages
            (λ k. ap (λ c. (page_of items c).items) (normalize_page q k))
          ∙ p.whole;
    }

-- A page of a list, with each item shown in another form, is the page of the list of these forms.
map-take : {A B : Type 0} (f : A → B) (n : ℕ) (xs : List A) → map f (take n xs) ≡ take n (map f xs)
map-take f zero xs = refl
map-take f (suc n) [] = refl
map-take f (suc n) (x ∷ xs) = ap (λ r. f x ∷ r) (map-take f n xs)

map-drop : {A B : Type 0} (f : A → B) (n : ℕ) (xs : List A) → map f (drop n xs) ≡ drop n (map f xs)
map-drop f zero xs = refl
map-drop f (suc n) [] = refl
map-drop f (suc n) (x ∷ xs) = map-drop f n xs

map-length : {A B : Type 0} (f : A → B) (xs : List A) → length (map f xs) ≡ length xs
map-length f [] = refl
map-length f (x ∷ xs) = ap suc (map-length f xs)

pub map_items-page_of :
    {A B : Type 0} (f : A → B) (xs : List A) (c : PaginationParams)
    → map_items f (page_of xs c) ≡ page_of (map f xs) c
unfolding page_of build_paginated_result
map_items-page_of f xs c =
    let start = (c.page - 1) * c.page_size in
    rw (map-take f c.page_size (drop start xs), map-drop f start xs, map-length f xs) refl
