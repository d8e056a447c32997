-- ===== src/Pagination.antt =====
-- libs/shared-kernel/src/pagination.ts, and how the repositories cut a page of the rows of a query.
pub mod Pages
pub mod Criteria
use pos_cloud.Common.{
  ℕ, suc, ◌+◌, ◌-◌, ◌*◌, ◌/◌, List, [], ltb, if◌then◌else◌, take, drop, length, filter, Option,
  none, some, Bool, ◌∷◌,
}
use mathlib.Core.List.{map}
use pos_cloud.Common.Text.{Text}

-- `negsuc n` is -(n + 1).
pub data ℤ : Type 0 where
  pos : ℕ → ℤ
  negsuc : ℕ → ℤ

-- An optional number as far as the code looks at it: the integer part of a finite one, or that it
-- is none (absent, NaN or infinite).
pub data JsNumber : Type 0 where
  finite : ℤ → JsNumber
  not_finite : JsNumber

pub record PaginationQuery : Type 0 where
  pub page : JsNumber
  pub page_size : JsNumber

pub record PaginationParams : Type 0 where
  pub page : ℕ
  pub page_size : ℕ

pub record PaginatedResult (A : Type 0) : Type 0 where
  pub items : List A
  pub page : ℕ
  pub page_size : ℕ
  pub total : ℕ
  pub total_pages : ℕ

abbrev pub default_page : ℕ
default_page = 1

abbrev pub default_page_size : ℕ
default_page_size = 25

abbrev pub min_page_size : ℕ
min_page_size = 1

abbrev pub max_page_size : ℕ
max_page_size = 100

-- `Number.isFinite(x) ? Math.trunc(x) : d`
abbrev pub trunc_or : ℕ → JsNumber → ℤ
trunc_or d (finite z) = z
trunc_or d not_finite = pos d

-- `Math.max(low, z)` and `Math.min(high, n)`
abbrev pub max_of : ℕ → ℤ → ℕ
max_of low (pos n) = if ltb n low then low else n
max_of low (negsuc n) = low

abbrev pub min_of : ℕ → ℕ → ℕ
min_of high n = if ltb high n then high else n

unfoldable pub normalize_pagination : PaginationQuery → PaginationParams
normalize_pagination input =
    let raw_page = trunc_or default_page input.page in
    let raw_page_size = trunc_or default_page_size input.page_size in
    record {
      page = max_of default_page raw_page;
      page_size = min_of max_page_size (max_of min_page_size raw_page_size);
    }

-- `Math.ceil(n / d)` for a positive d
abbrev pub ceil_div : ℕ → ℕ → ℕ
ceil_div n d = (n + d - 1) / d

unfoldable pub build_paginated_result :
    {A : Type 0} → List A → ℕ → PaginationParams → PaginatedResult A
build_paginated_result items total params = record {
  items = items;
  page = params.page;
  page_size = params.page_size;
  total = total;
  total_pages = ceil_div total params.page_size;
}

-- the end of `list` in every repository: `.skip(…).take(…)` of the rows of the query, and their count
unfoldable pub page_of : {A : Type 0} → List A → PaginationParams → PaginatedResult A
unfolding build_paginated_result
page_of items criteria =
    let start = (criteria.page - 1) * criteria.page_size in
    build_paginated_result (take criteria.page_size (drop start items)) (length items) criteria

-- `{ ...result, items: result.items.map(f) }`
abbrev pub map_items : {A B : Type 0} → (A → B) → PaginatedResult A → PaginatedResult B
map_items f result = record {
  items = map f result.items;
  page = result.page;
  page_size = result.page_size;
  total = result.total;
  total_pages = result.total_pages;
}

-- `if (criterion) qb.andWhere(…)`; the empty text is no criterion
abbrev pub narrow : {K V : Type 0} → Option K → (K → V → Bool) → List V → List V
narrow none p items = items
narrow (some k) p items = filter (p k) items

abbrev pub truthy : Option Text → Option Text
truthy none = none
truthy (some []) = none
truthy (some (c ∷ s)) = some (c ∷ s)
