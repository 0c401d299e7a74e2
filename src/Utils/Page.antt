-- ===== src/Utils/Page.antt =====
-- `paginationParams`, `makePageMeta` and `writePaginatedOrList` of backend/utils.go. A Go `int` has
-- 64 bits: `int64` reads a product or a sum modulo 2^64 as the signed number that it stands for.
use jianghu_scrm.Prelude.{
  ℕ, ◌+◌, ◌-◌, ◌*◌, ◌/◌, ◌%◌, String, ◌==◌, Bool, true, false, List, Option, none, some, ltb, leb,
  eqb, ◌&&◌, ◌||◌, if◌then◌else◌, length, take, drop,
}

-- `negsuc n` is -(n + 1).
pub data ℤ : Type 0 where
  pos : ℕ → ℤ
  negsuc : ℕ → ℤ

abbrev pub two63 : ℕ
two63 = 9223372036854775808

abbrev pub two64 : ℕ
two64 = 18446744073709551616

-- the value of a 64-bit pattern
unfoldable pub int64 : ℕ → ℤ
int64 n = let b = n % two64 in if ltb b two63 then pos b else negsuc (two64 - 1 - b)

-- The query of a request: `none` is a key that is not there, which `Get` reads as "".
pub record Query : Type 0 where
  pub page : Option String
  pub page_size : Option String
  pub limit : Option String
  pub offset : Option String

abbrev pub is_some {ℓ} : {A : Type ℓ} → Option A → Bool
is_some none = false
is_some (some _) = true

abbrev get_text : Option String → String
get_text none = ""
get_text (some value) = value

abbrev or_else : Option ℤ → ℤ → ℤ
or_else none fallback = fallback
or_else (some n) fallback = n

-- `strconv.Atoi` belongs to Go's library; `none` is its error.
unfoldable pub int_query : (String → Option ℤ) → String → ℤ → ℤ
int_query atoi value fallback = if value == "" then fallback else or_else (atoi value) fallback

pub data PageParams : Type 0 where
  unpaged bad_limit bad_page : PageParams
  paged : ℕ → ℕ → PageParams

-- limit <= 0 || limit > 200 || offset < 0
unfoldable pub limit_params : ℤ → ℤ → PageParams
limit_params (negsuc _) offset = bad_limit
limit_params (pos limit) (negsuc _) = bad_limit
limit_params (pos limit) (pos offset) =
    if eqb limit 0 || ltb 200 limit then bad_limit else paged (offset / limit + 1) limit

-- page <= 0 || pageSize <= 0 || pageSize > 200
unfoldable pub page_params : ℤ → ℤ → PageParams
page_params (negsuc _) size = bad_page
page_params (pos page) (negsuc _) = bad_page
page_params (pos page) (pos size) =
    if eqb page 0 || eqb size 0 || ltb 200 size then bad_page else paged page size

unfoldable pub pagination_params : (String → Option ℤ) → Query → PageParams
unfolding limit_params page_params int_query
pagination_params atoi q =
    let has_page = is_some q.page || is_some q.page_size in
    let has_limit = is_some q.limit || is_some q.offset in
    if has_page
    then page_params (int_query atoi (get_text q.page) (pos 1))
        (int_query atoi (get_text q.page_size) (pos 20))
    else if has_limit
    then limit_params (int_query atoi (get_text q.limit) (pos 20))
        (int_query atoi (get_text q.offset) (pos 0))
    else unpaged

pub record PageMeta : Type 0 where
  pub page : ℤ
  pub page_size : ℕ
  pub total : ℕ
  pub total_pages : ℕ
  pub has_next : Bool

-- `page*pageSize < total` on 64-bit integers
abbrev below_total : ℤ → ℕ → Bool
below_total (pos n) total = ltb n total
below_total (negsuc _) total = true

unfoldable pub make_page_meta : ℕ → ℕ → ℕ → PageMeta
unfolding int64
make_page_meta page page_size total = record {
  page = int64 page;
  page_size = page_size;
  total = total;
  total_pages = if ltb 0 total then (total + page_size - 1) / page_size else 0;
  has_next = below_total (int64 (page * page_size)) total;
}

-- A Go slice expression `rows[start:end]`; `none` is the run-time panic.
unfoldable pub slice : {A : Type 0} → List A → ℤ → ℤ → Option (List A)
slice rows (negsuc _) stop = none
slice rows (pos start) (negsuc _) = none
slice rows (pos start) (pos stop) =
    if leb start stop && leb stop (length rows)
    then some (take (stop - start) (drop start rows))
    else none

-- if start > total { start = total }
abbrev pub clip : ℤ → ℕ → ℤ
clip (pos n) total = if ltb total n then pos total else pos n
clip (negsuc n) total = negsuc n

-- start + pageSize, which is at most total + 200 or negative
abbrev pub plus : ℤ → ℕ → ℤ
plus (pos n) m = pos (n + m)
plus (negsuc n) m = if ltb n m then pos (m - 1 - n) else negsuc (n - m)

pub data Listing (A : Type 0) : Type 0 where
  plain : List A → Listing A
  page_of : List A → PageMeta → Listing A
  bad_request : String → Listing A
  panic : Listing A

abbrev pub sliced : {A : Type 0} → Option (List A) → PageMeta → Listing A
sliced none meta = panic
sliced (some rows) meta = page_of rows meta

unfoldable pub show_page : {A : Type 0} → List A → PageParams → Listing A
unfolding slice int64
show_page rows unpaged = plain rows
show_page rows bad_limit = bad_request "invalid limit or offset"
show_page rows bad_page = bad_request "invalid page or pageSize"
show_page rows (paged page page_size) =
    let total = length rows in
    let start = clip (int64 ((page - 1) * page_size)) total in
    let stop = clip (plus start page_size) total in
    sliced (slice rows start stop) (make_page_meta page page_size total)

unfoldable pub write_paginated_or_list :
    {A : Type 0} → (String → Option ℤ) → Query → List A → Listing A
unfolding show_page pagination_params make_page_meta
write_paginated_or_list atoi q rows = show_page rows (pagination_params atoi q)
