-- ===== src/Tests/Utils.antt =====
-- Runs of the pages and of `appendUnique`.
use jianghu_scrm.Prelude.{
  ◌+◌, ◌*◌, ◌-◌, ◌<◌, ◌≤◌, ◌≡◌, ◌==◌, ◌&&◌, not, String, some, none, Option, List, [], ◌∷◌, refl,
  take, drop, length, ltb, arith, if◌then◌else◌,
}
use jianghu_scrm.Utils.Page.{
  ℤ, pos, Query, paged, pagination_params, make_page_meta, page_of, panic, write_paginated_or_list,
  page_params, int_query,
}
use jianghu_scrm.Utils.Paged.{
  write_paginated_or_list-panics, write_paginated_or_list-page, make_page_meta-pages,
}
use jianghu_scrm.Utils.Uniques.{times, append_unique-count}
use jianghu_scrm.Utils.{append_unique, contains}

-- `strconv.Atoi` on the texts of the runs
abbrev atoi_1 : String → Option ℤ
atoi_1 text =
    if text == "2"
    then some (pos 2)
    else if text == "200"
    then some (pos 200)
    else if text == "46116860184273881"
    then some (pos 46116860184273881)
    else none

abbrev query_of : String → String → Query
query_of page size = record { page = some page; page_size = some size; limit = none; offset = none }

abbrev rows_3 : List String
rows_3 = "a" ∷ "b" ∷ "c" ∷ []

second : pagination_params atoi_1 (query_of "2" "2") ≡ paged 2 2
unfolding pagination_params page_params int_query
second = refl

far : pagination_params atoi_1 (query_of "46116860184273881" "200") ≡ paged 46116860184273881 200
unfolding pagination_params page_params int_query
far = refl

write_paginated_or_list-page_example :
    write_paginated_or_list atoi_1 (query_of "2" "2") rows_3
    ≡ page_of (take 2 (drop ((2 - 1) * 2) rows_3)) (make_page_meta 2 2 (length rows_3))
write_paginated_or_list-page_example =
    write_paginated_or_list-page atoi_1 (query_of "2" "2") rows_3 2 2 second (omega arith)

write_paginated_or_list-panics_example :
    write_paginated_or_list atoi_1 (query_of "46116860184273881" "200") rows_3 ≡ panic
write_paginated_or_list-panics_example =
    write_paginated_or_list-panics atoi_1 (query_of "46116860184273881" "200") rows_3
      46116860184273881 200 far (omega arith)

make_page_meta-pages_example :
    (5 ≤ (make_page_meta 2 2 5).total_pages * 2)
    × ((make_page_meta 2 2 5).total_pages * 2 < 5 + 2)
    × ((make_page_meta 2 2 5).has_next ≡ ltb (2 * 2) 5)
make_page_meta-pages_example = make_page_meta-pages 2 2 5 (omega arith) (omega arith)

append_unique-count_example :
    times "b" (append_unique ("a" ∷ []) ("b" ∷ "a" ∷ "b" ∷ []))
    ≡ times "b" ("a" ∷ [])
      + (if not ("b" == "") && not (contains ("a" ∷ []) "b") && contains ("b" ∷ "a" ∷ "b" ∷ []) "b"
          then 1
          else 0)
append_unique-count_example = append_unique-count "b" ("a" ∷ []) ("b" ∷ "a" ∷ "b" ∷ [])
