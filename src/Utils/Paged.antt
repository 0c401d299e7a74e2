-- ===== src/Utils/Paged.antt =====
-- The pages of a list, and the page numbers for which the product of page and size overflows.
use native.Mathlib.Nat.{lt-div-mul-add, div-mul-le_self, suc-mul}
use jianghu_scrm.Prelude.{
  ℕ, ◌+◌, ◌-◌, ◌*◌, ◌%◌, ◌≤◌, ◌<◌, String, Option, some, List, ◌≡◌, refl, ap, ◌∙◌, arith, take,
  drop, length, length-drop, ltb, leb, ◌∷◌, [], suc, zero, inl, ◌⊎◌, inr, sym, Bool-cases,
}
use jianghu_scrm.Utils.Page.{
  ℤ, pos, negsuc, two63, two64, int64, Query, paged, pagination_params, make_page_meta, page_of,
  panic, show_page, write_paginated_or_list, slice, clip, plus, sliced,
}

int64_small : (n : ℕ) → n < two63 → int64 n ≡ pos n
unfolding int64
int64_small n h = ground arith

int64_large : (n : ℕ) → two63 ≤ n % two64 → int64 n ≡ negsuc (two64 - 1 - n % two64)
unfolding int64
int64_large n h = ground arith

-- the slice between a start and an end that lie in the rows
le_total : (m n : ℕ) → (m ≤ n) ⊎ (n ≤ m)
le_total m n = elim (Bool-cases (leb m n)) [
  | inl e ↦ inl (ground (arith, e))
  | inr e ↦ inr (ground (arith, e))
]

slice-inside :
    {A : Type 0} (rows : List A) (start stop : ℕ)
    → start ≤ stop
    → stop ≤ length rows
    → slice rows (pos start) (pos stop) ≡ some (take (stop - start) (drop start rows))
unfolding slice
slice-inside rows start stop a b = ground arith

take_all : {A : Type 0} (n : ℕ) (xs : List A) → length xs ≤ n → take n xs ≡ xs
take_all zero [] h = refl
take_all zero (x ∷ xs) h = absurd (omega (arith, h))
take_all (suc n) [] h = refl
take_all (suc n) (x ∷ xs) h = ap (λ ys. x ∷ ys) (take_all n xs (omega (arith, h)))

drop_all : {A : Type 0} (n : ℕ) (xs : List A) → length xs ≤ n → drop n xs ≡ []
drop_all zero [] h = refl
drop_all zero (x ∷ xs) h = absurd (omega (arith, h))
drop_all (suc n) [] h = refl
drop_all (suc n) (x ∷ xs) h = drop_all n xs (omega (arith, h))

clip_over : (n total : ℕ) → total ≤ n → clip (pos n) total ≡ pos total
clip_over n total h = ground (arith, h)

clip_under : (n total : ℕ) → n ≤ total → clip (pos n) total ≡ pos n
clip_under n total h = ground (arith, h)

-- clipped at the end of the rows, the slice is the page
page_rows :
    {A : Type 0} (rows : List A) (start size : ℕ)
    → slice rows
        (clip (pos start) (length rows))
        (clip (plus (clip (pos start) (length rows)) size) (length rows))
      ≡ some (take size (drop start rows))
page_rows rows start size = elim (le_total start (length rows)) [
  | inl h ↦ elim (le_total (start + size) (length rows)) [
    | inl k ↦
        rw (clip_under start (length rows) h, clip_under (start + size) (length rows) k)
          (slice-inside rows start (start + size) (omega arith) k
            ∙ ap (λ n. some (take n (drop start rows))) (omega arith))
    | inr k ↦
        rw (clip_under start (length rows) h, clip_over (start + size) (length rows) k)
          (slice-inside rows start (length rows) h (omega arith)
            ∙ ap some (
                take_all (length rows - start) (drop start rows)
                  (omega (arith, length-drop start rows))
                ∙ sym (take_all size (drop start rows) (omega (arith, length-drop start rows, k)))))
  ]
  | inr h ↦
      rw
        (
          clip_over start (length rows) h,
          clip_over (length rows + size) (length rows) (omega arith),
        )
        (slice-inside rows (length rows) (length rows) (omega arith) (omega arith)
          ∙ ap some (
              take_all _ _ (omega (arith, length-drop (length rows) rows))
              ∙ drop_all (length rows) rows (omega arith)
              ∙ sym (ap (take size) (drop_all start rows h) ∙ take_all size [] (omega arith))))
]

pred_suc : (n : ℕ) → suc n - 1 ≡ n
pred_suc n = omega arith

smaller : (page size : ℕ) → page * size < two63 → (page - 1) * size < two63
smaller zero size h = h
smaller (suc page) size h = rw (pred_suc page) (omega (arith, suc-mul page size, h))

module _ {A : Type 0} (atoi : String → Option ℤ) (q : Query) (rows : List A) (page size : ℕ) where
  -- Where the query asks for a page and the page's end, page times page size, is less than 2^63, the
  -- answer is that page of the rows: at most a page size of them, from the first one after the
  -- earlier pages, with the metadata of the page.
  pub write_paginated_or_list-page :
      pagination_params atoi q ≡ paged page size
      → page * size < two63
      → write_paginated_or_list atoi q rows
        ≡ page_of
            (take size (drop ((page - 1) * size) rows))
            (make_page_meta page size (length rows))
  unfolding write_paginated_or_list show_page
  write_paginated_or_list-page e h =
      ap (show_page rows) e
      ∙ rw (int64_small ((page - 1) * size) (smaller page size h)) (
          ap (λ o. sliced o (make_page_meta page size (length rows)))
            (page_rows rows ((page - 1) * size) size))

  -- Where the query asks for a page and the start of that page, (page - 1) times page size, is
  -- negative as a 64-bit integer, the handler panics.
  pub write_paginated_or_list-panics :
      pagination_params atoi q ≡ paged page size
      → two63 ≤ ((page - 1) * size) % two64
      → write_paginated_or_list atoi q rows ≡ panic
  unfolding write_paginated_or_list show_page slice
  write_paginated_or_list-panics e h =
      ap (show_page rows) e ∙ rw (int64_large ((page - 1) * size) h) refl

-- The number of pages is the least one whose pages hold all rows, and there is a next page exactly
-- where this page ends before the last row, if the end of the page is less than 2^63.
pub make_page_meta-pages :
    (page size total : ℕ)
    → 1 ≤ size
    → page * size < two63
    → (total ≤ (make_page_meta page size total).total_pages * size)
      × ((make_page_meta page size total).total_pages * size < total + size)
      × ((make_page_meta page size total).has_next ≡ ltb (page * size) total)
unfolding make_page_meta
make_page_meta-pages page size total p h = (
  ground (arith, lt-div-mul-add {a = (total + size) - 1} p),
  ground (arith, div-mul-le_self (total + size - 1) size),
  rw (int64_small (page * size) h) refl,
)
