-- ===== src/Utils.antt =====
-- The helpers of backend/utils.go that the other parts call. `strings.ToLower` and
-- `strings.Contains` belong to Go's library: `match` and `match_option` take them as arguments.
pub mod Page
pub mod Paged
pub mod Uniques
pub mod Paths
use jianghu_scrm.Prelude.{
  ℕ, String, Bool, true, false, List, [], ◌∷◌, ◌++◌, ◌&&◌, ◌||◌, ◌==◌, if◌then◌else◌, trim_space,
}

unfoldable pub first_non_empty : List String → String
first_non_empty [] = ""
first_non_empty (value ∷ values) = if value == "" then first_non_empty values else value

unfoldable pub default_string : String → String → String
default_string value fallback = if value == "" then fallback else value

unfoldable pub first : List String → String
first [] = ""
first (value ∷ values) = value

-- `filter[T]`: the rows that pass the test, in their order.
unfoldable pub filter {ℓ} : {A : Type ℓ} → (A → Bool) → List A → List A
filter keep [] = []
filter keep (row ∷ rows) = if keep row then row ∷ filter keep rows else filter keep rows

unfoldable pub contains : List String → String → Bool
contains [] value = false
contains (row ∷ rows) value = row == value || contains rows value

module _ (to_lower : String → String) (text_contains : String → String → Bool) where
  unfoldable pub match : String → String → Bool
  match keyword text = keyword == "" || text_contains (to_lower text) (to_lower keyword)

unfoldable pub match_option : (String → String → Bool) → String → String → String → Bool
match_option text_contains value all text = value == "" || value == all || text_contains text value

-- The loop of `appendUnique`; `seen` is the map of the texts met so far.
unfoldable pub append_new : List String → List String → List String → List String
append_new rows seen [] = rows
append_new rows seen (value ∷ values) =
    if value == "" || contains seen value
    then append_new rows seen values
    else append_new (rows ++ value ∷ []) (value ∷ seen) values

unfoldable pub append_unique : List String → List String → List String
unfolding append_new contains
append_unique rows values = append_new rows rows values

-- `emptyOrEqual` and `intersects` of customer_ops.go
unfoldable pub empty_or_equal : String → String → Bool
empty_or_equal scope value = scope == "" || scope == value

unfoldable pub intersects : List String → List String → Bool
unfolding contains
intersects [] right = false
intersects (x ∷ left) right = contains right x || intersects left right
