-- ===== src/Utils/Uniques.antt =====
-- What `appendUnique` adds.
use jianghu_scrm.Prelude.{
  count-append, ℕ, String, List, [], ◌∷◌, ◌++◌, ◌≡◌, ◌==◌, ◌&&◌, not, count, arith, eq_iff, ◌+◌,
  if◌then◌else◌,
}
use jianghu_scrm.Utils.{contains, append_new, append_unique}

-- how often a text stands in the rows
unfoldable pub times : String → List String → ℕ
times value rows = count (λ row. row == value) rows

append_new-count :
    (value : String) (rows seen values : List String)
    → times value (append_new rows seen values)
      ≡ times value rows
        + (if not (value == "") && not (contains seen value) && contains values value then 1 else 0)
unfolding append_new times contains count
append_new-count value rows seen [] = ground arith
append_new-count value rows seen (x ∷ values) = ground (
  arith,
  append_new-count value rows seen values,
  append_new-count value (rows ++ x ∷ []) (x ∷ seen) values,
  count-append (λ row. row == value) rows (x ∷ []),
  eq_iff x value,
  eq_iff value "",
  eq_iff x "",
)

-- `appendUnique` keeps every text of the rows as often as it stands there, and adds each text of the
-- values that is not empty and does not stand in the rows exactly once.
pub append_unique-count :
    (value : String) (rows values : List String)
    → times value (append_unique rows values)
      ≡ times value rows
        + (if not (value == "") && not (contains rows value) && contains values value then 1 else 0)
unfolding append_unique
append_unique-count value rows values = append_new-count value rows rows values
