-- ===== src/Prelude/Sort.antt =====
-- `sort.SliceStable`: a stable sort by a test that says which of two elements comes first.
use Prim.Native.String.{String, compare}
use mathlib.Core.Path.{◌≡◌, refl}
use mathlib.Core.Bool.{Bool, true, false, not, ◌&&◌}
use mathlib.Core.List.{List, [], ◌∷◌}
use native.Mathlib.Omega.{arith}
use text.Mathlib.Text.{is_lt}
use jianghu_scrm.Prelude.Tests.{if◌then◌else◌}
use jianghu_scrm.Prelude.Lists.{count}

-- a < b on Go strings
abbrev pub less : String → String → Bool
less a b = is_lt (compare a b)

module _ {ℓ} {A : Type ℓ} (before : A → A → Bool) where
  unfoldable pub insert : A → List A → List A
  insert x [] = x ∷ []
  insert x (y ∷ ys) = if before y x then y ∷ insert x ys else x ∷ y ∷ ys

  unfoldable pub stable_sort : List A → List A
  unfolding insert
  stable_sort [] = []
  stable_sort (x ∷ xs) = insert x (stable_sort xs)

  -- No element comes before one that stands in front of it.
  unfoldable pub leads : A → List A → Bool
  leads x [] = true
  leads x (y ∷ ys) = not (before y x)

  unfoldable pub is_sorted : List A → Bool
  unfolding leads
  is_sorted [] = true
  is_sorted (x ∷ xs) = leads x xs && is_sorted xs

  insert-count : (p : A → Bool) (x : A) (ys : List A) → count p (insert x ys) ≡ count p (x ∷ ys)
  unfolding insert count
  insert-count p x [] = refl
  insert-count p x (y ∷ ys) = ground (arith, insert-count p x ys)

  -- A sort keeps the number of elements that pass any test.
  pub stable_sort-count : (p : A → Bool) (xs : List A) → count p (stable_sort xs) ≡ count p xs
  unfolding stable_sort count
  stable_sort-count p [] = refl
  stable_sort-count p (x ∷ xs) =
      ground (arith, insert-count p x (stable_sort xs), stable_sort-count p xs)

  module _ (asym : (x y : A) → before x y ≡ true → before y x ≡ false) where
    insert-leads :
        (y x : A) (ys : List A)
        → before y x ≡ true
        → leads y ys ≡ true
        → leads y (insert x ys) ≡ true
    unfolding insert leads
    insert-leads y x [] e h = rw (asym y x e)
    insert-leads y x (z ∷ zs) e h = ground (arith, asym y x e)

    insert-is_sorted : (x : A) (ys : List A) → is_sorted ys ≡ true → is_sorted (insert x ys) ≡ true
    unfolding insert is_sorted leads
    insert-is_sorted x [] h = refl
    insert-is_sorted x (y ∷ ys) h = ground (arith, insert-is_sorted x ys, insert-leads y x ys)

    -- A sort by an asymmetric test is sorted.
    pub stable_sort-is_sorted : (xs : List A) → is_sorted (stable_sort xs) ≡ true
    unfolding stable_sort is_sorted
    stable_sort-is_sorted [] = refl
    stable_sort-is_sorted (x ∷ xs) = insert-is_sorted x (stable_sort xs) (stable_sort-is_sorted xs)
