-- ===== src/Prelude/Find.antt =====
-- Laws of `find`, `any` and `update_first` over rows that a text identifies.
use mathlib.Core.Path.{◌≡◌}
use mathlib.Core.Logic.{inl, inr}
use mathlib.Core.Option
use mathlib.Core.Option.{Option, none, some}
use mathlib.Core.Bool.{false}
use mathlib.Core.List.{List, [], ◌∷◌}
use native.Mathlib.Omega.{arith}
use Prim.Native.String.{String}
use text.Mathlib.Text.{◌==◌}
use text.Mathlib.TextEquality.{eq_iff}
use jianghu_scrm.Prelude.Tests.{if◌then◌else◌, Bool-cases}
use jianghu_scrm.Prelude.Lists.{find, update_first}

pub eq_flip : (x y : String) → (x == y) ≡ false → (y == x) ≡ false
eq_flip x y h = ground (arith, h, eq_iff x y, eq_iff y x)

module _ {A : Type 0} (key : A → String) where
  -- A write to the first row with the key of `x`, seen through the search by any key.
  pub find-update_first :
      (x : A) (k : String) (xs : List A)
      → find (λ a. key a == k) (update_first (λ a. key a == key x) (λ _. x) xs) ≡ (
          if key x == k
          then Option.map (λ _. x) (find (λ a. key a == k) xs)
          else find (λ a. key a == k) xs)
  unfolding find update_first
  find-update_first x k [] = ground arith
  find-update_first x k (y ∷ ys) =
      ground (
        arith,
        find-update_first x k ys,
        eq_iff (key y) k,
        eq_iff (key x) k,
        eq_iff (key y) (key x),
      )

  -- What a search by key finds has that key.
  pub find-key : (k : String) (xs : List A) {a : A} → find (λ b. key b == k) xs ≡ some a → key a ≡ k
  unfolding find
  find-key k [] h = cc
  find-key k (y ∷ ys) {a} h = elim (Bool-cases (key y == k)) [
    | inl e ↦ ground (arith, eq_iff (key y) k, h)
    | inr e ↦ find-key k ys (rw e at h)
  ]
