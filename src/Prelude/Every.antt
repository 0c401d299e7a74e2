-- ===== src/Prelude/Every.antt =====
-- Laws of `All`: it passes through the functions on lists, and gives what a search finds.
use Prim.Native.Nat.{ℕ, zero, suc}
use mathlib.Core.Path.{◌≡◌, subst}
use mathlib.Core.Logic.{inl, inr}
use mathlib.Core.Bool.{Bool, true}
use mathlib.Core.Option.{some}
use mathlib.Core.List.{List, [], ◌∷◌, ◌++◌}
use jianghu_scrm.Prelude.Tests.{Bool-cases}
use jianghu_scrm.Prelude.Lists.{All, find, take}
use jianghu_scrm.Prelude.Sort.{insert, stable_sort}

module _ {A : Type 0} (P : A → Type 0) where
  pub All-append : (xs ys : List A) → All P xs → All P ys → All P (xs ++ ys)
  All-append [] ys a b = b
  All-append (x ∷ xs) ys a b = (a.0, All-append xs ys a.1 b)

  pub All-take : (n : ℕ) (xs : List A) → All P xs → All P (take n xs)
  All-take zero xs a = tt
  All-take (suc n) [] a = tt
  All-take (suc n) (x ∷ xs) a = (a.0, All-take n xs a.1)

  pub All-insert :
      (before : A → A → Bool) (x : A) (xs : List A) → P x → All P xs → All P (insert before x xs)
  unfolding insert
  All-insert before x [] p a = (p, tt)
  All-insert before x (y ∷ ys) p a = elim (Bool-cases (before y x)) [
    | inl e ↦ rw e (a.0, All-insert before x ys p a.1)
    | inr e ↦ rw e (p, a)
  ]

  pub All-stable_sort :
      (before : A → A → Bool) (xs : List A) → All P xs → All P (stable_sort before xs)
  unfolding stable_sort
  All-stable_sort before [] a = tt
  All-stable_sort before (x ∷ xs) a =
      All-insert before x (stable_sort before xs) a.0 (All-stable_sort before xs a.1)

  -- What a search finds has what all have, and passes the test.
  pub All-find : (p : A → Bool) (xs : List A) (a : A) → All P xs → find p xs ≡ some a → P a
  unfolding find
  All-find p [] a h f = absurd (cc)
  All-find p (x ∷ xs) a h f = elim (Bool-cases (p x)) [
    | inl e ↦ let found : some x ≡ some a = rw e at f in let same : x ≡ a = cc in subst P same h.0
    | inr e ↦ let more : find p xs ≡ some a = rw e at f in All-find p xs a h.1 more
  ]

module _ {A : Type 0} where
  pub find-holds : (p : A → Bool) (xs : List A) (a : A) → find p xs ≡ some a → p a ≡ true
  unfolding find
  find-holds p [] a f = cc
  find-holds p (x ∷ xs) a f = elim (Bool-cases (p x)) [
    | inl e ↦
        let found : some x ≡ some a = rw e at f in
        let same : x ≡ a = cc in subst (λ y. p y ≡ true) same e
    | inr e ↦ let more : find p xs ≡ some a = rw e at f in find-holds p xs a more
  ]
