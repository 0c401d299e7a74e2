-- ===== src/Prelude/Order.antt =====
-- The order of texts: of two texts one alone can be less than the other.
use Prim.Native.Nat.{ℕ, zero, suc, Ordering, compare as compare_ℕ}
use Prim.Native.Nat.compare as compare_ℕ
use Prim.Native.Char.{code}
use Prim.Native.String.{String, [], ◌∷◌, compare, then as combine}
use Prim.Native.String.compare
use mathlib.Core.Path.{◌≡◌, refl, ap, sym, ◌∙◌}
use mathlib.Core.Bool.{true, false}
use text.Mathlib.Text.{is_lt}
use jianghu_scrm.Prelude.Sort.{less}

flip : Ordering → Ordering
flip Ordering.lt = Ordering.gt
flip Ordering.eq = Ordering.eq
flip Ordering.gt = Ordering.lt

numbers_flip : (m n : ℕ) → compare_ℕ n m ≡ flip (compare_ℕ m n)
unfolding flip
numbers_flip zero zero = refl
numbers_flip zero (suc n) = compare_ℕ.suc-zero n ∙ ap flip (sym (compare_ℕ.zero-suc n))
numbers_flip (suc m) zero = compare_ℕ.zero-suc m ∙ ap flip (sym (compare_ℕ.suc-zero m))
numbers_flip (suc m) (suc n) =
    compare_ℕ.suc-suc n m ∙ numbers_flip m n ∙ ap flip (sym (compare_ℕ.suc-suc m n))

combine-flip : (o r : Ordering) → combine (flip o) (flip r) ≡ flip (combine o r)
unfolding flip
combine-flip Ordering.lt r = refl
combine-flip Ordering.eq r = refl
combine-flip Ordering.gt r = refl

compare-flip : (s t : String) → compare t s ≡ flip (compare s t)
unfolding flip
compare-flip [] [] = refl
compare-flip [] (d ∷ t) = compare.cons-nil d t ∙ ap flip (sym (compare.nil-cons d t))
compare-flip (c ∷ s) [] = compare.nil-cons c s ∙ ap flip (sym (compare.cons-nil c s))
compare-flip (c ∷ s) (d ∷ t) =
    compare.cons-cons d c t s
    ∙ rw (numbers_flip (code c) (code d), compare-flip s t)
        (combine-flip (compare_ℕ (code c) (code d)) (compare s t))
    ∙ ap flip (sym (compare.cons-cons c d s t))

flip_less : (o : Ordering) → is_lt o ≡ true → is_lt (flip o) ≡ false
unfolding flip
flip_less Ordering.lt e = refl
flip_less Ordering.eq e = refl
flip_less Ordering.gt e = cc

pub less_asym : (a b : String) → less a b ≡ true → less b a ≡ false
less_asym a b e = ap is_lt (compare-flip a b) ∙ flip_less (compare a b) e
