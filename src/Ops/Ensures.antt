-- ===== src/Ops/Ensures.antt =====
-- Rules for what an operation leaves: one for each way to build an operation.
use jianghu_scrm.Prelude.{Bool, true, false, ◌≡◌, refl, ◌∙◌, if◌then◌else◌}
use jianghu_scrm.Ops.State.{OpsState, Ops, pure, gets, modify, ◌>>=◌}

-- From a state with `P`, the operation's result and its state have `Q`.
pub record Ensures {A : Type 0} (P : OpsState → Type 0) (m : Ops A) (Q : A → OpsState → Type 0)
    : Type 0 where
  pub at : (s : OpsState) → P s → Q (m s).0 (m s).1

module _ {A : Type 0} {P : OpsState → Type 0} where
  pub Ensures-pure :
      {Q : A → OpsState → Type 0} (a : A) → ((s : OpsState) → P s → Q a s) → Ensures P (pure a) Q
  unfolding pure
  Ensures-pure a h = record { at = h }

  pub Ensures-gets :
      {Q : A → OpsState → Type 0} (f : OpsState → A)
      → ((s : OpsState) → P s → Q (f s) s)
      → Ensures P (gets f) Q
  unfolding gets
  Ensures-gets f h = record { at = h }

  pub Ensures-if :
      {Q : A → OpsState → Type 0} (b : Bool) (m n : Ops A)
      → (b ≡ true → Ensures P m Q)
      → (b ≡ false → Ensures P n Q)
      → Ensures P (if b then m else n) Q
  Ensures-if true m n km kn = km refl
  Ensures-if false m n km kn = kn refl

module _ {A B : Type 0} {P : OpsState → Type 0} {Q : A → OpsState → Type 0}
    {R : B → OpsState → Type 0} where
  pub Ensures-bind :
      {m : Ops A} {f : A → Ops B}
      → Ensures P m Q
      → ((a : A) → Ensures (Q a) (f a) R)
      → Ensures P (m >>= f) R
  unfolding ◌>>=◌
  Ensures-bind {m} km kf = record { at = λ s h. (kf (m s).0).at (m s).1 (km.at s h) }

pub Ensures-modify :
    {P : OpsState → Type 0} {Q : Unit → OpsState → Type 0} (f : OpsState → OpsState)
    → ((s : OpsState) → P s → Q tt (f s))
    → Ensures P (modify f) Q
unfolding modify
Ensures-modify f h = record { at = h }

-- An operation that leaves the observation `f` of the state as it is.
pub record Keeps {A B : Type 0} (f : OpsState → B) (m : Ops A) : Type 0 where
  pub at : (s : OpsState) → f (m s).1 ≡ f s

module _ {A B : Type 0} {f : OpsState → B} where
  pub Keeps-pure : (a : A) → Keeps f (pure a)
  unfolding pure
  Keeps-pure a = record { at = λ s. refl }

  pub Keeps-gets : (g : OpsState → A) → Keeps f (gets g)
  unfolding gets
  Keeps-gets g = record { at = λ s. refl }

  pub Keeps-if : (b : Bool) (m n : Ops A) → Keeps f m → Keeps f n → Keeps f (if b then m else n)
  Keeps-if true m n km kn = km
  Keeps-if false m n km kn = kn

module _ {A B C : Type 0} {f : OpsState → C} where
  pub Keeps-bind :
      (m : Ops A) (k : A → Ops B) → Keeps f m → ((a : A) → Keeps f (k a)) → Keeps f (m >>= k)
  unfolding ◌>>=◌
  Keeps-bind m k km kk = record { at = λ s. (kk (m s).0).at (m s).1 ∙ km.at s }

pub Keeps-modify :
    {B : Type 0} {f : OpsState → B} (g : OpsState → OpsState)
    → ((s : OpsState) → f (g s) ≡ f s)
    → Keeps f (modify g)
unfolding modify
Keeps-modify g h = record { at = h }

pub ruleset keeps_rules = (Keeps-pure, Keeps-gets, Keeps-modify, Keeps-if, Keeps-bind)
