-- ===== src/Ops/Refresh/Loop.antt =====
-- Loops whose steps only raise exceptions.
use jianghu_scrm.Prelude.{
  Bool, true, List, [], ◌∷◌, ◌≡◌, refl, ap, ◌∙◌, all, arith, inl, inr, Bool-cases,
}
use jianghu_scrm.Ops.State.{Ops, OpsState, ◌>>=◌, pure}
use jianghu_scrm.Ops.Exceptions.{for_each}
use jianghu_scrm.Ops.Refresh.Cover.{Grows, Grows-refl, Grows-trans}

-- A loop of steps that only raise: it covers every row, and over covered rows it does nothing.
module _ {A : Type 0} (body : A → Ops Unit) (covered : OpsState → A → Bool)
    (grows : (a : A) (s : OpsState) → Grows s (body a s).1)
    (covers : (a : A) (s : OpsState) → covered (body a s).1 a ≡ true)
    (keeps : (a : A) (s u : OpsState) → Grows s u → covered s a ≡ true → covered u a ≡ true)
    (same : (a : A) (s : OpsState) → covered s a ≡ true → (body a s).1 ≡ s) where
  pub for_each-Grows : (rows : List A) (s : OpsState) → Grows s (for_each body rows s).1
  unfolding for_each pure ◌>>=◌
  for_each-Grows [] s = Grows-refl s
  for_each-Grows (row ∷ rows) s =
      Grows-trans s (body row s).1 _ (grows row s) (for_each-Grows rows (body row s).1)

  pub for_each-covered :
      (rows : List A) (s : OpsState) → all (covered (for_each body rows s).1) rows ≡ true
  unfolding for_each pure ◌>>=◌ all
  for_each-covered [] s = refl
  for_each-covered (row ∷ rows) s = ground (
    arith,
    for_each-covered rows (body row s).1,
    keeps row (body row s).1 (for_each body rows (body row s).1).1
        (for_each-Grows rows (body row s).1) (covers row s),
  )

  pub for_each-same :
      (rows : List A) (s : OpsState) → all (covered s) rows ≡ true → (for_each body rows s).1 ≡ s
  unfolding for_each pure ◌>>=◌ all
  for_each-same [] s h = refl
  for_each-same (row ∷ rows) s h = elim (Bool-cases (covered s row)) [
    | inl e ↦ ap (λ u. (for_each body rows u).1) (same row s e) ∙ for_each-same rows s (rw e at h)
    | inr e ↦ ground (arith, h, e)
  ]

  pub all-Grows :
      (rows : List A) (s u : OpsState)
      → Grows s u
      → all (covered s) rows ≡ true
      → all (covered u) rows ≡ true
  unfolding all
  all-Grows [] s u g h = refl
  all-Grows (row ∷ rows) s u g h = ground (arith, keeps row s u g, all-Grows rows s u g)
