-- ===== src/Crm/GuidesAgree.antt =====
-- The actions on a guide change its row in memory as they change its row on the database.
use jianghu_scrm.Models.Crm.{Guide}
use jianghu_scrm.Db.Guides.{DbGuide, guide_employment_status_from_db, is_row, remove_row, pause_row}
use jianghu_scrm.Prelude.{
  String, List, find, ◌≡◌, ◌∷◌, any, ◌==◌, update_first, false, [], Bool-cases, some, inl, arith,
  inr, subst, never, eq_iff, sym, ap, ◌∙◌, ℕ, refl, Bool, not,
}
use jianghu_scrm.Db.Tables.{update_where}
use jianghu_scrm.Crm.Guides.{names_guide, remove_in_memory, pause_in_memory, log_guide}
use jianghu_scrm.Crm.Pool.{Outside, Pool}

-- What both modes keep of a guide.
pub record InStep (row : DbGuide) (g : Guide) : Type 0 where
  pub id : row.id ≡ g.id
  pub name : row.name ≡ g.name
  pub code : row.code ≡ g.code
  pub employed : guide_employment_status_from_db row.employment_status ≡ g.employment_status
  pub paused : row.paused ≡ g.paused
  pub handling : row.handling ≡ g.handling

abbrev pub AreInStep : List DbGuide → List Guide → Type 0
AreInStep [] [] = Unit
AreInStep [] (g ∷ gs) = ⊥
AreInStep (row ∷ rows) [] = ⊥
AreInStep (row ∷ rows) (g ∷ gs) = InStep row g × AreInStep rows gs

-- No two guides have the same id.
abbrev pub HaveOwnIds : List Guide → Type 0
HaveOwnIds [] = Unit
HaveOwnIds (g ∷ gs) = (any (λ h. h.id == g.id) gs ≡ false) × HaveOwnIds gs

module _ (id : String) (change : DbGuide → DbGuide) where
  -- An UPDATE of an id that no guide has changes nothing.
  no_row :
      (rows : List DbGuide) (gs : List Guide)
      → AreInStep rows gs
      → any (λ h. h.id == id) gs ≡ false
      → AreInStep (update_where (is_row id) change rows) gs
  unfolding any update_where is_row
  no_row [] [] s n = tt
  no_row [] (g ∷ gs) s n = absurd s
  no_row (row ∷ rows) [] s n = absurd s
  no_row (row ∷ rows) (g ∷ gs) s n = elim (Bool-cases (g.id == id)) [
    | inl e ↦ absurd (ground (arith, n, e))
    | inr e ↦
        let apart : (row.id == id) ≡ false = subst (λ k. (k == id) ≡ false) (sym s.0.id) e in
        let more : any (λ h. h.id == id) gs ≡ false = ground (arith, n, e) in
        rw apart (s.0, no_row rows gs s.1 more)
  ]

  pub one_row :
      (key : String) (m g' : Guide) (rows : List DbGuide) (gs : List Guide)
      → AreInStep rows gs
      → HaveOwnIds gs
      → find (names_guide key) gs ≡ some m
      → m.id ≡ id
      → ((row : DbGuide) → InStep row m → InStep (change row) g')
      → AreInStep
          (update_where (is_row id) change rows)
          (update_first (names_guide key) (λ _. g') gs)
  unfolding find update_first update_where is_row any
  one_row key m g' [] [] s apart found same step = tt
  one_row key m g' [] (g ∷ gs) s apart found same step = absurd s
  one_row key m g' (row ∷ rows) [] s apart found same step = absurd s
  one_row key m g' (row ∷ rows) (g ∷ gs) s apart found same step =
      elim (Bool-cases (names_guide key g)) [
        | inl e ↦
            let here : some g ≡ some m = rw e at found in
            let this : g ≡ m = cc in
            let own : row.id ≡ id = s.0.id ∙ ap (λ h. h.id) this ∙ same in
            let mine : g.id ≡ id = ap (λ h. h.id) this ∙ same in
            rw (e, (eq_iff row.id id).1 own)
              (
                step row (subst (InStep row) this s.0),
                no_row rows gs s.1 (subst (λ k. any (λ h. h.id == k) gs ≡ false) mine apart.0),
              )
        | inr e ↦
            let later : find (names_guide key) gs ≡ some m = rw e at found in
            elim (Bool-cases (row.id == id)) [
              | inl f ↦
                  absurd
                    (not_there gs m apart.0 later (same ∙ sym ((eq_iff row.id id).0 f) ∙ s.0.id))
              | inr f ↦ rw (e, f) (s.0, one_row key m g' rows gs s.1 apart.1 later same step)
            ]
      ]
    where
      not_there :
          (hs : List Guide) (m : Guide)
          → any (λ h. h.id == g.id) hs ≡ false
          → find (names_guide key) hs ≡ some m
          → m.id ≡ g.id
          → ⊥
      not_there [] m n f e = cc
      not_there (h ∷ hs) m n f e = elim (Bool-cases (h.id == g.id)) [
        | inl b ↦ ground (arith, n, b)
        | inr b ↦ elim (Bool-cases (names_guide key h)) [
          | inl c ↦
              let here : some h ≡ some m = rw c at f in
              let this : h ≡ m = cc in never _ ((eq_iff h.id g.id).1 (ap (λ x. x.id) this ∙ e)) b
          | inr c ↦ not_there hs m (ground (arith, n, b)) (rw c at f) e
        ]
      ]

-- A guide that was not removed is employed.
pub still_employed :
    (row : DbGuide) (g : Guide)
    → InStep row g
    → (g.employment_status == "已移除") ≡ false
    → "在职" ≡ g.employment_status
unfolding guide_employment_status_from_db
still_employed row g s open_for = elim (Bool-cases (row.employment_status == "removed")) [
  | inl e ↦
      let gone : "已移除" ≡ g.employment_status = rw e at s.employed in
      absurd (never _ ((eq_iff g.employment_status "已移除").1 (sym gone)) open_for)
  | inr e ↦ rw e at s.employed
]

module _ (outside : Outside) where
  pub pause-InStep :
      (now : ℕ) (pool : Pool) (paused : Bool) (row : DbGuide) (g : Guide)
      → InStep row g
      → paused ≡ g.paused
      → "在职" ≡ g.employment_status
      → InStep (pause_row now (not paused) row) (pause_in_memory outside pool g)
  unfolding pause_row pause_in_memory log_guide guide_employment_status_from_db
  pause-InStep now pool paused row g s same employed = elim (Bool-cases g.paused) [
    | inl e ↦
        rw (same, e)
          (record {
            id = s.id;
            name = s.name;
            code = s.code;
            employed = employed;
            paused = refl;
            handling = refl;
          })
    | inr e ↦
        rw (same, e)
          (record {
            id = s.id;
            name = s.name;
            code = s.code;
            employed = employed;
            paused = refl;
            handling = refl;
          })
  ]

  pub remove-InStep :
      (now : ℕ) (pool : Pool) (row : DbGuide) (g : Guide)
      → InStep row g
      → InStep (remove_row now row) (remove_in_memory outside pool g)
  unfolding remove_row remove_in_memory log_guide guide_employment_status_from_db
  remove-InStep now pool row g s = record {
    id = s.id;
    name = s.name;
    code = s.code;
    employed = refl;
    paused = refl;
    handling = refl;
  }
