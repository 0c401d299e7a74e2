-- ===== src/Crm/GuidesModes.antt =====
-- Both modes change the guides alike.
use jianghu_scrm.Crm.Pool.{Outside}
use jianghu_scrm.Models.Crm.{Guide}
use jianghu_scrm.Prelude.{
  String, Bool, ℕ, List, find, ◌≡◌, some, ◌==◌, ◌&&◌, false, ◌∷◌, Bool-cases, inl, arith, not, sym,
  ap, ◌∙◌, inr,
}
use jianghu_scrm.Db.GuideActions.{
  guide_action_db_handler, act_on_found, guide_db, pause_guide, remove_guide, guide_action,
  insert_guide_event_db,
}
use jianghu_scrm.Crm.Guides.{
  guide_action_handler, act_in_memory, Staff, names_guide, find_guide, guide_action_in_memory,
  put_guide, remove_in_memory, pause_in_memory,
}
use jianghu_scrm.Db.Guides.{
  GuideTables, DbGuide, pause_row, remove_row, guide_employment_status_from_db,
}
use jianghu_scrm.Crm.GuidesAgree.{
  AreInStep, InStep, one_row, remove-InStep, pause-InStep, still_employed, HaveOwnIds,
}

module _ (text_before : String → String → Bool) (current_date : ℕ → ℕ) (itoa to_char : ℕ → String)
    (suffix : ℕ → String) (text_contains : String → String → Bool) (outside : Outside) (now : ℕ)
    (key : String) (db : GuideTables) (staff : Staff) (row : DbGuide) (g : Guide)
    (in_step : AreInStep db.guides staff.guides) (apart : HaveOwnIds staff.guides)
    (found : find (names_guide key) staff.guides ≡ some g) (same : InStep row g) where
  paused_rows :
      (g.employment_status == "已移除") ≡ false
      → AreInStep
          (pause_guide text_before current_date itoa to_char suffix text_contains now row db).guides
          (put_guide outside key (pause_in_memory outside staff.pool g) staff).guides
  unfolding pause_guide insert_guide_event_db put_guide
  paused_rows present =
      one_row row.id (pause_row now (not row.paused)) key g (pause_in_memory outside staff.pool g)
        db.guides staff.guides in_step apart found (sym same.id)
        (λ r s.
          pause-InStep outside now staff.pool row.paused r g s same.paused
            (still_employed r g s present))

  removed_rows :
      AreInStep
        (remove_guide text_before current_date itoa to_char suffix text_contains now row db).guides
        (put_guide outside key (remove_in_memory outside staff.pool g) staff).guides
  unfolding remove_guide insert_guide_event_db put_guide
  removed_rows =
      one_row row.id (remove_row now) key g (remove_in_memory outside staff.pool g) db.guides
        staff.guides in_step apart found (sym same.id)
        (λ r s. remove-InStep outside now staff.pool r g s)

  acted_rows :
      (action : String)
      → (action == "pause" && g.employment_status == "已移除") ≡ false
      → AreInStep
          (guide_action text_before current_date itoa to_char suffix text_contains now action db
            row).1.guides
          (guide_action_in_memory outside key action staff g).1.guides
  unfolding guide_action guide_action_in_memory
  acted_rows action allowed = elim (Bool-cases (action == "pause")) [
    | inl e ↦
        let present : (g.employment_status == "已移除") ≡ false = ground (arith, allowed, e) in
        let shown : (guide_employment_status_from_db row.employment_status == "已移除") ≡ false =
          ap (λ t. t == "已移除") same.employed ∙ present in
        rw (e, shown) (paused_rows present)
    | inr e ↦ elim (Bool-cases (action == "remove")) [
      | inl f ↦ rw (e, f) removed_rows
      | inr f ↦ elim (Bool-cases (action == "lifecycle")) [
        | inl l ↦ rw (e, f, l) in_step
        | inr l ↦ elim (Bool-cases (action == "qr-download")) [
          | inl q ↦ rw (e, f, l, q) in_step
          | inr q ↦ rw (e, f, l, q) in_step
        ]
      ]
    ]
  ]

-- Where the guides of the database and those in memory agree, one by one, in id, name, code,
-- employment, pause and handling, the ids differ, and both searches for a key find guides that agree,
-- the guides agree again after the same action on that key, unless it is to pause a removed guide.
pub guide_action_handler-AreInStep :
    (text_before : String → String → Bool) (current_date : ℕ → ℕ) (itoa to_char : ℕ → String)
    (suffix : ℕ → String) (text_contains : String → String → Bool) (outside : Outside) (now : ℕ)
    (key action : String) (rest : List String) (db : GuideTables) (staff : Staff) (row : DbGuide)
    (g : Guide)
    → AreInStep db.guides staff.guides
    → HaveOwnIds staff.guides
    → guide_db text_before current_date itoa to_char key db ≡ some row
    → find_guide key staff ≡ some g
    → InStep row g
    → (action == "pause" && g.employment_status == "已移除") ≡ false
    → AreInStep
        (guide_action_db_handler text_before current_date itoa to_char suffix text_contains now
          (key ∷ action ∷ rest)
          db).1.guides
        (guide_action_handler outside (key ∷ action ∷ rest) staff).1.guides
unfolding guide_action_db_handler act_on_found guide_action_handler act_in_memory
guide_action_handler-AreInStep text_before current_date itoa to_char suffix text_contains outside
      now key action rest db staff row g in_step apart stored found same allowed =
    rw (stored, found)
      (acted_rows text_before current_date itoa to_char suffix text_contains outside now key db
        staff row g in_step apart (unfold find_guide in found) same action allowed)
