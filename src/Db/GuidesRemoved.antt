-- ===== src/Db/GuidesRemoved.antt =====
-- No request to the guides on the database brings a removed guide back.
use jianghu_scrm.Prelude.{
  String, Bool, ℕ, List, Option, ◌==◌, ◌≡◌, some, ◌∷◌, any, [], false, none, true, Bool-cases, ◌+◌,
  All-find, All-stable_sort, trim_space, ◌∙◌, find, refl, inl, inr, All-append, not, arith, eq_iff,
  never, All, eq_refl,
}
use jianghu_scrm.Db.GuideActions.{
  act_on_found, insert_guide, serve_guide, remove_guide, pause_guide, guide_action_db_handler,
  serve_guides, guide_action, create_in_found, create_guide_db, insert_guide_event_db, guide_db,
  create_store_guide_db, named_guide, GuideRequest, new_guide, to_guide, to_store,
}
use jianghu_scrm.Db.Guides.{
  GuideTables, DbStore, is_row, DbGuide, remove_row, pause_row, guide_employment_status_from_db,
  new_code, is_taken, is_code_of, destroy_code,
}
use jianghu_scrm.Db.GuidesGone.{
  IsGone, any-update_where, IsRetired, any-append, any-free, remove-IsRetired, pause-IsRetired,
  destroy-IsIdle, other, put_code-IsIdle, All-update_each, IsIdle,
}

module _ (text_before : String → String → Bool) (current_date : ℕ → ℕ) (itoa to_char : ℕ → String)
    (suffix : ℕ → String) (text_contains : String → String → Bool) where
  module _ (k : String) where
    pause_guide-IsGone :
        (now : ℕ) (g : DbGuide) (db : GuideTables)
        → is_row k g ≡ false
        → IsGone k db
        → IsGone k (pause_guide text_before current_date itoa to_char suffix text_contains now g db)
    unfolding pause_guide insert_guide_event_db
    pause_guide-IsGone now g db apart h = record {
      there =
          any-update_where (is_row k) (is_row g.id) (pause_row now (not g.paused)) db.guides
            (λ x. unfold is_row pause_row in refl)
          ∙ h.there;
      guides = pause-IsRetired k now (not g.paused) g db.guides apart h.guides;
      codes = h.codes;
    }

    remove_guide-IsGone :
        (now : ℕ) (g : DbGuide) (db : GuideTables)
        → IsGone k db
        → IsGone k
            (remove_guide text_before current_date itoa to_char suffix text_contains now g db)
    unfolding remove_guide insert_guide_event_db
    remove_guide-IsGone now g db h = record {
      there =
          any-update_where (is_row k) (is_row g.id) (remove_row now) db.guides
            (λ x. unfold is_row remove_row in refl)
          ∙ h.there;
      guides = remove-IsRetired k now g.id db.guides h.guides;
      codes = destroy-IsIdle k now g.id db.store_codes h.codes;
    }

    guide_action-IsGone :
        (now : ℕ) (action : String) (db : GuideTables) (g : DbGuide)
        → IsRetired k g
        → IsGone k db
        → IsGone k
            (guide_action text_before current_date itoa to_char suffix text_contains now action db
              g).1
    unfolding guide_action
    guide_action-IsGone now action db g out h = elim (Bool-cases (action == "pause")) [
      | inl e ↦ elim (Bool-cases (guide_employment_status_from_db g.employment_status == "已移除")) [
        | inl f ↦ rw (e, f) h
        | inr f ↦ rw (e, f) (pause_guide-IsGone now g db (other k g out f) h)
      ]
      | inr e ↦ elim (Bool-cases (action == "remove")) [
        | inl f ↦ rw (e, f) (remove_guide-IsGone now g db h)
        | inr f ↦ elim (Bool-cases (action == "lifecycle")) [
          | inl l ↦ rw (e, f, l) h
          | inr l ↦ elim (Bool-cases (action == "qr-download")) [
            | inl q ↦ rw (e, f, l, q) h
            | inr q ↦ rw (e, f, l, q) h
          ]
        ]
      ]
    ]

    act_on_found-IsGone :
        (now : ℕ) (action : String) (db : GuideTables) (o : Option DbGuide)
        → ((g : DbGuide) → o ≡ some g → IsRetired k g)
        → IsGone k db
        → IsGone k
            (act_on_found text_before current_date itoa to_char suffix text_contains now action db
              o).1
    unfolding act_on_found
    act_on_found-IsGone now action db none found h = h
    act_on_found-IsGone now action db (some g) found h =
        guide_action-IsGone now action db g (found g refl) h

    handled-IsGone :
        (now : ℕ) (parts : List String) (db : GuideTables)
        → IsGone k db
        → IsGone k
            (guide_action_db_handler text_before current_date itoa to_char suffix text_contains now
              parts db).1
    unfolding guide_action_db_handler guide_db
    handled-IsGone now [] db h = h
    handled-IsGone now (key ∷ []) db h = h
    handled-IsGone now (key ∷ action ∷ rest) db h =
        act_on_found-IsGone now action db _
          (λ g. All-find (IsRetired k) _ _ g (All-stable_sort (IsRetired k) _ db.guides h.guides)) h

    -- A guide that is created has another id.
    apart :
        (fresh : DbGuide) (gs : List DbGuide)
        → any (is_row k) gs ≡ true
        → any (is_taken fresh) gs ≡ false
        → (fresh.id == k) ≡ false
    unfolding is_taken is_row
    apart fresh gs there free = elim (Bool-cases (fresh.id == k)) [
      | inl e ↦ absurd (
          any-free (is_row k) (is_taken fresh) gs there free (λ x q p.
            ground (arith, q, p, e, eq_iff x.id k, eq_iff fresh.id k, eq_iff x.id fresh.id)))
      | inr e ↦ e
    ]

    insert_guide-IsGone :
        (now : ℕ) (fresh : DbGuide) (db : GuideTables)
        → (fresh.id == k) ≡ false
        → IsGone k db
        → IsGone k
            (insert_guide text_before current_date itoa to_char suffix text_contains now fresh db)
    unfolding insert_guide insert_guide_event_db
    insert_guide-IsGone now fresh db d h = record {
      there = any-append (is_row k) db.guides (fresh ∷ []) h.there;
      guides =
          All-append (IsRetired k) db.guides (fresh ∷ []) h.guides
            ((λ m. absurd (never (fresh.id == k) (unfold is_row in m) d)), tt);
      codes = put_code-IsIdle k (new_code fresh) db.store_codes (unfold new_code in d) h.codes;
    }

    create_guide_db-IsGone :
        (now : ℕ) (store : DbStore) (name : String) (db : GuideTables)
        → IsGone k db
        → IsGone k
            (create_guide_db text_before current_date itoa to_char suffix text_contains now store
              name db).1
    unfolding create_guide_db
    create_guide_db-IsGone now store name db h =
        let fresh =
          new_guide text_before current_date itoa to_char suffix text_contains now store name
            db.drawn in
        let drawn : GuideTables = record db { drawn = db.drawn + 1 } in
        let gone : IsGone k drawn = record {
          there = h.there;
          guides = h.guides;
          codes = h.codes;
        } in
        elim (Bool-cases (any (is_taken fresh) db.guides)) [
          | inl e ↦ rw e gone
          | inr e ↦
              rw e (insert_guide-IsGone now fresh drawn (apart fresh db.guides h.there e) gone)
        ]

    create_in_found-IsGone :
        (now : ℕ) (body : Option String) (db : GuideTables) (o : Option DbStore)
        → IsGone k db
        → IsGone k
            (create_in_found text_before current_date itoa to_char suffix text_contains now body db
              o).1
    unfolding create_in_found named_guide
    create_in_found-IsGone now body db none h = h
    create_in_found-IsGone now none db (some store) h = h
    create_in_found-IsGone now (some name) db (some store) h =
        elim (Bool-cases (trim_space name == "")) [
          | inl e ↦ rw e h
          | inr e ↦ rw e (create_guide_db-IsGone now store (trim_space name) db h)
        ]

    serve_guide-IsGone :
        (r : GuideRequest) (db : GuideTables)
        → IsGone k db
        → IsGone k (serve_guide text_before current_date itoa to_char suffix text_contains r db)
    unfolding serve_guide create_store_guide_db
    serve_guide-IsGone (to_guide now parts) db h = handled-IsGone now parts db h
    serve_guide-IsGone (to_store now store_id body) db h =
        create_in_found-IsGone now body db (find (λ s. s.id == store_id) db.stores) h

    serve_guides-IsGone :
        (rs : List GuideRequest) (db : GuideTables)
        → IsGone k db
        → IsGone k (serve_guides text_before current_date itoa to_char suffix text_contains rs db)
    unfolding serve_guides
    serve_guides-IsGone [] db h = h
    serve_guides-IsGone (r ∷ rs) db h =
        serve_guides-IsGone rs
          (serve_guide text_before current_date itoa to_char suffix text_contains r db)
          (serve_guide-IsGone r db h)

  -- Each row of a table is one of the table's rows.
  rows_there :
      (all xs : List DbGuide)
      → ((k : String) → any (is_row k) xs ≡ true → any (is_row k) all ≡ true)
      → All (λ g. any (is_row g.id) all ≡ true) xs
  unfolding any is_row
  rows_there all [] within = tt
  rows_there all (g ∷ gs) within = (
    within g.id (rw (eq_refl g.id) refl),
    rows_there all gs
        (λ k h. within k (elim (Bool-cases (g.id == k)) [ inl e ↦ rw e refl | inr e ↦ rw e h ])),
  )

  removed-IsGone :
      (now : ℕ) (g : DbGuide) (db : GuideTables)
      → any (is_row g.id) db.guides ≡ true
      → IsGone g.id
          (remove_guide text_before current_date itoa to_char suffix text_contains now g db)
  unfolding remove_guide insert_guide_event_db
  removed-IsGone now g db there = record {
    there =
        any-update_where (is_row g.id) (is_row g.id) (remove_row now) db.guides
          (λ x. unfold is_row remove_row in refl)
        ∙ there;
    guides =
        All-update_each (IsRetired g.id) (is_row g.id) (remove_row now) db.guides
          (λ x e m. unfold remove_row in (refl, refl)) (λ x e m. absurd (never _ m e));
    codes =
        All-update_each (IsIdle g.id) (is_code_of g.id) (destroy_code now) db.store_codes
          (λ x e m. unfold destroy_code in refl) (λ x e m. absurd (never _ m e));
  }

  -- Where a request to remove a guide on the database finds it, every row with the id of the guide is
  -- removed and paused and no guide code of it is active after any further requests to guides and
  -- creations of guides.
  pub guide_action_db_handler-IsGone :
      (now : ℕ) (key : String) (rest : List String) (db : GuideTables) (g : DbGuide)
      → guide_db text_before current_date itoa to_char key db ≡ some g
      → (rs : List GuideRequest)
      → IsGone g.id (
          serve_guides text_before current_date itoa to_char suffix text_contains rs
            (guide_action_db_handler text_before current_date itoa to_char suffix text_contains now
              (key ∷ "remove" ∷ rest)
              db).1)
  unfolding guide_action_db_handler act_on_found guide_action
  guide_action_db_handler-IsGone now key rest db g found rs =
      let there : any (is_row g.id) db.guides ≡ true =
        All-find (λ x. any (is_row x.id) db.guides ≡ true) _ _ g
          (All-stable_sort (λ x. any (is_row x.id) db.guides ≡ true) _ db.guides
            (rows_there db.guides db.guides (λ k h. h)))
          (unfold guide_db in found) in
      rw found (serve_guides-IsGone g.id rs _ (removed-IsGone now g db there))
