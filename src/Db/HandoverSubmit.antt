-- ===== src/Db/HandoverSubmit.antt =====
-- A submission of a handover on the database keeps the owners and the main relations in step.
use jianghu_scrm.Prelude.{
  ℕ, String, Bool, List, Option, Bool-cases, trim_space, ◌∷◌, [], ◌==◌, some, ◌&&◌, ◌||◌, inl, none,
  inr, find,
}
use jianghu_scrm.Ops.Http.{Reply, ok, err_bad_request, is_post, err_not_found, is_patch}
use jianghu_scrm.Db.Handover.{
  apply_to_customer, close_item, submit_item, submit_items, commit, submit_found,
  submit_handover_db, apply_customer_handover_db, submit_stored, HandoverTables, OwnedCustomer,
  resolve_guide_for_handover, handover_item_db_tx, is_customer,
}
use jianghu_scrm.Ops.Access.{Method}
use jianghu_scrm.Models.Crm.{HandoverItem}
use jianghu_scrm.Db.HandoverOwner.{AreOwned, handed-AreOwned}
use jianghu_scrm.Utils.{contains}

module _ (suffix : ℕ → String) (text_contains : String → String → Bool) (now : ℕ)
    (store : String) where
  applied-AreOwned :
      (item : HandoverItem) (guide_id guide_name : String) (o : Option OwnedCustomer)
      (db : HandoverTables)
      → AreOwned db
      → AreOwned (apply_to_customer suffix now store item guide_id guide_name o db).1
  unfolding apply_to_customer
  applied-AreOwned item guide_id guide_name none db h = h
  applied-AreOwned item guide_id guide_name (some c) db h =
      handed-AreOwned suffix now store item guide_id guide_name db.drawn db.relations db.customers h

  close_item-AreOwned :
      (item : HandoverItem) (guide_name : String) (a : (String × Bool) × HandoverTables)
      → AreOwned a.1
      → AreOwned (close_item suffix now store item guide_name a)
  unfolding close_item
  close_item-AreOwned item guide_name a h = h

  handed_over-AreOwned :
      (item : HandoverItem) (guide_id guide_name : String) (db : HandoverTables)
      → AreOwned db
      → AreOwned (apply_customer_handover_db suffix now store item guide_id guide_name db).1
  unfolding apply_customer_handover_db
  handed_over-AreOwned item guide_id guide_name db h = elim (Bool-cases (item.customer_id == "")) [
    | inl f ↦ rw f h
    | inr f ↦ rw f (
        applied-AreOwned item guide_id guide_name (find (is_customer item.customer_id) db.customers)
          db h)
  ]

  submit_stored-AreOwned :
      (receiver : String) (item : HandoverItem) (db : HandoverTables)
      → AreOwned db
      → AreOwned (submit_stored suffix now store receiver item db)
  unfolding submit_stored
  submit_stored-AreOwned receiver item db h =
      let guide = resolve_guide_for_handover store receiver db in
      elim (Bool-cases (receiver == "")) [
        | inl e ↦ rw e h
        | inr e ↦ rw e (
            close_item-AreOwned item guide.1
              (apply_customer_handover_db suffix now store item guide.0 guide.1 db)
              (handed_over-AreOwned item guide.0 guide.1 db h))
      ]

  -- the tables of an answer without an error
  abbrev Holds : Reply HandoverTables → Type 0
  Holds (ok db) = AreOwned db
  Holds err_not_found = Unit
  Holds (err_bad_request message) = Unit

  submit_found-Holds :
      (item : HandoverItem) (r : Reply HandoverItem) (db : HandoverTables)
      → AreOwned db
      → Holds (submit_found suffix now store item r db)
  unfolding submit_found
  submit_found-Holds item (ok stored) db h =
      submit_stored-AreOwned (trim_space item.receiver) stored db h
  submit_found-Holds item err_not_found db h = tt
  submit_found-Holds item (err_bad_request message) db h = tt

  submit_item-Holds :
      (item : HandoverItem) (db : HandoverTables)
      → AreOwned db
      → Holds (submit_item suffix text_contains now store item db)
  unfolding submit_item
  submit_item-Holds item db h =
      elim (Bool-cases (item.receiver == "" && text_contains item.required_action "强制")) [
        | inl e ↦ rw e tt
        | inr e ↦ rw e (submit_found-Holds item (handover_item_db_tx store item db) db h)
      ]

  submit_items-Holds :
      (items : List HandoverItem) (db : HandoverTables)
      → AreOwned db
      → Holds (submit_items suffix text_contains now store items db)
  unfolding submit_items
  submit_items-Holds [] db h = h
  submit_items-Holds (item ∷ rest) db h =
      after (submit_item suffix text_contains now store item db) (submit_items-Holds rest)
        (submit_item-Holds item db h)
    where
      after :
          (r : Reply HandoverTables)
          → ((d : HandoverTables)
              → AreOwned d
              → Holds (submit_items suffix text_contains now store rest d))
          → Holds r
          → Holds (elim r [
            | ok d ↦ submit_items suffix text_contains now store rest d
            | err_not_found ↦ err_not_found
            | err_bad_request message ↦ err_bad_request message
          ])
      after (ok d) go k = go d k
      after err_not_found go k = tt
      after (err_bad_request message) go k = tt

  commit-AreOwned :
      (db : HandoverTables) (r : Reply HandoverTables)
      → AreOwned db
      → Holds r
      → AreOwned (commit suffix text_contains store db r).1
  unfolding commit
  commit-AreOwned db (ok d) h k = k
  commit-AreOwned db err_not_found h k = h
  commit-AreOwned db (err_bad_request message) h k = h

  -- Where every customer has at most one active main relation and its guide is the owner, that is
  -- still so after any submission of a handover on the database.
  pub submit_handover_db-AreOwned :
      (method : Method) (body : Option (List HandoverItem)) (db : HandoverTables)
      → AreOwned db
      → AreOwned (submit_handover_db suffix text_contains now store method body db).1
  unfolding submit_handover_db
  submit_handover_db-AreOwned method none db h =
      elim (Bool-cases (is_post method || is_patch method)) [ inl e ↦ rw e h | inr e ↦ rw e h ]
  submit_handover_db-AreOwned method (some items) db h =
      elim (Bool-cases (is_post method || is_patch method)) [
        | inl e ↦ elim (Bool-cases (contains db.synced_stores store)) [
          | inl f ↦ rw e (rw f (commit-AreOwned db _ h (submit_items-Holds items db h)))
          | inr f ↦ rw e (rw f h)
        ]
        | inr e ↦ rw e h
      ]
