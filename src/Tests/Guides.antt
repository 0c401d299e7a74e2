-- ===== src/Tests/Guides.antt =====
-- Runs of the handlers of guides on the database.
use jianghu_scrm.Db.GuidesGone.{IsGone}
use jianghu_scrm.Prelude.{
  List, ℕ, String, Bool, any, ◌≡◌, false, ◌∷◌, some, find, [], refl, map, update_first,
}
use jianghu_scrm.Db.GuideActions.{
  serve_guides, guide_db, GuideRequest, guide_action_db_handler, to_guide, to_store,
}
use jianghu_scrm.Db.Guides.{
  GuideTables, DbGuide, is_guide, new_code, is_row, is_code_of, is_taken,
  guide_employment_status_from_db,
}
use jianghu_scrm.Db.GuidesRemoved.{guide_action_db_handler-IsGone}
use jianghu_scrm.Db.Tables.{update_where}
use jianghu_scrm.Crm.GuidesAgree.{HaveOwnIds, AreInStep, InStep}
use jianghu_scrm.Crm.Guides.{find_guide, guide_action_handler, Staff, names_guide, log_guide}
use jianghu_scrm.Models.Crm.{Guide}
use jianghu_scrm.Tests.Samples.{pool_1, outside_1}
use jianghu_scrm.Crm.GuidesModes.{guide_action_handler-AreInStep}
use jianghu_scrm.Crm.Pool.{audit, tick}

abbrev guide_1 : DbGuide
guide_1 = record {
  id = "g1";
  store_id = "s1";
  name = "Li";
  code = "S-Li";
  status = "active";
  employment_status = "active";
  paused = false;
  handling = "";
  updated_at = 0;
}

abbrev tables_1 : GuideTables
tables_1 = record {
  stores = record { id = "s1"; name = "S" } ∷ [];
  guides = guide_1 ∷ [];
  store_codes = new_code guide_1 ∷ [];
  guide_events = [];
  customers = [];
  drawn = 0;
}

abbrev suffix_9 : ℕ → String
suffix_9 n = "9"

abbrev digits : ℕ → String
digits n = "0"

abbrev none_in : String → String → Bool
none_in s t = false

abbrev midnight : ℕ → ℕ
midnight now = 0

abbrev later : List GuideRequest
later = to_guide 6 ("Li" ∷ "pause" ∷ []) ∷ to_store 7 "s1" (some "Wu") ∷ []

-- The removed guide is not resumed, and the new one has an active code.
served :
    map
      (λ c. c.status)
      (serve_guides none_in midnight digits digits suffix_9 none_in
        (to_guide 5 ("Li" ∷ "remove" ∷ []) ∷ later)
        tables_1).store_codes
    ≡ "destroyed" ∷ "active" ∷ []
unfolding serve_guides any find is_guide is_row is_code_of is_taken new_code update_where
served = refl

found_1 : guide_db none_in midnight digits digits "Li" tables_1 ≡ some guide_1
unfolding guide_db
found_1 = refl

guide_action_db_handler-IsGone_example : IsGone "g1" (
    serve_guides none_in midnight digits digits suffix_9 none_in later
      (guide_action_db_handler none_in midnight digits digits suffix_9 none_in 5
        ("Li" ∷ "remove" ∷ [])
        tables_1).1)
guide_action_db_handler-IsGone_example =
    guide_action_db_handler-IsGone none_in midnight digits digits suffix_9 none_in 5 "Li" []
      tables_1 guide_1 found_1 later

abbrev memory_guide : Guide
memory_guide = record {
  id = "g1";
  store_id = "s1";
  name = "Li";
  code = "S-Li";
  count = "0 / 0";
  total_pool = 0;
  today_pool = 0;
  status = "在职";
  employment_status = "在职";
  paused = false;
  handling = "";
  lifecycle = [];
}

abbrev staff_1 : Staff
staff_1 = record { guides = memory_guide ∷ []; pool = pool_1 }

-- A removed guide that is paused in memory is no longer paused.
resumed :
    map
      (λ g. g.paused)
      (guide_action_handler outside_1
        ("Li" ∷ "pause" ∷ [])
        (guide_action_handler outside_1 ("g1" ∷ "remove" ∷ []) staff_1).1).1.guides
    ≡ false ∷ []
unfolding guide_action_handler find update_first names_guide log_guide audit tick
resumed = refl

InStep-guide : InStep guide_1 memory_guide
unfolding guide_employment_status_from_db
InStep-guide = record {
  id = refl;
  name = refl;
  code = refl;
  employed = refl;
  paused = refl;
  handling = refl;
}

found_in_memory : find_guide "Li" staff_1 ≡ some memory_guide
unfolding find_guide
found_in_memory = refl

own_id : HaveOwnIds staff_1.guides
unfolding any
own_id = (refl, tt)

guide_action_handler-AreInStep_example :
    AreInStep
      (guide_action_db_handler none_in midnight digits digits suffix_9 none_in 5
        ("Li" ∷ "pause" ∷ [])
        tables_1).1.guides
      (guide_action_handler outside_1 ("Li" ∷ "pause" ∷ []) staff_1).1.guides
guide_action_handler-AreInStep_example =
    guide_action_handler-AreInStep none_in midnight digits digits suffix_9 none_in outside_1 5 "Li"
      "pause" [] tables_1 staff_1 guide_1 memory_guide (InStep-guide, tt) own_id found_1
      found_in_memory InStep-guide refl
