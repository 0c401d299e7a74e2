-- ===== src/Db/GuideActions.antt =====
-- The handlers of the guides on the database: an action on a guide and the creation of one
-- (`guideActionDBHandler`, `storeGuidesDBHandler`, `createGuideDB` of backend/guides.go). The list
-- that `storeGuidesDBHandler` gives for any method but POST only reads.
use jianghu_scrm.Prelude.{
  ℕ, String, Bool, List, if◌then◌else◌, Option, any, find, ◌||◌, ◌<>◌, ◌==◌, ◌++◌, ltb, count, ◌∷◌,
  stable_sort, trim_space, eqb, [], ◌+◌, insert, none, false, ◌&&◌, some, map, not, leb,
}
use jianghu_scrm.Utils.{filter}
use jianghu_scrm.Db.Guides.{
  GuideTables, guide_status_from_db, DbStore, guide_employment_status_from_db, DbGuide, put_code,
  GuideEvent, is_guide, make_qr_download, is_row, GuideAnswer, remove_row, pause_row, unread,
  refused, events_shown, is_code_of, no_guide, destroy_code, qr_shown, guide_shown, new_code,
  is_taken, store_code_prefix,
}
use jianghu_scrm.Db.Tables.{update_where}
use jianghu_scrm.Models.Crm.{AuditEvent, Guide}

pub data GuideRequest : Type 0 where
  to_guide : ℕ → List String → GuideRequest
  to_store : ℕ → String → Option String → GuideRequest

-- The guides in the order of a query, and how it shows them.
module _ (text_before : String → String → Bool) (current_date : ℕ → ℕ)
    (itoa to_char : ℕ → String) where
  -- ORDER BY g.updated_at DESC, g.id
  unfoldable pub shown_before : DbGuide → DbGuide → Bool
  shown_before a b =
      ltb b.updated_at a.updated_at || (eqb a.updated_at b.updated_at && text_before a.id b.id)

  unfoldable pub guide_db : String → GuideTables → Option DbGuide
  unfolding find is_guide stable_sort insert shown_before
  guide_db key db = find (is_guide db.stores key) (stable_sort shown_before db.guides)

  unfoldable pub guide_view : ℕ → GuideTables → DbGuide → Guide
  unfolding guide_status_from_db guide_employment_status_from_db count
  guide_view now db g =
      let total = count (λ c. c.owner_staff_id == g.id) db.customers in
      let today =
        count (λ c. c.owner_staff_id == g.id && leb (current_date now) c.created_at) db.customers in
      record {
        id = g.id;
        store_id = g.store_id;
        name = g.name;
        code = g.code;
        count = itoa today <> " / " <> itoa total;
        total_pool = total;
        today_pool = today;
        status = guide_status_from_db g.status;
        employment_status = guide_employment_status_from_db g.employment_status;
        paused = g.paused;
        handling = g.handling;
        lifecycle = [];
      }

  -- ORDER BY occurred_at DESC, id DESC
  unfoldable pub event_before : GuideEvent → GuideEvent → Bool
  event_before a b =
      ltb b.occurred_at a.occurred_at || (eqb a.occurred_at b.occurred_at && text_before b.id a.id)

  unfoldable pub event_view : GuideEvent → AuditEvent
  event_view e = record {
    id = e.id;
    time = to_char e.occurred_at;
    action = e.action;
    result = e.result;
    operator = e.operator;
    people = e.people;
    detail = e.detail;
  }

  unfoldable pub guide_events_db : String → GuideTables → List AuditEvent
  unfolding filter stable_sort insert event_before event_view
  guide_events_db id db =
      map event_view (stable_sort event_before (filter (λ e. e.guide_id == id) db.guide_events))

  -- the guide after its change
  unfoldable pub show_guide : ℕ → GuideTables → Option DbGuide → GuideAnswer
  unfolding guide_view
  show_guide now db none = unread
  show_guide now db (some g) = guide_shown (guide_view now db g)

  module _ (suffix : ℕ → String) (text_contains : String → String → Bool) where
    unfoldable pub insert_guide_event_db :
        ℕ → String → String → String → String → String → GuideTables → GuideTables
    insert_guide_event_db now guide_id action result people detail db = record db {
      guide_events =
          db.guide_events
          ++ record {
            id = "gev" <> suffix db.drawn;
            guide_id = guide_id;
            action = action;
            result = result;
            operator = "店长";
            people = people;
            detail = detail;
            occurred_at = now;
          }
            ∷ [];
      drawn = db.drawn + 1;
    }

    unfoldable pub pause_guide : ℕ → DbGuide → GuideTables → GuideTables
    unfolding update_where is_row pause_row insert_guide_event_db
    pause_guide now g db =
        let paused = not g.paused in
        insert_guide_event_db now g.id (if paused then "暂停使用" else "恢复使用")
          (if paused then "暂停轮巡" else "恢复轮巡") ("导购：" <> g.name)
          (if paused then "不改写存量客户来源和服务关系。" else "导购重新进入物料码轮巡池。")
          (record db { guides = update_where (is_row g.id) (pause_row now paused) db.guides })

    unfoldable pub remove_guide : ℕ → DbGuide → GuideTables → GuideTables
    unfolding update_where is_row remove_row is_code_of destroy_code insert_guide_event_db
    remove_guide now g db =
        insert_guide_event_db now g.id "移除成员" "停用可恢复" ("导购：" <> g.name) "客户关系保留，活码退出物料码轮巡。"
          (record db {
            guides = update_where (is_row g.id) (remove_row now) db.guides;
            store_codes = update_where (is_code_of g.id) (destroy_code now) db.store_codes;
          })

    abbrev pub shown_after : ℕ → DbGuide → GuideTables → GuideAnswer × GuideTables
    shown_after now g db = (show_guide now db (guide_db g.id db), db)

    unfoldable pub guide_action : ℕ → String → GuideTables → DbGuide → GuideAnswer × GuideTables
    unfolding guide_employment_status_from_db pause_guide remove_guide guide_events_db
        make_qr_download show_guide guide_db
    guide_action now action db g =
        if action == "pause"
        then (if guide_employment_status_from_db g.employment_status == "已移除"
            then (refused "removed guide cannot be paused", db)
            else shown_after now g (pause_guide now g db))
        else if action == "remove"
        then shown_after now g (remove_guide now g db)
        else if action == "lifecycle"
        then (events_shown (guide_events_db g.id db), db)
        else if action == "qr-download"
        then (qr_shown (make_qr_download g.code "导购活码"), db)
        else (no_guide, db)

    unfoldable pub act_on_found :
        ℕ → String → GuideTables → Option DbGuide → GuideAnswer × GuideTables
    unfolding guide_action
    act_on_found now action db none = (no_guide, db)
    act_on_found now action db (some g) = guide_action now action db g

    unfoldable pub guide_action_db_handler :
        ℕ → List String → GuideTables → GuideAnswer × GuideTables
    unfolding guide_db act_on_found
    guide_action_db_handler now [] db = (no_guide, db)
    guide_action_db_handler now (key ∷ []) db = (no_guide, db)
    guide_action_db_handler now (key ∷ action ∷ rest) db =
        act_on_found now action db (guide_db key db)

    unfoldable pub new_guide : ℕ → DbStore → String → ℕ → DbGuide
    unfolding store_code_prefix
    new_guide now store name drawn = record {
      id = "g" <> suffix drawn;
      store_id = store.id;
      name = name;
      code = store_code_prefix text_contains store.name <> "-" <> name;
      status = "active";
      employment_status = "active";
      paused = false;
      handling = "正常服务";
      updated_at = now;
    }

    unfoldable pub insert_guide : ℕ → DbGuide → GuideTables → GuideTables
    unfolding put_code new_code insert_guide_event_db
    insert_guide now g db =
        insert_guide_event_db now g.id "添加接待导购" "生成导购活码" ("导购：" <> g.name) (g.code <> " 已进入物料码轮巡池。")
          (record db {
            guides = db.guides ++ g ∷ [];
            store_codes = put_code (new_code g) db.store_codes;
          })

    unfoldable pub create_guide_db : ℕ → DbStore → String → GuideTables → GuideAnswer × GuideTables
    unfolding new_guide insert_guide any is_taken show_guide guide_db
    create_guide_db now store name db =
        let fresh = new_guide now store name db.drawn in
        let drawn = record db { drawn = db.drawn + 1 } in
        if any (is_taken fresh) db.guides
        then (refused "guide name already exists in this store", drawn)
        else shown_after now fresh (insert_guide now fresh drawn)

    -- `none` is a body that does not decode.
    unfoldable pub named_guide :
        ℕ → Option String → GuideTables → DbStore → GuideAnswer × GuideTables
    unfolding trim_space create_guide_db
    named_guide now none db store = (refused "invalid body", db)
    named_guide now (some name) db store =
        if trim_space name == ""
        then (refused "guide name is required", db)
        else create_guide_db now store (trim_space name) db

    unfoldable pub create_in_found :
        ℕ → Option String → GuideTables → Option DbStore → GuideAnswer × GuideTables
    unfolding named_guide
    create_in_found now body db none = (no_guide, db)
    create_in_found now body db (some store) = named_guide now body db store

    -- A POST to the guides of a store.
    unfoldable pub create_store_guide_db :
        ℕ → String → Option String → GuideTables → GuideAnswer × GuideTables
    unfolding find create_in_found
    create_store_guide_db now store_id body db =
        create_in_found now body db (find (λ s. s.id == store_id) db.stores)

    unfoldable pub serve_guide : GuideRequest → GuideTables → GuideTables
    unfolding guide_action_db_handler create_store_guide_db
    serve_guide (to_guide now parts) db = (guide_action_db_handler now parts db).1
    serve_guide (to_store now store_id body) db = (create_store_guide_db now store_id body db).1

    unfoldable pub serve_guides : List GuideRequest → GuideTables → GuideTables
    unfolding serve_guide
    serve_guides [] db = db
    serve_guides (r ∷ rs) db = serve_guides rs (serve_guide r db)
