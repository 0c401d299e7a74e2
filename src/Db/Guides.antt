-- ===== src/Db/Guides.antt =====
-- The guides of a store on the database: `guideActionDBHandler`, `createGuideDB` and what they read in
-- backend/guides.go, with `storeCodePrefix` of backend/stores.go. `strings.Contains`,
-- `strconv.Itoa`, and of the database `to_char`, CURRENT_DATE and the order of texts are arguments.
-- The identifiers that `newID` draws for events are taken to be new.
use jianghu_scrm.Db.Tables.{coalesce, update_where}
use jianghu_scrm.Prelude.{
  ℕ, any, String, List, if◌then◌else◌, Option, Bool, true, ◌==◌, ◌<>◌, ◌++◌, ◌&&◌, ◌∷◌, ◌||◌, [],
  none,
}
use jianghu_scrm.Models.Crm.{Guide, AuditEvent, QrDownload}

-- A row of guides.
pub record DbGuide : Type 0 where
  pub id : String
  pub store_id : String
  pub name : String
  pub code : String
  pub status : String
  pub employment_status : String
  pub paused : Bool
  pub handling : String
  pub updated_at : ℕ

pub record StoreCode : Type 0 where
  pub id : String
  pub code_type : String
  pub store_id : String
  pub staff_id : String
  pub entry_mode : String
  pub welcome_rule_id : String
  pub status : String
  pub qr_payload : String
  pub destroyed_at : Option ℕ

pub record GuideEvent : Type 0 where
  pub id : String
  pub guide_id : String
  pub action : String
  pub result : String
  pub operator : String
  pub people : String
  pub detail : String
  pub occurred_at : ℕ

pub record DbStore : Type 0 where
  pub id : String
  pub name : String

-- The columns of customers that the counts of a guide read.
pub record GuideCustomer : Type 0 where
  pub owner_staff_id : String
  pub created_at : ℕ

pub record GuideTables : Type 0 where
  pub stores : List DbStore
  pub guides : List DbGuide
  pub store_codes : List StoreCode
  pub guide_events : List GuideEvent
  pub customers : List GuideCustomer
  pub drawn : ℕ  -- calls of `newID` so far

pub data GuideAnswer : Type 0 where
  guide_shown : Guide → GuideAnswer
  events_shown : List AuditEvent → GuideAnswer
  qr_shown : QrDownload → GuideAnswer
  no_guide : GuideAnswer
  refused : String → GuideAnswer
  unread : GuideAnswer  -- an error of the server

unfoldable pub guide_status_from_db : String → String
guide_status_from_db status =
    if status == "removed" then "已移除" else if status == "paused" then "暂停使用" else "在职"

unfoldable pub guide_employment_status_from_db : String → String
guide_employment_status_from_db status = if status == "removed" then "已移除" else "在职"

-- WHERE g.id = $1 OR g.name = $1, joined with the guide's store
unfoldable pub is_guide : List DbStore → String → DbGuide → Bool
unfolding any
is_guide stores key g = any (λ s. s.id == g.store_id) stores && (g.id == key || g.name == key)

unfoldable pub is_row : String → DbGuide → Bool
is_row id g = g.id == id

unfoldable pub is_code_of : String → StoreCode → Bool
is_code_of id c = c.staff_id == id && c.code_type == "guide_code"

-- What "pause" writes: it pauses a guide, or resumes it.
unfoldable pub pause_row : ℕ → Bool → DbGuide → DbGuide
pause_row now paused g = record g {
  paused = paused;
  status = if paused then "paused" else "active";
  employment_status = "active";
  handling = if paused then "已暂停使用，物料码轮巡不会分配给该导购" else "正常服务";
  updated_at = now;
}

unfoldable pub remove_row : ℕ → DbGuide → DbGuide
remove_row now g = record g {
  paused = true;
  status = "removed";
  employment_status = "removed";
  handling = "客户关系保留，后续不再分配新客";
  updated_at = now;
}

unfoldable pub destroy_code : ℕ → StoreCode → StoreCode
unfolding coalesce
destroy_code now c = record c { status = "destroyed"; destroyed_at = coalesce c.destroyed_at now }

-- ON CONFLICT (id) DO UPDATE
unfoldable pub reuse_code : StoreCode → StoreCode → StoreCode
reuse_code fresh c = record c {
  store_id = fresh.store_id;
  staff_id = fresh.staff_id;
  status = "active";
  qr_payload = fresh.qr_payload;
}

unfoldable pub put_code : StoreCode → List StoreCode → List StoreCode
unfolding any update_where reuse_code
put_code fresh codes =
    if any (λ c. c.id == fresh.id) codes
    then update_where (λ c. c.id == fresh.id) (reuse_code fresh) codes
    else codes ++ fresh ∷ []

unfoldable pub make_qr_download : String → String → QrDownload
make_qr_download name kind = record {
  file_name = name <> "-" <> kind <> ".svg";
  mime_type = "image/svg+xml";
  content =
      "<svg xmlns=\"http://www.w3.org/2000/svg\" width=\"360\" height=\"420\" "
      <> "viewBox=\"0 0 360 420\"><rect width=\"360\" height=\"420\" fill=\"#fff\"/>"
      <> "<text x=\"180\" y=\"34\" text-anchor=\"middle\" font-size=\"20\" "
      <> "font-family=\"Arial\" fill=\"#1f2937\">" <> name
      <> "</text><rect x=\"70\" y=\"60\" width=\"220\" height=\"220\" fill=\"#f8fafc\" "
      <> "stroke=\"#1f2937\" stroke-width=\"6\"/><g fill=\"#111827\">"
      <> "<rect x=\"90\" y=\"80\" width=\"48\" height=\"48\"/>"
      <> "<rect x=\"222\" y=\"80\" width=\"48\" height=\"48\"/>"
      <> "<rect x=\"90\" y=\"212\" width=\"48\" height=\"48\"/>"
      <> "<rect x=\"154\" y=\"94\" width=\"16\" height=\"16\"/>"
      <> "<rect x=\"184\" y=\"94\" width=\"22\" height=\"22\"/>"
      <> "<rect x=\"150\" y=\"138\" width=\"26\" height=\"26\"/>"
      <> "<rect x=\"194\" y=\"142\" width=\"18\" height=\"18\"/>"
      <> "<rect x=\"226\" y=\"154\" width=\"22\" height=\"22\"/></g>"
      <> "<text x=\"180\" y=\"330\" text-anchor=\"middle\" font-size=\"16\" "
      <> "font-family=\"Arial\" fill=\"#475467\">线下门店私域 " <> kind <> "</text></svg>";
}

unfoldable pub store_code_prefix : (String → String → Bool) → String → String
store_code_prefix text_contains name =
    if text_contains name "南山"
    then "南山店"
    else if text_contains name "天河"
    then "天河店"
    else if text_contains name "杭州" || text_contains name "湖滨"
    then "杭州店"
    else if name == ""
    then "门店"
    else name

unfoldable pub new_code : DbGuide → StoreCode
new_code g = record {
  id = "code-" <> g.id;
  code_type = "guide_code";
  store_id = g.store_id;
  staff_id = g.id;
  entry_mode = "wecom_first";
  welcome_rule_id = "welcome-default";
  status = "active";
  qr_payload = g.code;
  destroyed_at = none;
}

-- The primary key of guides, and UNIQUE (store_id, name).
unfoldable pub is_taken : DbGuide → DbGuide → Bool
is_taken fresh g = g.id == fresh.id || (g.store_id == fresh.store_id && g.name == fresh.name)
