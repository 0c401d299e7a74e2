-- ===== src/Crm/Guides.antt =====
-- The guides in memory: `guideActionHandler` and `findGuide` (backend/guides.go and
-- backend/events_tasks.go), and the creation in `storeGuidesHandler` of backend/stores.go.
use jianghu_scrm.Models.Crm.{Guide, AuditEvent}
use jianghu_scrm.Crm.Pool.{Outside, Pool, audit, tick}
use jianghu_scrm.Db.Guides.{
  make_qr_download, GuideAnswer, no_guide, guide_shown, refused, events_shown, qr_shown,
}
use jianghu_scrm.Prelude.{
  find, String, ◌<>◌, if◌then◌else◌, update_first, ◌∷◌, List, true, Option, Bool, not, ◌==◌, false,
  ◌||◌, [], some, ◌+◌, none, ◌++◌,
}

-- The guides, and the identifiers and readings of the clock taken so far.
pub record Staff : Type 0 where
  pub guides : List Guide
  pub pool : Pool

unfoldable pub names_guide : String → Guide → Bool
names_guide key g = g.id == key || g.name == key

unfoldable pub find_guide : String → Staff → Option Guide
unfolding find names_guide
find_guide key staff = find (names_guide key) staff.guides

unfoldable pub log_guide : AuditEvent → Guide → Guide
log_guide event g = record g { lifecycle = event ∷ g.lifecycle }

module _ (outside : Outside) where
  unfoldable pub pause_in_memory : Pool → Guide → Guide
  unfolding audit log_guide
  pause_in_memory pool g =
      if not g.paused
      then log_guide (audit outside pool "暂停使用" "暂停轮巡" "店长" ("导购：" <> g.name) "不改写存量客户来源和服务关系。")
          (record g { paused = true; handling = "已暂停使用，物料码轮巡不会分配给该导购" })
      else log_guide (audit outside pool "恢复使用" "恢复轮巡" "店长" ("导购：" <> g.name) "导购重新进入物料码轮巡池。")
          (record g { paused = false; handling = "正常服务" })

  unfoldable pub remove_in_memory : Pool → Guide → Guide
  unfolding audit log_guide
  remove_in_memory pool g =
      log_guide (audit outside pool "移除成员" "停用可恢复" "店长" ("导购：" <> g.name) "客户关系保留，活码退出物料码轮巡。")
        (record g {
          employment_status = "已移除";
          status = "已移除";
          paused = true;
          handling = "客户关系保留，后续不再分配新客";
        })

  -- a write through the pointer that `findGuide` returned
  unfoldable pub put_guide : String → Guide → Staff → Staff
  unfolding names_guide update_first tick
  put_guide key g staff = record staff {
    guides = update_first (names_guide key) (λ _. g) staff.guides;
    pool = tick staff.pool;
  }

  abbrev pub written_back : String → Guide → Staff → GuideAnswer × Staff
  written_back key g staff = (guide_shown g, put_guide key g staff)

  unfoldable pub guide_action_in_memory : String → String → Staff → Guide → GuideAnswer × Staff
  unfolding pause_in_memory remove_in_memory put_guide make_qr_download
  guide_action_in_memory key action staff g =
      if action == "pause"
      then written_back key (pause_in_memory staff.pool g) staff
      else if action == "remove"
      then written_back key (remove_in_memory staff.pool g) staff
      else if action == "lifecycle"
      then (events_shown g.lifecycle, staff)
      else if action == "qr-download"
      then (qr_shown (make_qr_download g.code "导购活码"), staff)
      else (no_guide, staff)

  unfoldable pub act_in_memory : String → String → Staff → Option Guide → GuideAnswer × Staff
  unfolding guide_action_in_memory
  act_in_memory key action staff none = (no_guide, staff)
  act_in_memory key action staff (some g) = guide_action_in_memory key action staff g

  unfoldable pub guide_action_handler : List String → Staff → GuideAnswer × Staff
  unfolding find_guide act_in_memory
  guide_action_handler [] staff = (no_guide, staff)
  guide_action_handler (key ∷ []) staff = (no_guide, staff)
  guide_action_handler (key ∷ action ∷ rest) staff =
      act_in_memory key action staff (find_guide key staff)

  -- A POST to the guides of a store; `none` is a body that does not decode.
  unfoldable pub create_guide_in_memory : String → Option String → Staff → GuideAnswer × Staff
  unfolding audit tick
  create_guide_in_memory store_id none staff = (refused "invalid body", staff)
  create_guide_in_memory store_id (some name) staff =
      let pool : Pool = record staff.pool { drawn = staff.pool.drawn + 1 } in
      let code = "南山店-" <> name in
      let g : Guide = record {
        id = "g" <> outside.suffix staff.pool.drawn;
        store_id = store_id;
        name = name;
        code = code;
        count = "0 / 0";
        total_pool = 0;
        today_pool = 0;
        status = "在职";
        employment_status = "在职";
        paused = false;
        handling = "正常服务";
        lifecycle =
            audit outside pool "添加接待导购" "生成导购活码" "店长" ("导购：" <> name) (code <> " 已进入物料码轮巡池。") ∷ [];
      } in
      if name == ""
      then (refused "guide name is required", staff)
      else (guide_shown g, record { guides = staff.guides ++ g ∷ []; pool = tick pool })
