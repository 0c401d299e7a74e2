-- ===== src/Tests/Samples.antt =====
-- The data of the runs.
use jianghu_scrm.Prelude.{String, false, true, none, some, [], ◌∷◌}
use jianghu_scrm.Models.OpsCustomers.{OpsCustomer}
use jianghu_scrm.Models.OpsWork.{OpsTask}
use jianghu_scrm.Models.Crm.{Customer, Relation}
use jianghu_scrm.Models.Queue.{EventEnvelope, TaskRecord, TaskItemRecord}
use jianghu_scrm.Ops.State.{World, OpsState}
use jianghu_scrm.Ops.Tasks.{empty_task}
use jianghu_scrm.Ops.Access.{Request, Method, get}
use jianghu_scrm.Ops.Http.{Decoder}
use jianghu_scrm.Crm.Pool.{Outside, Pool}

abbrev pub world_1 : World
world_1 = record { suffix = λ n. "1"; clock = λ n. "now" }

abbrev pub json_1 : Decoder
json_1 = record {
  stage_payload = λ body.
      some (record { stage = "high_intent"; reason = ""; operator_id = ""; operator_name = "" });
  tag_payload = λ body. none;
  follow_up = λ body. none;
  ops_task = λ body. none;
  task_note = λ body. record { remark = ""; assigned_to_user = ""; assigned_to_name = "" };
  material = λ body. none;
}

abbrev pub chen : OpsCustomer
chen = record {
  id = "oc1";
  name = "Chen";
  nickname = "";
  mobile = "";
  avatar = "";
  source_channel = "";
  region_id = "r1";
  region_name = "";
  store_id = "s1";
  store_name = "";
  owner_guide_id = "g1";
  owner_guide_name = "Li";
  lifecycle_stage = "first_follow_pending";
  intention_level = "";
  status = "";
  add_wecom_time = "";
  last_follow_up_time = "";
  last_interaction_time = "";
  deal_status = "";
  risk = "";
  tags = [];
  created_at = "";
  updated_at = "";
}

abbrev pub first_call : OpsTask
first_call = record empty_task {
  id = "ot1";
  customer_id = "oc1";
  task_type = "新客户首次跟进";
  status = "overdue";
  store_id = "s1";
  due_time = "2";
}

abbrev pub other_call : OpsTask
other_call = record empty_task {
  id = "ot2";
  customer_id = "oc1";
  status = "pending";
  store_id = "s2";
  due_time = "1";
}

abbrev pub state_1 : OpsState
state_1 = record {
  ops_customers = chen ∷ [];
  ops_lifecycle_logs = [];
  ops_tags = [];
  ops_tag_links = [];
  ops_followups = [];
  ops_tasks = first_call ∷ other_call ∷ [];
  ops_task_logs = [];
  ops_materials = [];
  ops_timelines = [];
  ops_exceptions = [];
  drawn = 0;
  readings = 0;
}

-- The manager of a store asks.
abbrev pub manager_of : Method → String → Request
manager_of m store = record {
  method = m;
  role_header = "store_manager";
  region_header = "";
  store_header = store;
  guide_header = "";
  body = "";
}

-- A request with a role that the memory mode does not know.
abbrev pub regional : Request
regional = record {
  method = get;
  role_header = "regional_manager";
  region_header = "r9";
  store_header = "";
  guide_header = "";
  body = "";
}

abbrev pub outside_1 : Outside
outside_1 = record {
  suffix = λ n. "1";
  stamps = λ n. "now";
  days = λ n. "today";
  times = λ n. "now";
}

abbrev pub relation_of : String → String → Relation
relation_of id guide = record {
  id = id;
  guide_id = "";
  guide = guide;
  code = "";
  store = "";
  linked_at = "";
  ended_at = "-";
  main = false;
}

abbrev pub wang : Customer
wang = record {
  id = "c1";
  name = "Wang";
  wecom = "";
  mobile = "";
  owner = "Li";
  source = "";
  source_store = "";
  stage = "";
  tag_group = "";
  tags = [];
  wecom_tags = [];
  last_active = "";
  intent_score = 0;
  sales_stage = "";
  conversion_source = "";
  deal_amount = "";
  next_follow_up = "";
  signals = [];
  relations = record (relation_of "r1" "Li") { main = true } ∷ relation_of "r2" "Zhao" ∷ [];
  timeline = [];
}

abbrev pub pool_1 : Pool
pool_1 = record { customers = wang ∷ []; drawn = 0; readings = 0 }

abbrev pub event_of : String → EventEnvelope
event_of status = record {
  id = "";
  source = "";
  type = "";
  object_id = "";
  idempotency_key = "";
  status = status;
  attempts = 0;
  received_at = "";
  processed_at = "";
  payload = "";
}

abbrev pub batch : TaskRecord
batch = record {
  id = "t1";
  type = "batch_customer_tags";
  status = "queued";
  total_count = 2;
  success_count = 0;
  failed_count = 0;
  payload = "";
  created_by = "";
  created_at = "";
  started_at = "";
  finished_at = "";
  last_error = "";
}

abbrev pub item_of : String → String → TaskItemRecord
item_of id target = record {
  id = id;
  task_id = "t1";
  target_id = target;
  status = "queued";
  attempts = 0;
  result = "";
  last_error = "";
  updated_at = "";
}
