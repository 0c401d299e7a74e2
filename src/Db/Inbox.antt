-- ===== src/Db/Inbox.antt =====
-- The POST of the event inbox on the database, `eventInboxDBHandler` and `eventDBByKey` of
-- backend/events_tasks.go. The table has a primary key on the id and a unique key on the idempotency
-- key (backend/migrations/001_industrial_baseline.sql); an INSERT that violates one is refused with
-- the code 23505. `jsonb_text` is what the database makes of a text that is stored as jsonb and read
-- back (`$6::jsonb`, `payload::text`), and `none` where it refuses the text.
use jianghu_scrm.Db.Tables.{DbEvent, Database}
use jianghu_scrm.Prelude.{
  ℕ, String, any, find, Option, Bool, some, ◌==◌, if◌then◌else◌, ◌+◌, ◌∷◌, none, ◌<>◌, ◌||◌, ◌++◌,
  [],
}
use jianghu_scrm.Utils.{first_non_empty}
use jianghu_scrm.Crm.Inbox.{EventPayload}

-- An answer of the handler; `failed` is an internal error: a row that is not there, or a payload that
-- the database refuses.
pub data DbPosted : Type 0 where
  rejected failed : DbPosted
  duplicate queued : DbEvent → DbPosted

unfoldable pub has_db_key : String → DbEvent → Bool
has_db_key key e = e.idempotency_key == key

unfoldable pub has_db_id : String → DbEvent → Bool
has_db_id id e = e.id == id

unfoldable pub event_db_by_key : String → Database → Option DbEvent
unfolding find has_db_key
event_db_by_key key db = find (has_db_key key) db.event_inbox

-- INSERT INTO event_inbox: `none` where a unique key is violated.
unfoldable pub insert_event : DbEvent → Database → Option Database
unfolding any has_db_key has_db_id
insert_event e db =
    if any (has_db_id e.id) db.event_inbox || any (has_db_key e.idempotency_key) db.event_inbox
    then none
    else some (record db { event_inbox = db.event_inbox ++ e ∷ [] })

unfoldable pub answer_duplicate : Option DbEvent → DbPosted
answer_duplicate none = failed
answer_duplicate (some e) = duplicate e

unfoldable pub answer_queued : Option DbEvent → DbPosted
answer_queued none = failed
answer_queued (some e) = queued e

unfoldable pub raw_payload : EventPayload → String
raw_payload p = if p.payload == "" then "{}" else p.payload

module _ (suffix : ℕ → String) (now : ℕ) where
  unfoldable pub db_event_id : EventPayload → Database → String
  unfolding first_non_empty
  db_event_id p db = first_non_empty (p.event_id ∷ p.id ∷ ("evt" <> suffix db.drawn) ∷ [])

  unfoldable pub db_event_key : EventPayload → Database → String
  unfolding first_non_empty db_event_id
  db_event_key p db =
      first_non_empty
        (p.idempotency_key ∷ (p.source <> ":" <> p.type <> ":" <> db_event_id p db) ∷ [])

  unfoldable pub db_envelope : EventPayload → String → Database → DbEvent
  unfolding db_event_id db_event_key
  db_envelope p text db = record {
    id = db_event_id p db;
    source = p.source;
    event_type = p.type;
    object_id = p.object_id;
    idempotency_key = db_event_key p db;
    status = "queued";
    attempts = 0;
    received_at = now;
    processed_at = none;
    next_attempt_at = now;
    payload = text;
  }

  unfoldable pub draw_event_id : Database → Database
  draw_event_id db = record db { drawn = db.drawn + 1 }

  unfoldable pub answer_insert : String → Database → Option Database → DbPosted × Database
  unfolding answer_duplicate answer_queued event_db_by_key draw_event_id
  answer_insert key db none = (answer_duplicate (event_db_by_key key db), draw_event_id db)
  answer_insert key db (some db') = (answer_queued (event_db_by_key key db'), draw_event_id db')

  -- The INSERT with the payload as jsonb holds it.
  unfoldable pub insert_payload : EventPayload → Option String → Database → DbPosted × Database
  unfolding answer_insert insert_event db_envelope db_event_key draw_event_id
  insert_payload p none db = (failed, draw_event_id db)
  insert_payload p (some text) db =
      answer_insert (db_event_key p db) db (insert_event (db_envelope p text db) db)

  unfoldable pub post_db_event :
      (String → Option String) → EventPayload → Database → DbPosted × Database
  unfolding insert_payload raw_payload
  post_db_event jsonb_text p db =
      if p.source == "" || p.type == ""
      then (rejected, db)
      else insert_payload p (jsonb_text (raw_payload p)) db
