-- ===== src/Db/InboxRefines.antt =====
-- The event inbox on the database does what the one in memory does.
mod Views
unfoldable pub use Views.*
use mathlib.Core.Option
use jianghu_scrm.Prelude.{
  Bool, String, Option, ℕ, find, any, List, ◌≡◌, none, false, some, ◌++◌, true, ◌⊎◌, ◌∷◌,
  Bool-cases, [], refl, arith, inl, inr, ◌+◌, ◌==◌, eq_refl, ◌∙◌, eq_iff, subst, ap, sym, ◌||◌,
}
use jianghu_scrm.Db.Inbox.{
  DbPosted, has_db_id, db_event_key, insert_event, db_envelope, db_event_id, has_db_key,
  answer_insert, event_db_by_key, draw_event_id, post_db_event, answer_duplicate, answer_queued,
  raw_payload, insert_payload,
}
use jianghu_scrm.Models.Queue.{EventEnvelope}
use jianghu_scrm.Db.Tables.{DbEvent, Database}
use jianghu_scrm.Crm.Pool.{Outside}
use jianghu_scrm.Crm.Inbox.{
  Posted, Inbox, EventPayload, key_of, event_id_of, has_key, envelope, store_event, post_event,
}

-- The id is new to the table, or the key is there.
abbrev pub IsFresh : Outside → ℕ → EventPayload → Database → Type 0
IsFresh outside now p db =
    (any (has_db_id (db_event_id outside.suffix now p db)) db.event_inbox ≡ false)
    ⊎ (any (has_db_key (db_event_key outside.suffix now p db)) db.event_inbox ≡ true)

module _ (outside : Outside) (now : ℕ) (p : EventPayload) (jsonb_text : String → Option String)
    (text : String) (accepted : jsonb_text (raw_payload p) ≡ some text) where
  abbrev event_key : Inbox → String
  event_key inbox = key_of outside p inbox

  same_key :
      (db : Database) (inbox : Inbox)
      → db.drawn ≡ inbox.drawn
      → (db_event_key outside.suffix now p db ≡ key_of outside p inbox)
        × (db_event_id outside.suffix now p db ≡ event_id_of outside p inbox)
  unfolding db_event_key db_event_id key_of event_id_of
  same_key db inbox e = rw e (refl, refl)

  insert_known :
      (db : Database) (e : DbEvent)
      → find (has_db_key (db_event_key outside.suffix now p db)) db.event_inbox ≡ some e
      → insert_event (db_envelope outside.suffix now p text db) db ≡ none
  unfolding insert_event db_envelope
  insert_known db e f =
      let there =
        any_of_some (has_db_key (db_event_key outside.suffix now p db)) db.event_inbox e f in
      ground (arith, there)

  insert_new :
      (db : Database)
      → find (has_db_key (db_event_key outside.suffix now p db)) db.event_inbox ≡ none
      → IsFresh outside now p db
      → insert_event (db_envelope outside.suffix now p text db) db
        ≡ some (record db {
          event_inbox = db.event_inbox ++ db_envelope outside.suffix now p text db ∷ [];
        })
  unfolding insert_event db_envelope
  insert_new db f h =
      let absent =
        any_of_none (has_db_key (db_event_key outside.suffix now p db)) db.event_inbox f in
      ground (arith, absent, h)

  same_view :
      (db : Database) (inbox : Inbox)
      → db.drawn ≡ inbox.drawn
      → of_row (db_envelope outside.suffix now p text db)
        ≡ of_memory jsonb_text (envelope outside p inbox)
  unfolding of_row of_memory db_envelope envelope raw_payload
  same_view db inbox e = let same = same_key db inbox e in rw (same.0, same.1, accepted) refl

  -- the tables with the new event
  abbrev added : Database → Database
  added db = record db {
    event_inbox = db.event_inbox ++ db_envelope outside.suffix now p text db ∷ [];
    drawn = db.drawn + 1;
  }

  abbrev added_memory : Inbox → Inbox
  added_memory inbox = record {
    events = envelope outside p inbox ∷ inbox.events;
    drawn = inbox.drawn + 1;
    readings = inbox.readings + 1;
  }

  has_own_key :
      (db : Database)
      → has_db_key (db_event_key outside.suffix now p db) (db_envelope outside.suffix now p text db)
        ≡ true
  unfolding has_db_key db_envelope
  has_own_key db = eq_refl (db_event_key outside.suffix now p db)

  row_key :
      (db : Database) (k : String)
      → has_db_key k (db_envelope outside.suffix now p text db)
        ≡ (db_event_key outside.suffix now p db == k)
  unfolding has_db_key db_envelope
  row_key db k = refl

  memory_key :
      (inbox : Inbox) (k : String)
      → has_key k (envelope outside p inbox) ≡ (key_of outside p inbox == k)
  unfolding has_key envelope
  memory_key inbox k = refl

  find_memory_own :
      (inbox : Inbox) (k : String)
      → (key_of outside p inbox == k) ≡ true
      → find (has_key k) (envelope outside p inbox ∷ inbox.events) ≡ some (envelope outside p inbox)
  unfolding find
  find_memory_own inbox k h = rw (memory_key inbox k, h) refl

  find_memory_other :
      (inbox : Inbox) (k : String)
      → (key_of outside p inbox == k) ≡ false
      → find (has_key k) (envelope outside p inbox ∷ inbox.events) ≡ find (has_key k) inbox.events
  unfolding find
  find_memory_other inbox k h = rw (memory_key inbox k, h) refl

  added-Refines :
      (db : Database) (inbox : Inbox)
      → Refines jsonb_text db inbox
      → find (has_db_key (db_event_key outside.suffix now p db)) db.event_inbox ≡ none
      → Refines jsonb_text (added db) (added_memory inbox)
  added-Refines db inbox r f = record {
    events = λ k. elim (Bool-cases (key_of outside p inbox == k)) [
      | inl e ↦
          let key : db_event_key outside.suffix now p db ≡ k =
            (same_key db inbox r.draws).0 ∙ (eq_iff _ k).0 e in
          let gone : find (has_db_key k) db.event_inbox ≡ none =
            subst (λ x. find (has_db_key x) db.event_inbox ≡ none) key f in
          let own : has_db_key k (db_envelope outside.suffix now p text db) ≡ true =
            subst (λ x. has_db_key x (db_envelope outside.suffix now p text db) ≡ true) key
              (has_own_key db) in
          ap (Option.map of_row) (find-added (has_db_key k) db.event_inbox _ gone own)
          ∙ ap some (same_view db inbox r.draws)
          ∙ sym (ap (Option.map (of_memory jsonb_text)) (find_memory_own inbox k e))
      | inr e ↦
          let other : has_db_key k (db_envelope outside.suffix now p text db) ≡ false =
            row_key db k ∙ ap (λ x. x == k) ((same_key db inbox r.draws).0) ∙ e in
          ap (Option.map of_row) (find-add (has_db_key k) db.event_inbox _ other)
          ∙ r.events k
          ∙ sym (ap (Option.map (of_memory jsonb_text)) (find_memory_other inbox k e))
    ];
    draws = ap (λ n. n + 1) r.draws;
  }

  -- what a post answers and leaves, in both modes
  abbrev Agrees : DbPosted × Database → Posted × Inbox → Type 0
  Agrees a b = (reply_of_row a.0 ≡ reply_of_memory jsonb_text b.0) × Refines jsonb_text a.1 b.1

  store-Agrees :
      (db : Database) (inbox : Inbox) (o : Option EventEnvelope)
      → Refines jsonb_text db inbox
      → IsFresh outside now p db
      → find (has_key (key_of outside p inbox)) inbox.events ≡ o
      → Agrees
          (answer_insert outside.suffix now
            (db_event_key outside.suffix now p db)
            db
            (insert_event (db_envelope outside.suffix now p text db) db))
          (store_event outside p inbox o)
  unfolding answer_insert store_event event_db_by_key draw_event_id
  store-Agrees db inbox (some e) r h f =
      let key = (same_key db inbox r.draws).0 in
      let (row, g, same) =
        map-some of_row (find (has_db_key (db_event_key outside.suffix now p db)) db.event_inbox)
          (of_memory jsonb_text e)
          (r.events (db_event_key outside.suffix now p db)
            ∙ ap (λ x. Option.map (of_memory jsonb_text) (find (has_key x) inbox.events)) key
            ∙ ap (Option.map (of_memory jsonb_text)) f) in
      rw (insert_known db row g) (
        answer_known jsonb_text _ row e g same,
        record { events = r.events; draws = ap (λ n. n + 1) r.draws },
      )
  store-Agrees db inbox none r h f =
      let key = (same_key db inbox r.draws).0 in
      let g =
        map-none of_row (find (has_db_key (db_event_key outside.suffix now p db)) db.event_inbox) (
          r.events (db_event_key outside.suffix now p db)
          ∙ ap (λ x. Option.map (of_memory jsonb_text) (find (has_key x) inbox.events)) key
          ∙ ap (Option.map (of_memory jsonb_text)) f) in
      rw (insert_new db g h) (
        answer_stored jsonb_text _ (db_envelope outside.suffix now p text db)
            (envelope outside p inbox)
            (find-added (has_db_key (db_event_key outside.suffix now p db)) db.event_inbox
              (db_envelope outside.suffix now p text db) g (has_own_key db))
            (same_view db inbox r.draws),
        added-Refines db inbox r g,
      )

  -- Where the table and the inbox in memory hold the same events under each key, payloads as jsonb
  -- holds them, as many identifiers were drawn in both modes, the database accepts the payload of a
  -- posted event, and its id is new to the table unless its key is there, both modes answer the event
  -- alike and hold the same events under each key again, payloads as jsonb holds them.
  pub post_db_event-Refines :
      (db : Database) (inbox : Inbox)
      → Refines jsonb_text db inbox
      → IsFresh outside now p db
      → (reply_of_row (post_db_event outside.suffix now jsonb_text p db).0
          ≡ reply_of_memory jsonb_text (post_event outside p inbox).0)
        × Refines jsonb_text
            (post_db_event outside.suffix now jsonb_text p db).1
            (post_event outside p inbox).1
  unfolding post_db_event post_event insert_payload
  post_db_event-Refines db inbox r h = elim (Bool-cases (p.source == "" || p.type == "")) [
    | inl e ↦ rw e (unfold reply_of_row reply_of_memory in refl, r)
    | inr e ↦ rw (e, accepted) (store-Agrees db inbox _ r h refl)
  ]
