-- ===== src/Crm/Inbox.antt =====
-- The event inbox in memory: the POST of `eventInboxHandler` of backend/events_tasks.go.
use jianghu_scrm.Prelude.{
  ℕ, ◌+◌, ◌≤◌, String, Bool, false, Option, none, some, List, [], ◌∷◌, ◌≡◌, refl, ◌==◌, ◌||◌, ◌<>◌,
  find, count, arith, eq_iff, eq_refl, inl, inr, Bool-cases, if◌then◌else◌,
}
use jianghu_scrm.Utils.{first_non_empty}
use jianghu_scrm.Models.Queue.{EventEnvelope}
use jianghu_scrm.Crm.Pool.{Outside}

-- The decoded body; an empty raw payload is "".
pub record EventPayload : Type 0 where
  pub id : String
  pub event_id : String
  pub source : String
  pub type : String
  pub object_id : String
  pub idempotency_key : String
  pub payload : String

pub record Inbox : Type 0 where
  pub events : List EventEnvelope
  pub drawn : ℕ
  pub readings : ℕ

pub data Posted : Type 0 where
  rejected : Posted
  duplicate queued : EventEnvelope → Posted

unfoldable pub has_key : String → EventEnvelope → Bool
has_key key e = e.idempotency_key == key

module _ (outside : Outside) where
  -- the identifier of the event; the fallback is drawn in any case
  unfoldable pub event_id_of : EventPayload → Inbox → String
  event_id_of p inbox =
      first_non_empty (p.event_id ∷ p.id ∷ ("evt" <> outside.suffix inbox.drawn) ∷ [])

  unfoldable pub key_of : EventPayload → Inbox → String
  key_of p inbox =
      first_non_empty
        (p.idempotency_key ∷ (p.source <> ":" <> p.type <> ":" <> event_id_of p inbox) ∷ [])

  unfoldable pub envelope : EventPayload → Inbox → EventEnvelope
  envelope p inbox = record {
    id = event_id_of p inbox;
    source = p.source;
    type = p.type;
    object_id = p.object_id;
    idempotency_key = key_of p inbox;
    status = "queued";
    attempts = 0;
    received_at = outside.times inbox.readings;
    processed_at = "";
    payload = if p.payload == "" then "{}" else p.payload;
  }

  unfoldable pub store_event : EventPayload → Inbox → Option EventEnvelope → Posted × Inbox
  store_event p inbox (some e) = (duplicate e, record inbox { drawn = inbox.drawn + 1 })
  store_event p inbox none = (
    queued (envelope p inbox),
    record {
      events = envelope p inbox ∷ inbox.events;
      drawn = inbox.drawn + 1;
      readings = inbox.readings + 1;
    },
  )

  unfoldable pub post_event : EventPayload → Inbox → Posted × Inbox
  post_event p inbox =
      if p.source == "" || p.type == ""
      then (rejected, inbox)
      else store_event p inbox (find (has_key (key_of p inbox)) inbox.events)

-- No two events have the same key.
pub record HasKeysOnce (inbox : Inbox) : Type 0 where
  pub once : (key : String) → count (has_key key) inbox.events ≤ 1

find-none :
    (key : String) (events : List EventEnvelope)
    → find (has_key key) events ≡ none
    → count (has_key key) events ≡ 0
unfolding find count
find-none key [] h = refl
find-none key (e ∷ rest) h = elim (Bool-cases (has_key key e)) [
  | inl k ↦ ground (arith, h, k)
  | inr k ↦ rw k (omega (arith, find-none key rest (rw k at h)))
]

module _ (outside : Outside) (p : EventPayload) where
  new_once :
      (inbox : Inbox) (key : String)
      → find (has_key (key_of outside p inbox)) inbox.events ≡ none
      → HasKeysOnce inbox
      → count (has_key key) (envelope outside p inbox ∷ inbox.events) ≤ 1
  unfolding count has_key envelope
  new_once inbox key f h = ground (
    arith,
    h.once key,
    find-none (key_of outside p inbox) inbox.events f,
    eq_iff (key_of outside p inbox) key,
  )

  store_event-HasKeysOnce :
      (inbox : Inbox) (o : Option EventEnvelope)
      → find (has_key (key_of outside p inbox)) inbox.events ≡ o
      → HasKeysOnce inbox
      → HasKeysOnce (store_event outside p inbox o).1
  unfolding store_event
  store_event-HasKeysOnce inbox (some e) f h = record { once = h.once }
  store_event-HasKeysOnce inbox none f h = record { once = λ key. new_once inbox key f h }

  -- Where no two events of the inbox have the same idempotency key, that is still so after any event
  -- is posted.
  pub post_event-HasKeysOnce :
      (inbox : Inbox) → HasKeysOnce inbox → HasKeysOnce (post_event outside p inbox).1
  unfolding post_event
  post_event-HasKeysOnce inbox h = elim (Bool-cases (p.source == "" || p.type == "")) [
    | inl e ↦ rw e h
    | inr e ↦ rw e (store_event-HasKeysOnce inbox _ refl h)
  ]

  given_key :
      (inbox : Inbox)
      → (p.idempotency_key == "") ≡ false
      → key_of outside p inbox ≡ p.idempotency_key
  unfolding key_of first_non_empty
  given_key inbox h = rw h

  -- what a search by the given key finds after the first post
  there :
      (inbox : Inbox) (o : Option EventEnvelope)
      → (p.idempotency_key == "") ≡ false
      → find (has_key p.idempotency_key) inbox.events ≡ o
      → (e : EventEnvelope) × (find
            (has_key p.idempotency_key)
            (store_event outside p inbox o).1.events
          ≡ some e)
  unfolding store_event find has_key envelope
  there inbox (some e) h f = (e, f)
  there inbox none h f =
      (envelope outside p inbox, rw (given_key inbox h, eq_refl p.idempotency_key))

  kept :
      (inbox : Inbox) (e : EventEnvelope)
      → find (has_key p.idempotency_key) inbox.events ≡ some e
      → (store_event outside p inbox (find (has_key p.idempotency_key) inbox.events)).1.events
        ≡ inbox.events
  unfolding store_event
  kept inbox e f = rw f

  -- An event with an idempotency key that is posted twice is stored once: the second post leaves the
  -- events as the first one left them.
  pub post_event-again :
      (inbox : Inbox)
      → (p.idempotency_key == "") ≡ false
      → (post_event outside p (post_event outside p inbox).1).1.events
        ≡ (post_event outside p inbox).1.events
  unfolding post_event
  post_event-again inbox h = elim (Bool-cases (p.source == "" || p.type == "")) [
    | inl e ↦ rw e
    | inr e ↦
        let after =
          (store_event outside p inbox (find (has_key p.idempotency_key) inbox.events)).1 in
        let (found, f) = there inbox _ h refl in
        rw e (rw (given_key inbox h) (rw (given_key after h) (kept after found f)))
  ]
