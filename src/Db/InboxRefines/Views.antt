-- ===== src/Db/InboxRefines/Views.antt =====
-- What both modes show of an event and of an answer.
use mathlib.Core.Option
use jianghu_scrm.Prelude.{
  Bool, String, Option, find, any, List, ◌≡◌, none, false, some, ◌++◌, true, ◌∷◌, Bool-cases, [],
  refl, inl, inr, ◌∙◌, ap,
}
use jianghu_scrm.Db.Inbox.{DbPosted, has_db_key, answer_duplicate, answer_queued}
use jianghu_scrm.Models.Queue.{EventEnvelope}
use jianghu_scrm.Db.Tables.{DbEvent, Database}
use jianghu_scrm.Crm.Inbox.{Posted, Inbox, has_key}

-- What both modes store of an event, the payload as jsonb holds it; the times are left out.
pub record EventView : Type 0 where
  pub id : String
  pub source : String
  pub type : String
  pub object_id : String
  pub key : String
  pub status : String
  pub payload : Option String

unfoldable pub of_row : DbEvent → EventView
of_row e = record {
  id = e.id;
  source = e.source;
  type = e.event_type;
  object_id = e.object_id;
  key = e.idempotency_key;
  status = e.status;
  payload = some e.payload;
}

unfoldable pub of_memory : (String → Option String) → EventEnvelope → EventView
of_memory jsonb_text e = record {
  id = e.id;
  source = e.source;
  type = e.type;
  object_id = e.object_id;
  key = e.idempotency_key;
  status = e.status;
  payload = jsonb_text e.payload;
}

pub data ReplyView : Type 0 where
  refused error : ReplyView
  known stored : EventView → ReplyView

unfoldable pub reply_of_row : DbPosted → ReplyView
unfolding of_row
reply_of_row DbPosted.rejected = refused
reply_of_row DbPosted.failed = error
reply_of_row (DbPosted.duplicate e) = known (of_row e)
reply_of_row (DbPosted.queued e) = stored (of_row e)

unfoldable pub reply_of_memory : (String → Option String) → Posted → ReplyView
unfolding of_memory
reply_of_memory jsonb_text Posted.rejected = refused
reply_of_memory jsonb_text (Posted.duplicate e) = known (of_memory jsonb_text e)
reply_of_memory jsonb_text (Posted.queued e) = stored (of_memory jsonb_text e)

-- The table and the inbox hold the same events under each key, and as many identifiers were drawn.
pub record Refines (jsonb_text : String → Option String) (db : Database) (inbox : Inbox)
    : Type 0 where
  pub events :
      (k : String)
      → Option.map of_row (find (has_db_key k) db.event_inbox)
        ≡ Option.map (of_memory jsonb_text) (find (has_key k) inbox.events)
  pub draws : db.drawn ≡ inbox.drawn

module _ {A : Type 0} (p : A → Bool) where
  pub any_of_none : (xs : List A) → find p xs ≡ none → any p xs ≡ false
  unfolding find any
  any_of_none [] f = refl
  any_of_none (x ∷ xs) f = elim (Bool-cases (p x)) [
    | inl e ↦ let found : some x ≡ none = rw e at f in absurd (cc)
    | inr e ↦ rw e (any_of_none xs (rw e at f))
  ]

  pub any_of_some : (xs : List A) (a : A) → find p xs ≡ some a → any p xs ≡ true
  unfolding find any
  any_of_some [] a f = absurd (cc)
  any_of_some (x ∷ xs) a f = elim (Bool-cases (p x)) [
    | inl e ↦ rw e refl
    | inr e ↦ rw e (any_of_some xs a (rw e at f))
  ]

  pub find-add : (xs : List A) (a : A) → p a ≡ false → find p (xs ++ a ∷ []) ≡ find p xs
  unfolding find
  find-add [] a h = rw h refl
  find-add (x ∷ xs) a h = elim (Bool-cases (p x)) [
    | inl e ↦ rw e refl
    | inr e ↦ rw e (find-add xs a h)
  ]

  pub find-added :
      (xs : List A) (a : A) → find p xs ≡ none → p a ≡ true → find p (xs ++ a ∷ []) ≡ some a
  unfolding find
  find-added [] a f h = rw h refl
  find-added (x ∷ xs) a f h = elim (Bool-cases (p x)) [
    | inl e ↦ let found : some x ≡ none = rw e at f in absurd (cc)
    | inr e ↦ rw e (find-added xs a (rw e at f) h)
  ]

pub map-none : {A B : Type 0} (f : A → B) (o : Option A) → Option.map f o ≡ none → o ≡ none
map-none f none h = refl
map-none f (some a) h = absurd (cc)

pub map-some :
    {A B : Type 0} (f : A → B) (o : Option A) (b : B)
    → Option.map f o ≡ some b
    → (a : A) × (o ≡ some a) × (f a ≡ b)
map-some f none b h = absurd (cc)
map-some f (some a) b h = (a, refl, cc)

pub answer_known :
    (jsonb_text : String → Option String) (o : Option DbEvent) (e : DbEvent) (m : EventEnvelope)
    → o ≡ some e
    → of_row e ≡ of_memory jsonb_text m
    → reply_of_row (answer_duplicate o) ≡ reply_of_memory jsonb_text (Posted.duplicate m)
unfolding answer_duplicate reply_of_row reply_of_memory
answer_known jsonb_text none e m f v = absurd (cc)
answer_known jsonb_text (some x) e m f v = ap known (let same : x ≡ e = cc in ap of_row same ∙ v)

pub answer_stored :
    (jsonb_text : String → Option String) (o : Option DbEvent) (e : DbEvent) (m : EventEnvelope)
    → o ≡ some e
    → of_row e ≡ of_memory jsonb_text m
    → reply_of_row (answer_queued o) ≡ reply_of_memory jsonb_text (Posted.queued m)
unfolding answer_queued reply_of_row reply_of_memory
answer_stored jsonb_text none e m f v = absurd (cc)
answer_stored jsonb_text (some x) e m f v = ap stored (let same : x ≡ e = cc in ap of_row same ∙ v)
