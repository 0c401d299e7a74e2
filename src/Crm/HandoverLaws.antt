-- ===== src/Crm/HandoverLaws.antt =====
-- What a submission of a handover in memory does to the customers.
use mathlib.Core.List.{map-map}
use jianghu_scrm.Models.Crm.{Customer, HandoverItem, Relation}
use jianghu_scrm.Prelude.{
  List, String, ◌≡◌, Bool, map, Option, none, some, ◌∷◌, if◌then◌else◌, ap, [], ◌==◌, sym, refl,
  true, ◌&&◌, false, Bool-cases, ◌∙◌, not, inl, inr,
}
use jianghu_scrm.Crm.Pool.{Outside, Pool, prepend_audit, tick}
use jianghu_scrm.Crm.Handover.{
  hand_customers, submit_handover, hand_items, hand_customer, closed, Desk, is_for, is_refused,
  hand_item,
}
use jianghu_scrm.Ops.Http.{Reply}

-- The last item for a customer.
abbrev pub or_this : String → HandoverItem → Option HandoverItem → Option HandoverItem
or_this id item (some later) = some later
or_this id item none =
    if id == item.customer_id && not (item.receiver == "") then some item else none

abbrev pub last_for : String → List HandoverItem → Option HandoverItem
last_for id [] = none
last_for id (item ∷ rest) = or_this id item (last_for id rest)

abbrev pub receiver_or : String → Option HandoverItem → String
receiver_or owner none = owner
receiver_or owner (some item) = item.receiver

-- The part of a customer that the claim is about.
pub record Follow : Type 0 where
  pub id : String
  pub owner : String
  pub relations : List Relation

abbrev pub follow_of : Customer → Follow
follow_of c = record { id = c.id; owner = c.owner; relations = c.relations }

abbrev pub given_to : List HandoverItem → Follow → Follow
given_to items f = record f { owner = receiver_or f.owner (last_for f.id items) }

if_true : {A : Type 0} (b : Bool) (x y : A) → b ≡ true → (if b then x else y) ≡ x
if_true true x y e = refl
if_true false x y e = absurd (cc)

map-cong : {A : Type 0} (f g : A → A) → ((x : A) → f x ≡ g x) → (xs : List A) → map f xs ≡ map g xs
map-cong f g e [] = refl
map-cong f g e (x ∷ xs) = rw (e x, map-cong f g e xs) refl

map-same : {A : Type 0} (f : A → A) → ((x : A) → f x ≡ x) → (xs : List A) → map f xs ≡ xs
map-same f e [] = refl
map-same f e (x ∷ xs) = rw (e x, map-same f e xs) refl

-- An item, and then the rest of the items.
last_owner :
    (f : Follow) (item : HandoverItem) (o : Option HandoverItem)
    → receiver_or (receiver_or f.owner (or_this f.id item none)) o
      ≡ receiver_or f.owner (or_this f.id item o)
last_owner f item none = refl
last_owner f item (some later) = refl

step :
    (item : HandoverItem) (rest : List HandoverItem) (f : Follow)
    → given_to rest (given_to (item ∷ []) f) ≡ given_to (item ∷ rest) f
step item rest f = ap (λ o. record f { owner = o }) (last_owner f item (last_for f.id rest))

-- The items before the first refused one.
abbrev pub before_refusal : (String → String → Bool) → List HandoverItem → List HandoverItem
before_refusal text_contains [] = []
before_refusal text_contains (item ∷ rest) =
    let more = before_refusal text_contains rest in
    if is_refused text_contains item then [] else item ∷ more

module _ (outside : Outside) where
  hand_customers-follow :
      (item : HandoverItem) (cs : List Customer) (pool : Pool)
      → map follow_of (hand_customers outside item cs pool).0
        ≡ map (given_to (item ∷ [])) (map follow_of cs)
  unfolding hand_customers hand_customer prepend_audit is_for
  hand_customers-follow item [] pool = refl
  hand_customers-follow item (c ∷ cs) pool =
      elim (Bool-cases (c.id == item.customer_id && not (item.receiver == ""))) [
        | inl e ↦ rw e (
            ap (λ ps. record { id = c.id; owner = item.receiver; relations = c.relations } ∷ ps)
              (hand_customers-follow item cs (tick pool)))
        | inr e ↦ rw e (ap (λ ps. follow_of c ∷ ps) (hand_customers-follow item cs pool))
      ]

  module _ (text_contains : String → String → Bool) where
    hand_items-follow :
        (items : List HandoverItem) (pool : Pool)
        → map follow_of (hand_items outside text_contains items pool).1.customers
          ≡ map (given_to (before_refusal text_contains items)) (map follow_of pool.customers)
    unfolding hand_items
    hand_items-follow [] pool =
        sym (map-same (given_to []) (λ p. refl) (map follow_of pool.customers))
    hand_items-follow (item ∷ rest) pool = elim (Bool-cases (is_refused text_contains item)) [
      | inl e ↦ rw e (sym (map-same (given_to []) (λ p. refl) (map follow_of pool.customers)))
      | inr e ↦ rw e (
          hand_items-follow rest (hand_item outside item pool)
          ∙ (unfold hand_item in
              ap (map (given_to (before_refusal text_contains rest)))
                (hand_customers-follow item pool.customers pool))
          ∙ map-map (given_to (before_refusal text_contains rest)) (given_to (item ∷ []))
              (map follow_of pool.customers)
          ∙ map-cong _ _ (step item (before_refusal text_contains rest))
              (map follow_of pool.customers))
    ]

    closed-pool :
        (desk : Desk) (r : Bool × Pool) → (closed outside text_contains desk r).1.pool ≡ r.1
    unfolding closed
    closed-pool desk (true, pool) = refl
    closed-pool desk (false, pool) = refl

    -- Once the handovers were synchronised, a submission in memory gives each customer to the receiver
    -- of the last item for it, among the items before the first one that is refused, and leaves the
    -- guide relations of every customer.
    pub submit_handover-follow :
        (items : List HandoverItem) (desk : Desk)
        → desk.wecom_synced ≡ true
        → map follow_of (submit_handover outside text_contains (some items) desk).1.pool.customers
          ≡ map
              (λ c. given_to (before_refusal text_contains items) (follow_of c))
              desk.pool.customers
    unfolding submit_handover
    submit_handover-follow items desk synced =
        ap {A = Reply (List HandoverItem) × Desk} (λ r. map follow_of r.1.pool.customers)
          (if_true _ _ _ synced)
        ∙ ap (λ pool. map follow_of pool.customers)
            (closed-pool desk (hand_items outside text_contains items desk.pool))
        ∙ hand_items-follow items desk.pool
        ∙ map-map (given_to (before_refusal text_contains items)) follow_of desk.pool.customers
