-- ===== src/Crm/Relations.antt =====
-- The main guide of a customer.
use jianghu_scrm.Prelude.{
  ◌≤◌, String, Bool, true, false, not, Option, none, some, List, [], ◌∷◌, ◌++◌, map, ◌≡◌, refl, ◌∙◌,
  ◌==◌, ◌||◌, count, count-append, all, find, update_first, find-update_first, find-key, arith,
  eq_refl, inl, inr, Bool-cases, if◌then◌else◌, ◌⊎◌,
}
use jianghu_scrm.Models.Crm.{Customer, Relation}
use jianghu_scrm.Crm.Pool.{Outside, Pool, find_customer, put_customer, tick, prepend_audit}
use jianghu_scrm.Crm.Actions.{
  Bodies, Answer, saved, set_main, not_main, customer_action_handler, relation_verb, add_relation,
  set_main_action, end_action, on_found, customer_relation_action, relations_verb, customer_verb,
  add_relation_action, touch_action, followup_note_action, lead_action, order_action,
}

unfoldable pub is_main : Relation → Bool
is_main r = r.main

-- the guide of a main relation is the customer's owner
unfoldable pub owned_by : String → Relation → Bool
owned_by owner r = not r.main || r.guide == owner

-- At most one relation is the main one, and its guide owns the customer.
pub record IsLed (owner : String) (relations : List Relation) : Type 0 where
  pub one : count is_main relations ≤ 1
  pub owns : all (owned_by owner) relations ≡ true

cleared-count : (rs : List Relation) → count is_main (map not_main rs) ≡ 0
unfolding count is_main not_main
cleared-count [] = refl
cleared-count (r ∷ rs) = omega (arith, cleared-count rs)

cleared-owned :
    (owner : String) (rs : List Relation) → all (owned_by owner) (map not_main rs) ≡ true
unfolding all owned_by not_main
cleared-owned owner [] = refl
cleared-owned owner (r ∷ rs) = cleared-owned owner rs

abbrev chosen : Relation → Relation
chosen r = record r { main = true }

abbrev picked : String → List Relation → List Relation
picked id rs = update_first (λ r. r.id == id) chosen (map not_main rs)

picked-count :
    (id : String) (rs : List Relation) (r : Relation)
    → find (λ x. x.id == id) rs ≡ some r
    → count is_main (picked id rs) ≡ 1
unfolding find update_first count is_main not_main
picked-count id [] r f = cc
picked-count id (x ∷ rs) r f = elim (Bool-cases (x.id == id)) [
  | inl e ↦ rw e (omega (arith, cleared-count rs))
  | inr e ↦ rw e (omega (arith, picked-count id rs r (rw e at f)))
]

picked-owned :
    (id : String) (rs : List Relation) (r : Relation)
    → find (λ x. x.id == id) rs ≡ some r
    → all (owned_by r.guide) (picked id rs) ≡ true
unfolding find update_first all owned_by not_main
picked-owned id [] r f = cc
picked-owned id (x ∷ rs) r f = elim (Bool-cases (x.id == id)) [
  | inl e ↦ rw e (ground (arith, cleared-owned r.guide rs, f, eq_refl r.guide))
  | inr e ↦ rw e (picked-owned id rs r (rw e at f))
]

-- Setting a relation of the customer as the main one leaves exactly one main relation, and its guide
-- is the one of the relation that was set.
pub set_main-main :
    (id : String) (rs : List Relation) (r : Relation)
    → find (λ x. x.id == id) rs ≡ some r
    → (count is_main (set_main id rs) ≡ 1) × (all (owned_by r.guide) (set_main id rs) ≡ true)
unfolding set_main
set_main-main id rs r f = (picked-count id rs r f, picked-owned id rs r f)

added-owned :
    (owner : String) (rs : List Relation) (r : Relation)
    → r.main ≡ false
    → all (owned_by owner) rs ≡ true
    → all (owned_by owner) (rs ++ r ∷ []) ≡ true
unfolding all owned_by
added-owned owner [] r e h = rw e
added-owned owner (x ∷ rs) r e h = ground (arith, added-owned owner rs r e)

module _ (id day : String) where
  abbrev ended : Relation → Relation
  ended r = record r { ended_at = day }

  ended-count :
      (rs : List Relation)
      → count is_main (update_first (λ r. r.id == id) ended rs) ≡ count is_main rs
  unfolding update_first count is_main
  ended-count [] = refl
  ended-count (r ∷ rs) = ground (arith, ended-count rs)

  ended-owned :
      (owner : String) (rs : List Relation)
      → all (owned_by owner) (update_first (λ r. r.id == id) ended rs) ≡ all (owned_by owner) rs
  unfolding update_first all owned_by
  ended-owned owner [] = refl
  ended-owned owner (r ∷ rs) = ground (arith, ended-owned owner rs)

-- Every customer that a search finds is led by one guide at most, its owner.
pub record AreLed (pool : Pool) : Type 0 where
  pub at : (id : String) (c : Customer) → find_customer id pool ≡ some c → IsLed c.owner c.relations

put_cases :
    (d x : Customer) (id : String) (pool : Pool)
    → find_customer id (put_customer d (tick pool)) ≡ some x
    → (x ≡ d) ⊎ (find_customer id pool ≡ some x)
unfolding find_customer put_customer tick
put_cases d x id pool f = ground (arith, find-update_first (λ y. y.id) d id pool.customers, f)

saved-AreLed :
    (d : Customer) (pool : Pool) → AreLed pool → IsLed d.owner d.relations → AreLed (saved pool d).1
unfolding saved
saved-AreLed d pool h led = record {
  at = λ id x f. elim (put_cases d x id pool f) [ inl e ↦ rw e led | inr old ↦ h.at id x old ];
}

AreLed-of_same : (p q : Pool) → q.customers ≡ p.customers → AreLed p → AreLed q
unfolding find_customer
AreLed-of_same p q e h = record { at = λ id c f. h.at id c (rw e at f) }

added-IsLed :
    (owner : String) (rs : List Relation) (r : Relation)
    → r.main ≡ false
    → IsLed owner rs
    → IsLed owner (rs ++ r ∷ [])
unfolding count is_main
added-IsLed owner rs r e h = record {
  one = ground (arith, count-append is_main rs (r ∷ []), h.one, e);
  owns = added-owned owner rs r e h.owns;
}

ended-IsLed :
    (owner id day : String) (rs : List Relation)
    → IsLed owner rs
    → IsLed owner (update_first (λ r. r.id == id) (λ r. record r { ended_at = day }) rs)
ended-IsLed owner id day rs h = record {
  one = rw (ended-count id day rs) h.one;
  owns = ended-owned id day owner rs ∙ h.owns;
}

set-IsLed :
    (id : String) (rs : List Relation) (r : Relation)
    → find (λ x. x.id == id) rs ≡ some r
    → IsLed r.guide (set_main r.id rs)
set-IsLed id rs r f =
    let (one, owns) = set_main-main r.id rs r (simp (find-key (λ x. x.id) id rs f) f) in
    record { one = omega (arith, one); owns = owns }

module _ (outside : Outside) (pool : Pool) (c : Customer) (h : AreLed pool)
    (led : IsLed c.owner c.relations) where
  add_relation-AreLed :
      (guide_id guide : String) → AreLed (add_relation outside pool c guide_id guide).1
  unfolding add_relation prepend_audit
  add_relation-AreLed guide_id guide = elim (Bool-cases (guide == "")) [
    | inl e ↦ rw e h
    | inr e ↦ rw e (
        saved-AreLed _ _ (AreLed-of_same pool _ refl h)
          (added-IsLed c.owner c.relations _ refl led))
  ]

  relations_action-AreLed :
      (id action : String) (o : Option Relation)
      → find (λ r. r.id == id) c.relations ≡ o
      → AreLed (relation_verb outside pool c action o).1
  unfolding relation_verb set_main_action end_action prepend_audit
  relations_action-AreLed id action none f = h
  relations_action-AreLed id action (some r) f = elim (Bool-cases (action == "set-main")) [
    | inl e ↦ rw e (elim (Bool-cases r.main) [
      | inl m ↦ rw m h
      | inr m ↦ rw m (saved-AreLed _ pool h (set-IsLed id c.relations r f))
    ])
    | inr e ↦ rw e (elim (Bool-cases (action == "end")) [
      | inl d ↦ rw d (elim (Bool-cases r.main) [
        | inl m ↦ rw m h
        | inr m ↦ rw m (
            saved-AreLed _ _ (AreLed-of_same pool _ refl h)
              (ended-IsLed c.owner r.id _ c.relations led))
      ])
      | inr d ↦ rw d h
    ])
  ]

  customer_relation_action-AreLed :
      (parts : List String) → AreLed (customer_relation_action outside pool c parts).1
  unfolding customer_relation_action
  customer_relation_action-AreLed [] = h
  customer_relation_action-AreLed (_ ∷ []) = h
  customer_relation_action-AreLed (id ∷ action ∷ _) = relations_action-AreLed id action _ refl

  added-AreLed : (o : Option (String × String)) → AreLed (add_relation_action outside pool c o).1
  unfolding add_relation_action
  added-AreLed none = h
  added-AreLed (some (guide_id, guide)) = add_relation-AreLed guide_id guide

  relations_verb-AreLed :
      (bodies : Bodies) (body : String) (parts : List String)
      → AreLed (relations_verb outside bodies body pool c parts).1
  unfolding relations_verb
  relations_verb-AreLed bodies body [] = added-AreLed (bodies.relation body)
  relations_verb-AreLed bodies body (x ∷ xs) = customer_relation_action-AreLed (x ∷ xs)

  -- a branch of the handler
  branch : (b : Bool) (m n : Answer) → AreLed m.1 → AreLed n.1 → AreLed (if b then m else n).1
  branch true m n x y = x
  branch false m n x y = y

  customer_verb-AreLed :
      (bodies : Bodies) (body : String) (parts : List String)
      → AreLed (customer_verb outside bodies body pool c parts).1
  unfolding customer_verb touch_action followup_note_action lead_action order_action prepend_audit
  customer_verb-AreLed bodies body [] = h
  customer_verb-AreLed bodies body (part ∷ parts) =
      branch (part == "touch") _ _ (saved-AreLed _ pool h led) (
        branch (part == "followups") _ _ (saved-AreLed _ pool h led) (
          branch (part == "relations") _ _ (relations_verb-AreLed bodies body parts) (
            branch (part == "lead") _ _ (saved-AreLed _ pool h led)
              (branch (part == "order") _ _ (saved-AreLed _ pool h led) h))))

on_found-AreLed :
    (outside : Outside) (bodies : Bodies) (body : String) (parts : List String) (pool : Pool)
    (id : String) (o : Option Customer)
    → find_customer id pool ≡ o
    → AreLed pool
    → AreLed (on_found outside bodies body pool parts o).1
unfolding on_found
on_found-AreLed outside bodies body parts pool id none f h = h
on_found-AreLed outside bodies body parts pool id (some c) f h =
    customer_verb-AreLed outside pool c h (h.at id c f) bodies body parts

-- Where every customer has at most one main relation, whose guide is the customer's owner, that is
-- still so after any request to the actions of a customer.
pub customer_action_handler-AreLed :
    (outside : Outside) (bodies : Bodies) (body id : String) (parts : List String) (pool : Pool)
    → AreLed pool
    → AreLed (customer_action_handler outside bodies body id parts pool).1
unfolding customer_action_handler
customer_action_handler-AreLed outside bodies body id parts pool h =
    on_found-AreLed outside bodies body parts pool id _ refl h
