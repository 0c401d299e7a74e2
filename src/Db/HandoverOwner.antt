-- ===== src/Db/HandoverOwner.antt =====
-- A handover on the database keeps the owner of each customer in step with its main relation.
-- At most one active main relation, and its guide is the owner.
use jianghu_scrm.Prelude.{
  ℕ, List, Bool, All, String, ◌≡◌, if◌then◌else◌, ◌==◌, ◌≤◌, true, false, ◌++◌, sym, refl, count,
  ◌∷◌, arith, ◌∙◌, [], Bool-cases, subst, eq_iff, count-append, inl, inr, ap, All-append, eq_flip,
  never,
}
use jianghu_scrm.Db.Handover.{
  HandoverTables, is_active_main, StaffRelation, end_relation, OwnedCustomer, new_relation,
  is_customer, hand_to,
}
use jianghu_scrm.Db.Tables.{update_where}
use jianghu_scrm.Models.Crm.{HandoverItem}

pub record IsOwned (relations : List StaffRelation) (c : OwnedCustomer) : Type 0 where
  pub one : count (is_active_main c.id) relations ≤ 1
  pub owner : All (λ r. is_active_main c.id r ≡ true → r.staff_id ≡ c.owner_staff_id) relations

abbrev pub AreOwned : HandoverTables → Type 0
AreOwned db = All (IsOwned db.relations) db.customers

one_more : (b : Bool) → (if b then 1 else 0) ≤ 1
one_more true = omega arith
one_more false = omega arith

ended : (k : String) (now : ℕ) (r : StaffRelation) → is_active_main k (end_relation now r) ≡ false
unfolding is_active_main end_relation
ended k now r = ground arith

main_customer : (k : String) (r : StaffRelation) → is_active_main k r ≡ true → r.customer_id ≡ k
unfolding is_active_main
main_customer k r h = ground (arith, h, eq_iff r.customer_id k)

other_main :
    (k id : String) (r : StaffRelation)
    → (id == k) ≡ false
    → is_active_main id r ≡ true
    → is_active_main k r ≡ false
unfolding is_active_main
other_main k id r d h = let e : r.customer_id ≡ id = main_customer id r h in rw (e, d) refl

module _ (now : ℕ) (id : String) where
  abbrev ended_relations : List StaffRelation → List StaffRelation
  ended_relations rs = update_where (is_active_main id) (end_relation now) rs

  -- the relations of the customer itself
  own_count : (rs : List StaffRelation) → count (is_active_main id) (ended_relations rs) ≡ 0
  unfolding update_where count
  own_count [] = refl
  own_count (r ∷ rs) = elim (Bool-cases (is_active_main id r)) [
    | inl e ↦ rw (e, ended id now r) (omega (arith, own_count rs))
    | inr e ↦ rw (e, e) (omega (arith, own_count rs))
  ]

  own_All :
      (owner : String) (rs : List StaffRelation)
      → All (λ r. is_active_main id r ≡ true → r.staff_id ≡ owner) (ended_relations rs)
  unfolding update_where
  own_All owner [] = tt
  own_All owner (r ∷ rs) = elim (Bool-cases (is_active_main id r)) [
    | inl e ↦ rw e ((λ h. absurd (never _ h (ended id now r))), own_All owner rs)
    | inr e ↦ rw e ((λ h. absurd (never _ h e)), own_All owner rs)
  ]

  -- the relations of another customer
  other_count :
      (k : String) (rs : List StaffRelation)
      → (id == k) ≡ false
      → count (is_active_main k) (ended_relations rs) ≡ count (is_active_main k) rs
  unfolding update_where count
  other_count k [] d = refl
  other_count k (r ∷ rs) d = elim (Bool-cases (is_active_main id r)) [
    | inl e ↦ rw (e, ended k now r, other_main k id r d e) (omega (arith, other_count k rs d))
    | inr e ↦ rw e (omega (arith, other_count k rs d))
  ]

  other_All :
      (k owner : String) (rs : List StaffRelation)
      → All (λ r. is_active_main k r ≡ true → r.staff_id ≡ owner) rs
      → All (λ r. is_active_main k r ≡ true → r.staff_id ≡ owner) (ended_relations rs)
  unfolding update_where
  other_All k owner [] a = tt
  other_All k owner (r ∷ rs) a = elim (Bool-cases (is_active_main id r)) [
    | inl e ↦ rw e ((λ h. absurd (never _ h (ended k now r))), other_All k owner rs a.1)
    | inr e ↦ rw e (a.0, other_All k owner rs a.1)
  ]

module _ (suffix : ℕ → String) (now : ℕ) (store : String) (item : HandoverItem)
    (guide_id guide_name : String) (drawn : ℕ) where
  abbrev handed_relations : List StaffRelation → List StaffRelation
  handed_relations rs =
      ended_relations now item.customer_id rs
      ++ new_relation suffix store item guide_id guide_name drawn ∷ []

  abbrev handed : OwnedCustomer → OwnedCustomer
  handed c = if is_customer item.customer_id c then hand_to now guide_id guide_name c else c

  new_is_main :
      (k : String)
      → is_active_main k (new_relation suffix store item guide_id guide_name drawn)
        ≡ (item.customer_id == k)
  unfolding is_active_main new_relation
  new_is_main k = ground arith

  own-IsOwned :
      (rs : List StaffRelation) (c : OwnedCustomer)
      → c.id ≡ item.customer_id
      → c.owner_staff_id ≡ guide_id
      → IsOwned (handed_relations rs) c
  unfolding count
  own-IsOwned rs c e o = record {
    one =
        subst (λ k. count (is_active_main k) (handed_relations rs) ≤ 1) (sym e)
          (omega (
            arith,
            count-append (is_active_main item.customer_id) (ended_relations now item.customer_id rs)
                (new_relation suffix store item guide_id guide_name drawn ∷ []),
            own_count now item.customer_id rs,
            one_more (
                is_active_main item.customer_id
                  (new_relation suffix store item guide_id guide_name drawn)),
          ));
    owner =
        subst
          (λ k.
            All (λ r. is_active_main k r ≡ true → r.staff_id ≡ c.owner_staff_id)
              (handed_relations rs))
          (sym e)
          (All-append _ _ _ (own_All now item.customer_id c.owner_staff_id rs)
            ((λ _. unfold new_relation in sym o), tt));
  }

  other-IsOwned :
      (rs : List StaffRelation) (c : OwnedCustomer)
      → (item.customer_id == c.id) ≡ false
      → IsOwned rs c
      → IsOwned (handed_relations rs) c
  unfolding count
  other-IsOwned rs c d h =
      let plain : is_active_main c.id (new_relation suffix store item guide_id guide_name drawn)
          ≡ false =
        new_is_main c.id ∙ d in
      record {
        one = omega (
          arith,
          count-append (is_active_main c.id) (ended_relations now item.customer_id rs)
              (new_relation suffix store item guide_id guide_name drawn ∷ []),
          other_count now item.customer_id c.id rs d,
          ap {B = ℕ} (λ b. if b then 1 else 0) plain,
          h.one,
        );
        owner =
            All-append _ _ _ (other_All now item.customer_id c.id c.owner_staff_id rs h.owner)
              ((λ m. absurd (never _ m plain)), tt);
      }

  handed-IsOwned :
      (rs : List StaffRelation) (c : OwnedCustomer)
      → IsOwned rs c
      → IsOwned (handed_relations rs) (handed c)
  unfolding is_customer
  handed-IsOwned rs c h = elim (Bool-cases (c.id == item.customer_id)) [
    | inl e ↦ rw e (
        own-IsOwned rs (hand_to now guide_id guide_name c)
          (unfold hand_to in (eq_iff c.id item.customer_id).0 e) (unfold hand_to in refl))
    | inr e ↦ rw e (other-IsOwned rs c (eq_flip c.id item.customer_id e) h)
  ]

  pub handed-AreOwned :
      (rs : List StaffRelation) (cs : List OwnedCustomer)
      → All (IsOwned rs) cs
      → All
          (IsOwned (handed_relations rs))
          (update_where (is_customer item.customer_id) (hand_to now guide_id guide_name) cs)
  unfolding update_where
  handed-AreOwned rs [] a = tt
  handed-AreOwned rs (c ∷ cs) a = (handed-IsOwned rs c a.0, handed-AreOwned rs cs a.1)
