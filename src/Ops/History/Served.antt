-- ===== src/Ops/History/Served.antt =====
-- The lifecycle logs over a request about a customer.
use jianghu_scrm.Prelude.{
  String, Option, none, some, List, [], ◌∷◌, refl, if◌then◌else◌, ◌≡◌, not, ◌==◌,
}
use jianghu_scrm.Models.OpsCustomers.{OpsCustomer, OpsCustomerTag}
use jianghu_scrm.Ops.State.{World, Ops, OpsState, ◌>>=◌, pure}
use jianghu_scrm.Ops.Ensures.{
  Ensures, Ensures-pure, Ensures-if, Ensures-bind, Keeps, Keeps-modify, keeps_rules, Keeps-pure,
}
use jianghu_scrm.Ops.Http.{Reply, Decoder, decoded, or_not_found, err_not_found, is_patch, is_post}
use jianghu_scrm.Ops.Access.{Request, can_access_ops_customer}
use jianghu_scrm.Ops.Tags.{
  ensure_ops_tag, add_ops_tag_to_customer, remove_ops_tag_from_customer, link_tag, add_tag,
  or_found,
}
use jianghu_scrm.Ops.History.{IsLogged}
use jianghu_scrm.Ops.History.Frame.{stages, stages_rules}
use jianghu_scrm.Ops.History.Change.{Stays, change_ops_customer_stage-Stays}
use jianghu_scrm.Ops.History.Handled.{Logged-frame, add_ops_followup-IsLogged, find-IsCurrent}
use jianghu_scrm.Ops.Handlers.Customer.{
  CustomerBody, show_detail, stage_action, add_tag_action, remove_tag_action, tags_action,
  followup_action, timeline_action, customer_action, ops_customer_action_handler,
}
use jianghu_scrm.Ops.Find.{find_ops_customer}

module _ {A B : Type 0} {P : OpsState → Type 0} {Q : Reply B → OpsState → Type 0} where
  pub Ensures-decoded :
      (o : Option A) (k : A → Ops (Reply B))
      → ((r : Reply B) (s : OpsState) → P s → Q r s)
      → ((a : A) → Ensures P (k a) Q)
      → Ensures P (decoded o k) Q
  unfolding decoded
  Ensures-decoded none k weak h = record { at = λ s p. weak _ s p }
  Ensures-decoded (some a) k weak h = h a

module _ {A B : Type 0} where
  pub Keeps-decoded :
      (o : Option A) (k : A → Ops (Reply B))
      → ((a : A) → Keeps stages (k a))
      → Keeps stages (decoded o k)
  unfolding decoded
  Keeps-decoded none k h = search keeps_rules
  Keeps-decoded (some a) k h = h a

  pub Keeps-or_not_found :
      (o : Option A) (k : A → Ops (Reply B))
      → ((a : A) → Keeps stages (k a))
      → Keeps stages (or_not_found o k)
  unfolding or_not_found
  Keeps-or_not_found none k h = search keeps_rules
  Keeps-or_not_found (some a) k h = h a

or_found-stages :
    (o : Option OpsCustomerTag) (m : Ops OpsCustomerTag)
    → Keeps stages m
    → Keeps stages (or_found o m)
unfolding or_found
or_found-stages none m k = k
or_found-stages (some t) m k = search keeps_rules

module _ (world : World) where
  add_tag-stages : (a b c : String) → Keeps stages (add_tag world a b c)
  unfolding add_tag ◌>>=◌
  add_tag-stages a b c = record { at = λ s. refl }

  ensure_ops_tag-stages : (a b c d : String) → Keeps stages (ensure_ops_tag world a b c d)
  unfolding ensure_ops_tag
  ensure_ops_tag-stages a b c d = search (keeps_rules, or_found-stages, add_tag-stages)

  link_tag-stages : (a b c d e : String) → Keeps stages (link_tag world a b c d e)
  unfolding link_tag
  link_tag-stages a b c d e = search (stages_rules, Keeps-modify)

  add_ops_tag_to_customer-stages :
      (a b c d e : String) → Keeps stages (add_ops_tag_to_customer world a b c d e)
  unfolding add_ops_tag_to_customer
  add_ops_tag_to_customer-stages a b c d e = search (keeps_rules, link_tag-stages)

remove_ops_tag_from_customer-stages :
    (a b : String) → Keeps stages (remove_ops_tag_from_customer a b)
unfolding remove_ops_tag_from_customer
remove_ops_tag_from_customer-stages a b = Keeps-modify _ (λ s. refl)

show_detail-stages : (c : OpsCustomer) → Keeps stages (show_detail c)
unfolding show_detail
show_detail-stages c = search keeps_rules

-- An operation that starts from a current customer and keeps the logs in step.
abbrev pub KeepsLogs : {A : Type 0} → OpsCustomer → Ops A → Type 0
KeepsLogs c m = Ensures (Stays c) m (λ _. IsLogged)

quiet : {A : Type 0} {m : Ops A} (c : OpsCustomer) → Keeps stages m → KeepsLogs c m
quiet {A} {m} c k = record { at = λ s h. (Logged-frame m k).at s h.1 }

module _ (world : World) (json : Decoder) (r : Request) (c : OpsCustomer) where
  refused : (reply : Reply CustomerBody) → KeepsLogs c (pure reply)
  refused reply = quiet c (Keeps-pure reply)

  stage_action-IsLogged : KeepsLogs c (stage_action world json r c)
  unfolding stage_action
  stage_action-IsLogged =
      Ensures-if (not (is_patch r.method)) _ _ (λ _. refused _)
        λ _.
          Ensures-decoded _ _ (λ _ s h. h.1)
            λ p.
              Ensures-if (p.stage == "") _ _ (λ _. refused _)
                λ _.
                  Ensures-bind (change_ops_customer_stage-Stays world c _ _ _ _)
                    λ d. quiet d (show_detail-stages d)

  tags_action-IsLogged : (parts : List String) → KeepsLogs c (tags_action world json r c parts)
  unfolding tags_action add_tag_action remove_tag_action
  tags_action-IsLogged [] = quiet c (
      search (
        keeps_rules, Keeps-decoded, ensure_ops_tag-stages, add_ops_tag_to_customer-stages,
        show_detail-stages,
      ))
  tags_action-IsLogged (tag_id ∷ []) =
      quiet c (search (stages_rules, remove_ops_tag_from_customer-stages, show_detail-stages))
  tags_action-IsLogged (_ ∷ _ ∷ _) = quiet c (search keeps_rules)

  followup_action-IsLogged : KeepsLogs c (followup_action world json r c)
  unfolding followup_action
  followup_action-IsLogged =
      Ensures-if (not (is_post r.method)) _ _ (λ _. refused _)
        λ _.
          Ensures-decoded _ _ (λ _ s h. h.1)
            λ p. Ensures-bind (add_ops_followup-IsLogged world c p) λ row. Ensures-pure _ (λ s h. h)

  timeline_action-IsLogged : KeepsLogs c (timeline_action world json r c)
  unfolding timeline_action
  timeline_action-IsLogged = quiet c (search keeps_rules)

  customer_action-IsLogged :
      (parts : List String) → KeepsLogs c (customer_action world json r c parts)
  unfolding customer_action
  customer_action-IsLogged [] = quiet c (search (keeps_rules, show_detail-stages))
  customer_action-IsLogged (part ∷ parts) =
      Ensures-if (part == "stage") _ _ (λ _. stage_action-IsLogged)
        λ _.
          Ensures-if (part == "tags") _ _ (λ _. tags_action-IsLogged parts)
            λ _.
              Ensures-if (part == "follow-ups") _ _ (λ _. followup_action-IsLogged)
                λ _.
                  Ensures-if (part == "timeline") _ _ (λ _. timeline_action-IsLogged) λ _. refused _

module _ (world : World) (json : Decoder) (r : Request) where
  found_customer :
      (o : Option OpsCustomer) (k : OpsCustomer → Ops (Reply CustomerBody)) (s : OpsState)
      (id : String)
      → find_ops_customer id s ≡ o
      → IsLogged s
      → ((c : OpsCustomer) → KeepsLogs c (k c))
      → IsLogged (or_not_found o k s).1
  unfolding or_not_found pure
  found_customer none k s id e h keeps = h
  found_customer (some c) k s id e h keeps = (keeps c).at s (find-IsCurrent id c s e, h)

  allowed :
      (parts : List String) (c : OpsCustomer)
      → KeepsLogs c (
          if can_access_ops_customer r c
          then customer_action world json r c parts
          else pure err_not_found)
  allowed parts c =
      Ensures-if (can_access_ops_customer r c) _ _
        (λ _. customer_action-IsLogged world json r c parts) λ _. refused world json r c _

  pub ops_customer_action_handler-IsLogged :
      (id : String) (parts : List String) (s : OpsState)
      → IsLogged s
      → IsLogged (ops_customer_action_handler world json r id parts s).1
  unfolding ops_customer_action_handler ◌>>=◌
  ops_customer_action_handler-IsLogged id parts s h =
      found_customer (find_ops_customer id s) _ s id refl h (allowed parts)
