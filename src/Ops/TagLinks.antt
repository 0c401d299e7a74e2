-- ===== src/Ops/TagLinks.antt =====
-- What adding and removing a tag does to the tag links.
use jianghu_scrm.Prelude.{
  count-append, ℕ, ◌≤◌, String, Bool, false, List, [], ◌∷◌, ◌++◌, ◌≡◌, refl, any, count, arith,
  ◌<>◌, ◌+◌, not, if◌then◌else◌, ◌&&◌, ◌==◌, true, ap, eq_iff, ◌∙◌, count-append, eq_refl,
}
use jianghu_scrm.Utils.{filter, first_non_empty}
use jianghu_scrm.Models.OpsCustomers.{OpsCustomerTagRelation}
use jianghu_scrm.Ops.State.{World, OpsState, ◌>>=◌, pure}
use jianghu_scrm.Ops.Journal.{add_ops_timeline, ops_operator_id}
use jianghu_scrm.Ops.Tags.{is_link, link_tag, add_ops_tag_to_customer, remove_ops_tag_from_customer}

-- Every customer has each tag at most once.
unfoldable pub links_of : String → String → OpsState → ℕ
links_of customer_id tag_id s = count (is_link customer_id tag_id) s.ops_tag_links

pub record IsLinkedOnce (s : OpsState) : Type 0 where
  pub once : (customer_id tag_id : String) → links_of customer_id tag_id s ≤ 1

count_none : {A : Type 0} (p : A → Bool) (xs : List A) → any p xs ≡ false → count p xs ≡ 0
unfolding any count
count_none p [] h = refl
count_none p (x ∷ xs) h = ground (arith, count_none p xs)

count_some : {A : Type 0} (p : A → Bool) (xs : List A) → any p xs ≡ true → 1 ≤ count p xs
unfolding any count
count_some p [] h = cc
count_some p (x ∷ xs) h = ground (arith, count_some p xs)

module _ (world : World) (customer_id tag_id source operator_id operator_name : String) where
  abbrev linked : OpsState → OpsState
  linked s = (add_ops_tag_to_customer world customer_id tag_id source operator_id operator_name s).1

  abbrev link_row : OpsState → OpsCustomerTagRelation
  link_row s = record {
    id = "link" <> world.suffix s.drawn;
    customer_id = customer_id;
    tag_id = tag_id;
    source = source;
    operator_id = first_non_empty (operator_id ∷ ops_operator_id ∷ []);
    created_at = world.clock s.readings;
  }

  link_tag-links :
      (s : OpsState)
      → (link_tag world customer_id tag_id source operator_id operator_name s).1.ops_tag_links
        ≡ s.ops_tag_links ++ link_row s ∷ []
  unfolding link_tag add_ops_timeline ◌>>=◌
  link_tag-links s = refl

  -- one link more for the pair
  link_tag-count :
      (c t : String) (s : OpsState)
      → links_of c t (link_tag world customer_id tag_id source operator_id operator_name s).1
        ≡ links_of c t s + (if customer_id == c && tag_id == t then 1 else 0)
  unfolding links_of is_link count
  link_tag-count c t s =
      ap (count (is_link c t)) (link_tag-links s)
      ∙ omega (arith, count-append (is_link c t) s.ops_tag_links (link_row s ∷ []))

  linking :
      (known : Bool) (c t : String) (s : OpsState)
      → any (is_link customer_id tag_id) s.ops_tag_links ≡ known
      → links_of c t
          ((if known
              then pure tt
              else link_tag world customer_id tag_id source operator_id operator_name)
            s).1
        ≡ links_of c t s + (if not known && customer_id == c && tag_id == t then 1 else 0)
  unfolding pure
  linking true c t s e = omega arith
  linking false c t s e = link_tag-count c t s

  add_ops_tag_to_customer-count :
      (c t : String) (s : OpsState)
      → links_of c t (linked s)
        ≡ links_of c t s
          + (if not (any (is_link customer_id tag_id) s.ops_tag_links)
                && customer_id == c
                && tag_id == t
              then 1
              else 0)
  unfolding add_ops_tag_to_customer ◌>>=◌
  add_ops_tag_to_customer-count c t s = linking _ c t s refl

  still_once : (s : OpsState) → IsLinkedOnce s → (c t : String) → links_of c t (linked s) ≤ 1
  unfolding links_of
  still_once s h c t = ground (
    arith,
    add_ops_tag_to_customer-count c t s,
    h.once c t,
    count_none (is_link customer_id tag_id) s.ops_tag_links,
    eq_iff customer_id c,
    eq_iff tag_id t,
  )

  now_once : (s : OpsState) → IsLinkedOnce s → links_of customer_id tag_id (linked s) ≡ 1
  unfolding links_of
  now_once s h = ground (
    arith,
    add_ops_tag_to_customer-count customer_id tag_id s,
    h.once customer_id tag_id,
    count_none (is_link customer_id tag_id) s.ops_tag_links,
    count_some (is_link customer_id tag_id) s.ops_tag_links,
    eq_refl customer_id,
    eq_refl tag_id,
  )

  -- Where every customer has each tag at most once, adding a tag to a customer keeps that, and then
  -- the customer has the tag exactly once.
  pub add_ops_tag_to_customer-IsLinkedOnce :
      (s : OpsState)
      → IsLinkedOnce s
      → IsLinkedOnce (linked s) × (links_of customer_id tag_id (linked s) ≡ 1)
  add_ops_tag_to_customer-IsLinkedOnce s h = (record { once = still_once s h }, now_once s h)

  -- Adding a tag to a customer leaves the number of links of every other customer and tag.
  pub add_ops_tag_to_customer-others :
      (c t : String) (s : OpsState)
      → (customer_id == c && tag_id == t) ≡ false
      → links_of c t (linked s) ≡ links_of c t s
  add_ops_tag_to_customer-others c t s e = ground (arith, add_ops_tag_to_customer-count c t s)

removed-count :
    (customer_id tag_id c t : String) (links : List OpsCustomerTagRelation)
    → count (is_link c t) (filter (λ link. not (is_link customer_id tag_id link)) links)
      ≡ (if customer_id == c && tag_id == t then 0 else count (is_link c t) links)
unfolding count filter is_link
removed-count customer_id tag_id c t [] = ground arith
removed-count customer_id tag_id c t (link ∷ links) = ground (
  arith,
  removed-count customer_id tag_id c t links,
  eq_iff link.customer_id customer_id,
  eq_iff link.tag_id tag_id,
  eq_iff customer_id c,
  eq_iff tag_id t,
  eq_iff link.customer_id c,
  eq_iff link.tag_id t,
)

-- Removing a tag from a customer leaves no link of the two, and every other pair as many links as
-- it had.
pub remove_ops_tag_from_customer-count :
    (customer_id tag_id c t : String) (s : OpsState)
    → links_of c t (remove_ops_tag_from_customer customer_id tag_id s).1
      ≡ (if customer_id == c && tag_id == t then 0 else links_of c t s)
unfolding remove_ops_tag_from_customer ◌>>=◌ links_of
remove_ops_tag_from_customer-count customer_id tag_id c t s =
    removed-count customer_id tag_id c t s.ops_tag_links
