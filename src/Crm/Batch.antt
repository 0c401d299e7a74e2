-- ===== src/Crm/Batch.antt =====
-- `batchTags` of backend/batch_tags.go in memory.
use jianghu_scrm.Prelude.{
  ℕ, String, Option, none, some, List, [], ◌∷◌, map, ◌≡◌, refl, ap, ◌<>◌, join, count, Bool-cases,
  inl, inr, if◌then◌else◌, ◌∙◌,
}
use jianghu_scrm.Utils.{contains, append_unique}
use jianghu_scrm.Models.Crm.{Customer}
use jianghu_scrm.Models.Queue.{BatchTagTaskPayload}
use jianghu_scrm.Ops.Http.{Reply, ok, err_bad_request}
use jianghu_scrm.Crm.Pool.{Outside, Pool, audit, tick, prepend_audit}

module _ (outside : Outside) where
  unfoldable pub tag_one : Pool → List String → Customer → Customer
  unfolding append_unique
  tag_one pool tags c =
      prepend_audit (audit outside pool "批量打标签" "系统标签已更新" "运营" ("客户：" <> c.name) (join tags "、"))
        (record c { tags = append_unique c.tags tags })

  -- The loop over the customers; the pool counts the events that are written.
  unfoldable pub tag_listed : BatchTagTaskPayload → List Customer → Pool → List Customer × Pool
  tag_listed p [] pool = ([], pool)
  tag_listed p (c ∷ rest) pool =
      let listed = contains p.customer_i_ds c.id in
      let (rest', pool') = tag_listed p rest (if listed then tick pool else pool) in
      ((if listed then tag_one pool p.tags c else c) ∷ rest', pool')

  unfoldable pub updated_count : BatchTagTaskPayload → List Customer → ℕ
  unfolding count
  updated_count p customers = count (λ c. contains p.customer_i_ds c.id) customers

  unfoldable pub batch_tags_of : BatchTagTaskPayload → List String → Pool → Reply ℕ × Pool
  batch_tags_of p [] pool = (err_bad_request "customerIds is required", pool)
  batch_tags_of p (_ ∷ _) pool =
      let (customers, pool') = tag_listed p pool.customers pool in
      (ok (updated_count p pool.customers), record pool' { customers = customers })

  unfoldable pub batch_tags : Option BatchTagTaskPayload → Pool → Reply ℕ × Pool
  batch_tags none pool = (err_bad_request "invalid body", pool)
  batch_tags (some p) pool = batch_tags_of p p.customer_i_ds pool

  tag_listed-tags :
      (p : BatchTagTaskPayload) (customers : List Customer) (pool : Pool)
      → map (λ c. c.tags) (tag_listed p customers pool).0
        ≡ map
            (λ c. if contains p.customer_i_ds c.id then append_unique c.tags p.tags else c.tags)
            customers
  unfolding tag_listed tag_one prepend_audit
  tag_listed-tags p [] pool = refl
  tag_listed-tags p (c ∷ rest) pool = elim (Bool-cases (contains p.customer_i_ds c.id)) [
    | inl e ↦
        rw e (ap (λ ts. append_unique c.tags p.tags ∷ ts) (tag_listed-tags p rest (tick pool)))
    | inr e ↦ rw e (ap (λ ts. c.tags ∷ ts) (tag_listed-tags p rest pool))
  ]

  -- A batch with a customer in its list gives each listed customer of the pool the tags that
  -- `appendUnique` makes of its own and the batch's, and leaves the tags of the others.
  pub batch_tags-tags :
      (p : BatchTagTaskPayload) (id : String) (ids : List String) (pool : Pool)
      → p.customer_i_ds ≡ id ∷ ids
      → map (λ c. c.tags) (batch_tags (some p) pool).1.customers
        ≡ map
            (λ c. if contains p.customer_i_ds c.id then append_unique c.tags p.tags else c.tags)
            pool.customers
  unfolding batch_tags batch_tags_of
  batch_tags-tags p id ids pool e =
      ap (λ xs. map (λ c. c.tags) (batch_tags_of p xs pool).1.customers) e
      ∙ tag_listed-tags p pool.customers pool
