-- ===== src/Db/Rows.antt =====
-- One try of an item as a change of one row: laws of `items_after` where the ids of the items differ.
use jianghu_scrm.Prelude.{
  ℕ, List, String, map, ◌≡◌, find, All, Bool, true, ◌==◌, arith, ◌∷◌, false, some, none, ap, eq_iff,
  refl, [], ◌+◌, Bool-cases, inl, inr, subst, ◌∙◌, sym,
}
use jianghu_scrm.Db.Worker.{
  settle_item, Outcome, items_after, is_claimable, claim_item, retried, dead, succeeded,
}
use jianghu_scrm.Db.Tables.{DbTaskItem, update_where}
use jianghu_scrm.Crm.Books.{IsOther, AreApart}

abbrev pub item_ids : List DbTaskItem → List String
item_ids items = map (λ i. i.id) items

-- the id and the task of each item, which no statement changes
abbrev pub item_keys : List DbTaskItem → List (String × String)
item_keys items = map (λ i. (i.id, i.task_id)) items

-- a sum over rows
unfoldable pub total : (DbTaskItem → ℕ) → List DbTaskItem → ℕ
total w [] = 0
total w (x ∷ rest) = w x + total w rest

settle_item-keeps :
    (now delay : ℕ) (outcome : Outcome) (i : DbTaskItem)
    → ((settle_item now delay outcome i).id ≡ i.id)
      × ((settle_item now delay outcome i).task_id ≡ i.task_id)
unfolding settle_item
settle_item-keeps now delay succeeded i = (refl, refl)
settle_item-keeps now delay (retried message) i = (refl, refl)
settle_item-keeps now delay (dead message) i = (refl, refl)

module _ (now delay : ℕ) (id : String) (outcome : Outcome) where
  -- the row of an item that was claimed, after its try
  abbrev pub tried_row : DbTaskItem → DbTaskItem
  tried_row i = settle_item now delay outcome (claim_item now i)

  after-absent :
      (items : List DbTaskItem)
      → All (IsOther id) (item_ids items)
      → items_after now delay id outcome items ≡ items
  unfolding items_after update_where is_claimable
  after-absent [] a = refl
  after-absent (x ∷ rest) a = rw (a.0, a.0) (ap (λ xs. x ∷ xs) (after-absent rest a.1))

  find-absent :
      (items : List DbTaskItem)
      → All (IsOther id) (item_ids items)
      → find (is_claimable id) items ≡ none
  unfolding find is_claimable
  find-absent [] a = refl
  find-absent (x ∷ rest) a = rw (a.0) (find-absent rest a.1)

  -- the row of another item
  after-other :
      (x : DbTaskItem) (rest : List DbTaskItem)
      → (x.id == id) ≡ false
      → items_after now delay id outcome (x ∷ rest) ≡ x ∷ items_after now delay id outcome rest
  unfolding items_after update_where is_claimable
  after-other x rest h = rw (h, h) refl

  -- the row of the item
  after-own :
      (x : DbTaskItem) (rest : List DbTaskItem)
      → is_claimable id x ≡ true
      → items_after now delay id outcome (x ∷ rest)
        ≡ tried_row x ∷ items_after now delay id outcome rest
  unfolding items_after update_where is_claimable claim_item
  after-own x rest h = let e : (x.id == id) ≡ true = ground (arith, h) in rw (h, e) refl

  claimable_id : (x : DbTaskItem) → is_claimable id x ≡ true → x.id ≡ id
  unfolding is_claimable
  claimable_id x h = ground (arith, h, eq_iff x.id id)

  own_total :
      (w : DbTaskItem → ℕ) (x : DbTaskItem) (rest : List DbTaskItem)
      → is_claimable id x ≡ true
      → All (IsOther x.id) (item_ids rest)
      → total w (items_after now delay id outcome (x ∷ rest)) + w x
        ≡ total w (x ∷ rest) + w (tried_row x)
  unfolding total
  own_total w x rest e a =
      let absent =
        after-absent rest (subst (λ k. All (IsOther k) (item_ids rest)) (claimable_id x e) a) in
      ap (λ xs. total w xs + w x) (after-own x rest e ∙ ap (λ xs. tried_row x ∷ xs) absent)
      ∙ omega arith

  total_other :
      (w : DbTaskItem → ℕ) (x : DbTaskItem) (rest : List DbTaskItem) (i : DbTaskItem)
      → (x.id == id) ≡ false
      → total w (items_after now delay id outcome rest) + w i ≡ total w rest + w (tried_row i)
      → total w (items_after now delay id outcome (x ∷ rest)) + w i
        ≡ total w (x ∷ rest) + w (tried_row i)
  unfolding total
  total_other w x rest i s h = ap (λ xs. total w xs + w i) (after-other x rest s) ∙ omega (arith, h)

  -- what the change of the one row means for a sum over the rows
  pub after-total :
      (w : DbTaskItem → ℕ) (items : List DbTaskItem) (i : DbTaskItem)
      → AreApart (item_ids items)
      → find (is_claimable id) items ≡ some i
      → total w (items_after now delay id outcome items) + w i ≡ total w items + w (tried_row i)
  unfolding find
  after-total w [] i a f = cc
  after-total w (x ∷ rest) i a f = elim (Bool-cases (is_claimable id x)) [
    | inl e ↦
        let found : some x ≡ some i = rw e at f in
        let same : x ≡ i = cc in
        subst
          (λ k.
            total w (items_after now delay id outcome (x ∷ rest)) + w k
            ≡ total w (x ∷ rest) + w (tried_row k))
          same (own_total w x rest e a.0)
    | inr e ↦ elim (Bool-cases (x.id == id)) [
      | inl s ↦
          let absent =
            find-absent rest
              (subst (λ k. All (IsOther k) (item_ids rest)) ((eq_iff x.id id).0 s) a.0) in
          let none_found : find (is_claimable id) rest ≡ some i = rw e at f in
          let lost : none ≡ some i = sym absent ∙ none_found in cc
      | inr s ↦
          let more : find (is_claimable id) rest ≡ some i = rw e at f in
          total_other w x rest i s (after-total w rest i a.1 more)
    ]
  ]

  -- What holds of every row and of the changed row holds of every row after the try.
  pub after-All :
      (P : DbTaskItem → Type 0) (items : List DbTaskItem) (i : DbTaskItem)
      → AreApart (item_ids items)
      → find (is_claimable id) items ≡ some i
      → P (tried_row i)
      → All P items
      → All P (items_after now delay id outcome items)
  unfolding find
  after-All P [] i a f h k = absurd (cc)
  after-All P (x ∷ rest) i a f h k = elim (Bool-cases (is_claimable id x)) [
    | inl e ↦
        let found : some x ≡ some i = rw e at f in
        let same : i ≡ x = cc in
        let absent =
          after-absent rest (subst (λ y. All (IsOther y) (item_ids rest)) (claimable_id x e) a.0) in
        subst (All P) (sym (after-own x rest e ∙ ap (λ xs. tried_row x ∷ xs) absent))
          (subst (λ y. P (tried_row y)) same h, k.1)
    | inr e ↦ elim (Bool-cases (x.id == id)) [
      | inl s ↦
          let absent =
            find-absent rest
              (subst (λ y. All (IsOther y) (item_ids rest)) ((eq_iff x.id id).0 s) a.0) in
          let none_found : find (is_claimable id) rest ≡ some i = rw e at f in
          let lost : none ≡ some i = sym absent ∙ none_found in absurd (cc)
      | inr s ↦
          let more : find (is_claimable id) rest ≡ some i = rw e at f in
          subst (All P) (sym (after-other x rest s)) (k.0, after-All P rest i a.1 more h k.1)
    ]
  ]

  keys-update :
      (p : DbTaskItem → Bool) (f : DbTaskItem → DbTaskItem)
      → ((i : DbTaskItem) → ((f i).id ≡ i.id) × ((f i).task_id ≡ i.task_id))
      → (items : List DbTaskItem) → item_keys (update_where p f items) ≡ item_keys items
  unfolding update_where
  keys-update p f k [] = refl
  keys-update p f k (x ∷ rest) = elim (Bool-cases (p x)) [
    | inl e ↦ rw (e, (k x).0, (k x).1) (ap (λ ys. (x.id, x.task_id) ∷ ys) (keys-update p f k rest))
    | inr e ↦ rw e (ap (λ ys. (x.id, x.task_id) ∷ ys) (keys-update p f k rest))
  ]

  -- A try changes no id and no task of an item.
  pub after-keys :
      (items : List DbTaskItem)
      → item_keys (items_after now delay id outcome items) ≡ item_keys items
  unfolding items_after claim_item
  after-keys items =
      keys-update _ (settle_item now delay outcome) (settle_item-keeps now delay outcome) _
      ∙ keys-update (is_claimable id) (claim_item now) (λ i. (refl, refl)) items

-- the ids are the first parts of the keys
item_ids-keys : (items : List DbTaskItem) → item_ids items ≡ map (λ k. k.0) (item_keys items)
item_ids-keys [] = refl
item_ids-keys (x ∷ rest) = ap (λ ys. x.id ∷ ys) (item_ids-keys rest)

pub same_ids : (xs ys : List DbTaskItem) → item_keys xs ≡ item_keys ys → item_ids xs ≡ item_ids ys
same_ids xs ys e = item_ids-keys xs ∙ ap (map (λ k. k.0)) e ∙ sym (item_ids-keys ys)
