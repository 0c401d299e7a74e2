-- ===== src/Wecom/Rotation.antt =====
-- The rotation of a contact way over the guides of a store: `switchSCRMContactWayBinding` of
-- backend/wecom_contact_way_rotation.go after the binding was found, and its query of the guides
-- (`listAvailableSCRMStoreGuidesForUpdate`). The answer of the remote update is an argument, `none`
-- where it succeeds and the message that is stored where it fails; so is the database's order of texts.
-- The next index is an INTEGER of the table: a larger one is an error that rolls the switch back.
use jianghu_scrm.Prelude.{
  ℕ, zero, suc, ◌+◌, ◌%◌, ◌≤◌, ◌<◌, String, Bool, true, false, not, Option, none, some, List, [],
  ◌∷◌, ◌++◌, ◌≡◌, refl, ap, ◌∙◌, ◌==◌, ◌&&◌, length, get_elem?, arith, if◌then◌else◌, map, eqb, sym,
  All, ltb, ◌||◌, subst, stable_sort, insert,
}
use native.Mathlib.Nat.{mod-lt}
use jianghu_scrm.Wecom.State.{build_contact_way_state}
use jianghu_scrm.Utils.{filter}

pub record StoreGuide : Type 0 where
  pub id : String
  pub store_id : String
  pub guide_user_id : String
  pub guide_name : String
  pub sort_order : ℕ
  pub status : String
  pub daily_limit : ℕ
  pub assigned_today : ℕ
  pub last_assigned_at : String

pub record ContactWayBinding : Type 0 where
  pub id : String
  pub store_id : String
  pub store_code : String
  pub store_name : String
  pub manager_user_id : String
  pub config_id : String
  pub qr_code_url : String
  pub current_guide_user_id : String
  pub next_index : ℕ
  pub state_prefix : String
  pub remark : String
  pub status : String
  pub last_switched_at : String
  pub last_error : String
  pub customer_count : ℕ

-- A row of the retry tasks; the time of its next try is left to the database clock.
pub record RetryTask : Type 0 where
  pub id : String
  pub binding_id : String
  pub config_id : String
  pub target_guide_user_id : String
  pub target_state : String
  pub failed_reason : String
  pub status : String

abbrev pub max_integer : ℕ
max_integer = 2147483647

-- WHERE store_id = $1 AND status = 'active' AND (daily_limit <= 0 OR assigned_today < daily_limit)
unfoldable pub is_available : String → StoreGuide → Bool
is_available store g =
    g.store_id == store
    && g.status == "active"
    && (eqb g.daily_limit 0 || ltb g.assigned_today g.daily_limit)

-- ORDER BY sort_order, id
unfoldable pub list_available :
    (String → String → Bool) → String → List StoreGuide → List StoreGuide
unfolding filter is_available stable_sort insert
list_available text_before store rows =
    stable_sort
      (λ a b.
        ltb a.sort_order b.sort_order || eqb a.sort_order b.sort_order && text_before a.id b.id)
      (filter (is_available store) rows)

-- `positiveModulo` for a value that is not negative
unfoldable pub positive_modulo : ℕ → ℕ → ℕ
positive_modulo value zero = 0
positive_modulo value (suc n) = value % suc n

-- The binding and the retry tasks after the switch, and whether it answered without an error.
pub record Switched : Type 0 where
  pub binding : ContactWayBinding
  pub retries : List RetryTask
  pub is_ok : Bool

-- A forced index of -1 is `none`.
unfoldable pub index_of : Option ℕ → ContactWayBinding → ℕ
index_of none b = b.next_index
index_of (some forced) b = forced

unfoldable pub is_forced : Option ℕ → Bool
is_forced none = false
is_forced (some _) = true

unfoldable pub refuse : String → ContactWayBinding → List RetryTask → Switched
refuse message b retries = record {
  binding = record b { last_error = message };
  retries = retries;
  is_ok = false;
}

module _ (now retry_id : String) where
  unfoldable pub apply_update :
      ContactWayBinding → List RetryTask → Option ℕ → StoreGuide → Option String → Switched
  apply_update b retries forced guide none =
      if ltb max_integer (index_of forced b + 1)
      then record { binding = b; retries = retries; is_ok = false }
      else record {
        binding = record b {
          current_guide_user_id = guide.guide_user_id;
          next_index = index_of forced b + 1;
          status = if is_forced forced then "active" else b.status;
          last_switched_at = now;
          last_error = "";
        };
        retries = retries;
        is_ok = true;
      }
  apply_update b retries forced guide (some error) = refuse error b (
      retries
      ++ record {
        id = retry_id;
        binding_id = b.id;
        config_id = b.config_id;
        target_guide_user_id = guide.guide_user_id;
        target_state =
            build_contact_way_state b.store_code b.manager_user_id guide.guide_user_id b.id;
        failed_reason = error;
        status = "pending";
      }
        ∷ [])

  unfoldable pub switch_to :
      ContactWayBinding → List RetryTask → Option ℕ → Option StoreGuide → Option String → Switched
  switch_to b retries forced none answer =
      refuse "no active guide available for contact-way binding" b retries
  switch_to b retries forced (some guide) answer = apply_update b retries forced guide answer

  unfoldable pub switch_binding :
      ContactWayBinding → List RetryTask → Option ℕ → List StoreGuide → Option String → Switched
  switch_binding b retries forced guides answer =
      if not (b.status == "active") && not (is_forced forced)
      then record { binding = b; retries = retries; is_ok = false }
      else switch_to b retries forced
          (get_elem? guides (positive_modulo (index_of forced b) (length guides))) answer

  module _ (text_before : String → String → Bool) where
    -- A switch to the next guide that the remote service accepts; the guides are asked for anew.
    unfoldable pub next_guide : List StoreGuide → ContactWayBinding → ContactWayBinding
    unfolding switch_binding list_available
    next_guide rows b =
        (switch_binding b [] none (list_available text_before b.store_id rows) none).binding

    -- The binding after such switches, each with the rows of the guides at its time.
    unfoldable pub turns : List (List StoreGuide) → ContactWayBinding → ContactWayBinding
    unfolding next_guide
    turns [] b = b
    turns (rows ∷ rest) b = turns rest (next_guide rows b)

get_elem?-some :
    {A : Type 0} (i : ℕ) (xs : List A) → i < length xs → (a : A) × (get_elem? xs i ≡ some a)
get_elem?-some i [] h = absurd (omega (arith, h))
get_elem?-some zero (x ∷ xs) h = (x, refl)
get_elem?-some (suc i) (x ∷ xs) h = get_elem?-some i xs (omega (arith, h))

get_elem?-map :
    {A B : Type 0} (f : A → B) (i : ℕ) (xs : List A) (a : A)
    → get_elem? xs i ≡ some a
    → get_elem? (map f xs) i ≡ some (f a)
get_elem?-map f i [] a h = cc
get_elem?-map f zero (x ∷ xs) a h = ground (arith, h)
get_elem?-map f (suc i) (x ∷ xs) a h = get_elem?-map f i xs a h

abbrev pub guide_ids : List StoreGuide → List String
guide_ids guides = map (λ g. g.guide_user_id) guides

length-guide_ids : (guides : List StoreGuide) → length guides ≡ length (guide_ids guides)
length-guide_ids [] = refl
length-guide_ids (g ∷ gs) = ap suc (length-guide_ids gs)

module _ (now retry_id : String) (ids : List String) (some_guide : 1 ≤ length ids) where
  positive_modulo-length : (i : ℕ) → positive_modulo i (length ids) ≡ i % length ids
  positive_modulo-length i = nonzero (length ids) some_guide
    where
      nonzero : (n : ℕ) → 1 ≤ n → positive_modulo i n ≡ i % n
      nonzero zero h = absurd (omega (arith, h))
      nonzero (suc n) h = unfold positive_modulo in refl

  -- what one switch does
  record Turned (b c : ContactWayBinding) : Type 0 where
    current : get_elem? ids (b.next_index % length ids) ≡ some c.current_guide_user_id
    index : c.next_index ≡ b.next_index + 1
    active : c.status ≡ b.status
    store : c.store_id ≡ b.store_id

  switch_to-Turned :
      (b : ContactWayBinding) (o : Option StoreGuide) (g : StoreGuide)
      → ltb max_integer (b.next_index + 1) ≡ false
      → o ≡ some g
      → get_elem? ids (b.next_index % length ids) ≡ some g.guide_user_id
      → Turned b (switch_to now retry_id b [] none o none).binding
  unfolding switch_to apply_update index_of is_forced
  switch_to-Turned b none g m e f = cc
  switch_to-Turned b (some x) g m e f =
      rw m (record { current = f ∙ ground (arith, e); index = refl; active = refl; store = refl })

  switched :
      (blocked : Bool) (b : ContactWayBinding) (s t : Switched)
      → blocked ≡ false
      → Turned b t.binding
      → Turned b (if blocked then s else t).binding
  switched true b s t e h = cc
  switched false b s t e h = h

  switch_binding-Turned :
      (guides : List StoreGuide) (b : ContactWayBinding)
      → guide_ids guides ≡ ids
      → (b.status == "active") ≡ true
      → b.next_index + 1 ≤ max_integer
      → Turned b (switch_binding now retry_id b [] none guides none).binding
  unfolding switch_binding index_of is_forced
  switch_binding-Turned guides b same h m =
      let size : length guides ≡ length ids = length-guide_ids guides ∙ ap length same in
      let (g, e) =
        get_elem?-some (b.next_index % length ids) guides
          (omega (arith, size, mod-lt b.next_index some_guide)) in
      switched (not (b.status == "active") && true) b _ _ (ground (arith, h)) (
        switch_to-Turned b _ g (ground (arith, m))
          (ap (λ n. get_elem? guides (positive_modulo b.next_index n)) size
            ∙ ap (get_elem? guides) (positive_modulo-length b.next_index)
            ∙ e)
          (ap (λ xs. get_elem? xs (b.next_index % length ids)) (sym same)
            ∙ get_elem?-map (λ x. x.guide_user_id) (b.next_index % length ids) guides g e))

  -- Where the binding is active, each of the switches to the next guide that follow one another finds
  -- the same available guides of the store in the same order, at least one, the remote service accepts
  -- each switch, and the next index stays within an INTEGER, the last switch leaves the guide at the
  -- position of the next index plus the number of the switches before it, modulo the number of guides:
  -- the guides take turns.
  pub turns-current :
      (text_before : String → String → Bool) (rows : List StoreGuide)
      (rest : List (List StoreGuide)) (b : ContactWayBinding)
      → All (λ r. guide_ids (list_available text_before b.store_id r) ≡ ids) (rows ∷ rest)
      → (b.status == "active") ≡ true
      → b.next_index + length (rows ∷ rest) ≤ max_integer
      → get_elem? ids ((b.next_index + length rest) % length ids)
        ≡ some (turns now retry_id text_before (rows ∷ rest) b).current_guide_user_id
  unfolding turns next_guide
  turns-current text_before rows [] b same h m =
      ap (λ k. get_elem? ids (k % length ids)) (omega arith)
      ∙ (switch_binding-Turned (list_available text_before b.store_id rows) b same.0 h
          (omega (arith, m))).current
  turns-current text_before rows (next ∷ rest) b same h m =
      let turned =
        switch_binding-Turned (list_available text_before b.store_id rows) b same.0 h
          (omega (arith, m)) in
      ap (λ k. get_elem? ids (k % length ids)) (omega (arith, turned.index))
      ∙ turns-current text_before next rest
          (switch_binding now retry_id b [] none (list_available text_before b.store_id rows)
            none).binding
          (subst (λ s. All (λ r. guide_ids (list_available text_before s r) ≡ ids) (next ∷ rest))
            (sym turned.store) same.1)
          (rw (turned.active) h) (omega (arith, turned.index, m))
