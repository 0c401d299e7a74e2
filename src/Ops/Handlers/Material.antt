-- ===== src/Ops/Handlers/Material.antt =====
-- `opsMaterialsHandler` (its POST) and `opsMaterialActionHandler` of customer_ops.go.
use jianghu_scrm.Prelude.{
  String, Bool, Option, none, some, List, [], ◌∷◌, ◌==◌, find, update_first, if◌then◌else◌,
}
use jianghu_scrm.Utils.{first_non_empty}
use jianghu_scrm.Models.OpsWork.{OpsMaterial}
use jianghu_scrm.Ops.State.{World, Ops, new_id, stamp, pure, gets, modify, ◌>>=◌, ◌>>◌}
use jianghu_scrm.Ops.Journal.{ops_operator_name}
use jianghu_scrm.Ops.Access.{Request, Method, get, post, patch, delete, other}
use jianghu_scrm.Ops.Http.{
  Reply, ok, err_not_found, Decoder, MaterialPayload, decoded, or_not_found,
}

abbrev tags_or : Option (List String) → List String → List String
tags_or none old = old
tags_or (some new) old = new

-- The fields that a PATCH gives replace the old ones.
unfoldable pub patch_material : MaterialPayload → String → OpsMaterial → OpsMaterial
unfolding first_non_empty
patch_material p now m = record m {
  title = first_non_empty (p.title ∷ m.title ∷ []);
  content = first_non_empty (p.content ∷ m.content ∷ []);
  material_type = first_non_empty (p.material_type ∷ m.material_type ∷ []);
  applicable_stage = first_non_empty (p.applicable_stage ∷ m.applicable_stage ∷ []);
  applicable_tags = tags_or p.applicable_tags m.applicable_tags;
  status = first_non_empty (p.status ∷ m.status ∷ []);
  updated_at = now;
}

-- append(materials[:index], materials[index+1:]...) at the first material with the ID
unfoldable pub remove_first : {A : Type 0} → (A → Bool) → List A → List A
remove_first p [] = []
remove_first p (x ∷ xs) = if p x then xs else x ∷ remove_first p xs

abbrev has_id : String → OpsMaterial → Bool
has_id id m = m.id == id

module _ (world : World) (json : Decoder) where
  unfoldable pub create_material_action : Request → Ops (Reply OpsMaterial)
  unfolding new_id stamp first_non_empty
  create_material_action r = decoded (json.material r.body) λ p. do
    id ← new_id world "om"
    now ← stamp world
    let row : OpsMaterial = record {
      id = id;
      title = p.title;
      content = p.content;
      material_type = p.material_type;
      applicable_stage = p.applicable_stage;
      applicable_tags = tags_or p.applicable_tags [];
      status = first_non_empty (p.status ∷ "enabled" ∷ []);
      created_by = first_non_empty (p.created_by ∷ ops_operator_name ∷ []);
      created_at = now;
      updated_at = now;
    }
    modify (λ s. record s { ops_materials = row ∷ s.ops_materials })
    pure (ok row)

  unfoldable pub material_verb : Request → OpsMaterial → Method → Ops (Reply OpsMaterial)
  unfolding stamp
  material_verb r m patch = decoded (json.material r.body) λ p. do
    now ← stamp world
    let row = patch_material p now m
    modify λ s. record s { ops_materials = update_first (has_id m.id) (λ _. row) s.ops_materials }
    pure (ok row)
  material_verb r m delete = do
    modify (λ s. record s { ops_materials = remove_first (has_id m.id) s.ops_materials })
    pure (ok m)
  material_verb r m get = pure err_not_found
  material_verb r m post = pure err_not_found
  material_verb r m other = pure err_not_found

  unfoldable pub ops_material_action_handler : Request → List String → Ops (Reply OpsMaterial)
  ops_material_action_handler r [] = pure err_not_found
  ops_material_action_handler r (id ∷ _) = do
    found ← gets (λ s. find (has_id id) s.ops_materials)
    or_not_found found λ m. material_verb r m r.method
