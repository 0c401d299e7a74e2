-- ===== src/Wecom/State.antt =====
-- The state text of a contact way: `buildSCRMContactWayState`, `parseBindingIDFromSCRMState` and what
-- they call in backend/wecom_contact_way_rotation.go, with `strings.Split` and `strings.ReplaceAll`
-- for separators of one character.
use Prim.Native.Char.{Char, code}
use Prim.Native.String.{String, []}
use jianghu_scrm.Prelude.{ℕ, List, ◌==◌, ◌<>◌, eqb, trim_space, if◌then◌else◌}

abbrev pub colon : ℕ
colon = 58

abbrev pub space : ℕ
space = 32

-- strings.ReplaceAll(s, c, "_")
unfoldable pub replace_all : ℕ → String → String
replace_all c [] = ""
replace_all c (String.◌∷◌ x s) =
    let rest = replace_all c s in if eqb (code x) c then "_" <> rest else String.◌∷◌ x rest

unfoldable pub sanitize_part : String → String
sanitize_part value = replace_all space (replace_all colon (trim_space value))

unfoldable pub build_state_prefix : String → String → String
build_state_prefix store_code manager =
    "store:" <> sanitize_part store_code <> ":manager:" <> sanitize_part manager

unfoldable pub build_contact_way_state : String → String → String → String → String
build_contact_way_state store_code manager guide binding =
    build_state_prefix store_code manager
    <> ":guide:"
    <> sanitize_part guide
    <> ":bind:"
    <> sanitize_part binding
    <> ":v1"

-- the first text of a split, with one more character
unfoldable pub add_front : Char → List String → List String
add_front x List.[] = List.◌∷◌ (String.◌∷◌ x []) List.[]
add_front x (List.◌∷◌ w ws) = List.◌∷◌ (String.◌∷◌ x w) ws

-- strings.Split(s, ":")
unfoldable pub split_colon : String → List String
split_colon [] = List.◌∷◌ "" List.[]
split_colon (String.◌∷◌ x s) =
    let rest = split_colon s in if eqb (code x) colon then List.◌∷◌ "" rest else add_front x rest

-- The loop stops before the last part.
unfoldable pub after_bind : List String → String
after_bind List.[] = ""
after_bind (List.◌∷◌ x List.[]) = ""
after_bind (List.◌∷◌ x (List.◌∷◌ y rest)) =
    let next = after_bind (List.◌∷◌ y rest) in if x == "bind" then trim_space y else next

unfoldable pub parse_binding_id : String → String
parse_binding_id state = after_bind (split_colon state)
