-- ===== src/Utils/Paths.antt =====
-- `pathParts` and `clientIP` of backend/utils.go, with `strings.TrimPrefix`, `strings.Trim` and
-- `strings.Split` for one character. `url.PathUnescape` (an error leaves "") and
-- `net.SplitHostPort` (`none` is its error) belong to Go's library and are arguments.
use Prim.Native.Char.{code}
use Prim.Native.String.{String, []}
use jianghu_scrm.Prelude.{
  ℕ, ◌&&◌, Option, none, some, List, map, ◌==◌, eqb, trim_space, if◌then◌else◌,
}
use jianghu_scrm.Wecom.State.{add_front}
use jianghu_scrm.Utils.{first}

abbrev pub slash : ℕ
slash = 47

abbrev pub comma : ℕ
comma = 44

-- what stands behind a prefix
unfoldable pub after_prefix : String → String → Option String
after_prefix [] s = some s
after_prefix (String.◌∷◌ c p) [] = none
after_prefix (String.◌∷◌ c p) (String.◌∷◌ d s) =
    if eqb (code c) (code d) then after_prefix p s else none

abbrev pub or_whole : String → Option String → String
or_whole s none = s
or_whole s (some rest) = rest

-- strings.TrimPrefix(s, prefix)
unfoldable pub trim_prefix : String → String → String
unfolding after_prefix
trim_prefix prefix s = or_whole s (after_prefix prefix s)

trim_left_char : ℕ → String → String
trim_left_char k [] = []
trim_left_char k (String.◌∷◌ c s) =
    let rest = trim_left_char k s in if eqb (code c) k then rest else String.◌∷◌ c s

trim_right_char : ℕ → String → String
trim_right_char k [] = []
trim_right_char k (String.◌∷◌ c s) =
    let rest = trim_right_char k s in if eqb (code c) k && rest == "" then [] else String.◌∷◌ c rest

-- strings.Trim(s, "/")
unfoldable pub trim_char : ℕ → String → String
unfolding trim_left_char trim_right_char
trim_char k s = trim_right_char k (trim_left_char k s)

-- strings.Split(s, separator)
unfoldable pub split_char : ℕ → String → List String
unfolding add_front
split_char k [] = List.◌∷◌ "" List.[]
split_char k (String.◌∷◌ c s) =
    let rest = split_char k s in if eqb (code c) k then List.◌∷◌ "" rest else add_front c rest

unfoldable pub path_parts : (String → String) → String → String → List String
unfolding trim_prefix trim_char split_char
path_parts unescape prefix path =
    let trimmed = trim_char slash (trim_prefix prefix path) in
    if trimmed == "" then List.[] else map unescape (split_char slash trimmed)

abbrev pub or_address : String → Option String → String
or_address address none = address
or_address address (some host) = host

unfoldable pub client_ip : (String → Option String) → String → String → String → String
unfolding split_char first
client_ip split_host_port forwarded_for real_ip remote_addr =
    if trim_space forwarded_for == ""
    then (if trim_space real_ip == ""
        then or_address remote_addr (split_host_port remote_addr)
        else trim_space real_ip)
    else trim_space (first (split_char comma (trim_space forwarded_for)))
