-- ===== src/Server/Cache.antt =====
-- `responseCache`, the local cache of backend/middleware_cache_metrics.go. The Go map is a list of
-- entries with different keys; the key that `Set` evicts is the one at a position that the map's
-- iteration order decides, so the position is an argument. Times and durations are nanoseconds.
use jianghu_scrm.Prelude.{
  ℕ, zero, suc, ◌+◌, ◌-◌, ◌%◌, String, Bool, not, Option, none, some, List, [], ◌∷◌, ◌==◌, ◌&&◌,
  ltb, leb, length, find, if◌then◌else◌, ◌||◌,
}
use text.Mathlib.Text.{starts_with}
use jianghu_scrm.Utils.{filter}

pub record CacheEntry : Type 0 where
  pub key : String
  pub body : String
  pub expires_at : ℕ

pub record ResponseCache : Type 0 where
  pub ttl : ℕ
  pub max_entries : ℕ
  pub entries : List CacheEntry
  pub last_sweep : ℕ

abbrev pub minute : ℕ
minute = 60000000000

-- A disabled cache is nil.
unfoldable pub new_response_cache : ℕ → ℕ → ℕ → Option ResponseCache
new_response_cache now ttl max_entries =
    if leb ttl 0 || leb max_entries 0
    then none
    else some (record { ttl = ttl; max_entries = max_entries; entries = []; last_sweep = now })

unfoldable pub is_key : String → CacheEntry → Bool
is_key key e = e.key == key

unfoldable pub is_expired : ℕ → CacheEntry → Bool
is_expired now e = ltb e.expires_at now

unfoldable pub delete_key : String → ResponseCache → ResponseCache
unfolding filter
delete_key key c = record c { entries = filter (λ e. not (is_key key e)) c.entries }

unfoldable pub serve_entry :
    ℕ → String → ResponseCache → Option CacheEntry → Option String × ResponseCache
serve_entry now key c none = (none, c)
serve_entry now key c (some e) =
    if is_expired now e then (none, delete_key key c) else (some e.body, c)

unfoldable pub get_cached : ℕ → String → ResponseCache → Option String × ResponseCache
get_cached now key c = serve_entry now key c (find (is_key key) c.entries)

unfoldable pub sweep : ℕ → ResponseCache → ResponseCache
unfolding filter
sweep now c =
    if ltb (now - c.last_sweep) minute && ltb (length c.entries) c.max_entries
    then c
    else record c { entries = filter (λ e. not (is_expired now e)) c.entries; last_sweep = now }

-- delete(c.entries, existingKey) for the key at a position
unfoldable pub remove_at : ℕ → List CacheEntry → List CacheEntry
remove_at i [] = []
remove_at zero (e ∷ rest) = rest
remove_at (suc i) (e ∷ rest) = e ∷ remove_at i rest

unfoldable pub make_room : ℕ → ResponseCache → ResponseCache
make_room position c =
    if leb c.max_entries (length c.entries)
    then record c { entries = remove_at (position % length c.entries) c.entries }
    else c

-- c.entries[key] = entry
unfoldable pub put_entry : CacheEntry → ResponseCache → ResponseCache
put_entry e c = record c { entries = e ∷ (delete_key e.key c).entries }

unfoldable pub set_cached : ℕ → ℕ → String → String → ResponseCache → ResponseCache
set_cached now position key body c =
    let swept = make_room position (sweep now c) in
    put_entry (record { key = key; body = body; expires_at = now + swept.ttl }) swept

unfoldable pub delete_prefix : String → ResponseCache → ResponseCache
unfolding filter
delete_prefix prefix c = record c {
  entries = filter (λ e. not (starts_with e.key prefix)) c.entries;
}
