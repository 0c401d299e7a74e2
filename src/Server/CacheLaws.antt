-- ===== src/Server/CacheLaws.antt =====
-- The size of the cache, and what it serves.
use jianghu_scrm.Prelude.{
  ℕ, zero, suc, ◌+◌, ◌%◌, ◌≤◌, ◌<◌, String, Bool, true, false, not, some, List, [], ◌∷◌, ◌≡◌, refl,
  ◌==◌, any, length, find, arith, eq_refl, inl, inr, Bool-cases, eq_iff,
}
use native.Mathlib.Nat.{mod-lt}
use text.Mathlib.Text.{starts_with}
use jianghu_scrm.Utils.{filter}
use jianghu_scrm.Server.Cache.{
  CacheEntry, ResponseCache, is_key, is_expired, delete_key, sweep, remove_at, make_room, put_entry,
  set_cached, delete_prefix,
}

length-filter : {A : Type 0} (p : A → Bool) (xs : List A) → length (filter p xs) ≤ length xs
unfolding filter
length-filter p [] = omega arith
length-filter p (x ∷ xs) = ground (arith, length-filter p xs)

length-remove_at :
    (i : ℕ) (xs : List CacheEntry) → i < length xs → length (remove_at i xs) + 1 ≡ length xs
unfolding remove_at
length-remove_at i [] h = absurd (omega (arith, h))
length-remove_at zero (x ∷ xs) h = omega arith
length-remove_at (suc i) (x ∷ xs) h = omega (arith, length-remove_at i xs (omega (arith, h)))

-- The cache never holds more entries than it may.
abbrev pub Fits : ResponseCache → Type 0
Fits c = length c.entries ≤ c.max_entries

sweep-Fits : (now : ℕ) (c : ResponseCache) → Fits c → length (sweep now c).entries ≤ c.max_entries
unfolding sweep
sweep-Fits now c h = ground (arith, h, length-filter (λ e. not (is_expired now e)) c.entries)

pub sweep-kept :
    (now : ℕ) (c : ResponseCache)
    → ((sweep now c).max_entries ≡ c.max_entries) × ((sweep now c).ttl ≡ c.ttl)
unfolding sweep
sweep-kept now c = ground arith

pub make_room-kept :
    (position : ℕ) (c : ResponseCache)
    → ((make_room position c).max_entries ≡ c.max_entries) × ((make_room position c).ttl ≡ c.ttl)
unfolding make_room
make_room-kept position c = ground arith

evicted :
    (position : ℕ) (xs : List CacheEntry)
    → 1 ≤ length xs
    → length (remove_at (position % length xs) xs) + 1 ≡ length xs
evicted position xs h = length-remove_at (position % length xs) xs (mod-lt position h)

make_room-length :
    (position : ℕ) (c : ResponseCache)
    → 1 ≤ c.max_entries
    → length c.entries ≤ c.max_entries
    → length (make_room position c).entries < c.max_entries
unfolding make_room
make_room-length position c m h = ground (arith, m, h, evicted position c.entries)

delete_key-length :
    (key : String) (c : ResponseCache) → length (delete_key key c).entries ≤ length c.entries
unfolding delete_key
delete_key-length key c = length-filter (λ x. not (is_key key x)) c.entries

-- Where the cache may hold at least one entry and holds no more than it may, it still does so after
-- an answer is stored, whichever entry makes room.
pub set_cached-Fits :
    (now position : ℕ) (key body : String) (c : ResponseCache)
    → 1 ≤ c.max_entries
    → Fits c
    → Fits (set_cached now position key body c)
unfolding set_cached put_entry
set_cached-Fits now position key body c m h =
    let k = (sweep-kept now c).0 in
    omega (
      arith,
      delete_key-length key (make_room position (sweep now c)),
      make_room-length position (sweep now c) (omega (arith, m, k))
          (omega (arith, sweep-Fits now c h, k)),
      (make_room-kept position (sweep now c)).0,
    )

pub find_put :
    (e : CacheEntry) (c : ResponseCache) → find (is_key e.key) (put_entry e c).entries ≡ some e
unfolding find put_entry is_key
find_put e c = rw (eq_refl e.key)

prefix-gone :
    (prefix : String) (xs : List CacheEntry)
    → any (λ e. starts_with e.key prefix) (filter (λ e. not (starts_with e.key prefix)) xs) ≡ false
unfolding any filter
prefix-gone prefix [] = refl
prefix-gone prefix (x ∷ xs) = ground (arith, prefix-gone prefix xs)

same_key :
    (prefix key k : String)
    → (k == key) ≡ true
    → starts_with key prefix ≡ false
    → starts_with k prefix ≡ false
same_key prefix key k e h = rw ((eq_iff k key).0 e) h

prefix-kept :
    (prefix key : String) (xs : List CacheEntry)
    → starts_with key prefix ≡ false
    → find (is_key key) (filter (λ e. not (starts_with e.key prefix)) xs) ≡ find (is_key key) xs
unfolding find filter is_key
prefix-kept prefix key [] h = refl
prefix-kept prefix key (x ∷ xs) h = elim (Bool-cases (x.key == key)) [
  | inl e ↦ ground (arith, same_key prefix key x.key e h, e)
  | inr e ↦ ground (arith, e, prefix-kept prefix key xs h)
]

-- An invalidation leaves no entry whose key starts with the prefix, and leaves what a search for any
-- other key finds.
pub delete_prefix-gone :
    (prefix : String) (c : ResponseCache)
    → (any (λ e. starts_with e.key prefix) (delete_prefix prefix c).entries ≡ false)
      × ((key : String)
          → starts_with key prefix ≡ false
          → find (is_key key) (delete_prefix prefix c).entries ≡ find (is_key key) c.entries)
unfolding delete_prefix
delete_prefix-gone prefix c =
    (prefix-gone prefix c.entries, λ key h. prefix-kept prefix key c.entries h)
