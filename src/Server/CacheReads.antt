-- ===== src/Server/CacheReads.antt =====
-- What reads of the cache give after an answer was stored.
use jianghu_scrm.Server.Cache.{
  get_cached, is_expired, serve_entry, set_cached, delete_key, CacheEntry, ResponseCache, is_key,
  make_room, sweep,
}
use jianghu_scrm.Prelude.{
  ℕ, find, List, String, [], ◌∷◌, ◌≡◌, not, ◌==◌, ◌≤◌, Option, some, if◌then◌else◌, none, false,
  Bool-cases, ◌+◌, arith, ltb, inl, ◌⊎◌, true, inr, eq_iff, subst, refl, sym, ◌∙◌, ap,
}
use jianghu_scrm.Utils.{filter}
use jianghu_scrm.Server.CacheLaws.{find_put, make_room-kept, sweep-kept}

-- The entry that storing an answer leaves is found under its key.
find_set :
    (now position : ℕ) (key body : String) (c : ResponseCache)
    → find (is_key key) (set_cached now position key body c).entries
      ≡ some (record { key = key; body = body; expires_at = now + c.ttl })
unfolding set_cached
find_set now position key body c =
    find_put
      (record { key = key; body = body; expires_at = now + (make_room position (sweep now c)).ttl })
      (make_room position (sweep now c))
    ∙ ap (λ t. some (record { key = key; body = body; expires_at = now + t }))
        ((make_room-kept position (sweep now c)).1 ∙ (sweep-kept now c).1)

-- Reads, each at a time and of a key.
unfoldable pub read_all : List (ℕ × String) → ResponseCache → ResponseCache
unfolding get_cached
read_all [] c = c
read_all ((now, key) ∷ reads) c = read_all reads (get_cached now key c).1

-- No read is later than a time.
abbrev pub AreBy : ℕ → List (ℕ × String) → Type 0
AreBy later [] = Unit
AreBy later ((now, key) ∷ reads) = (now ≤ later) × AreBy later reads

find-deleted :
    (key : String) (es : List CacheEntry)
    → find (is_key key) (filter (λ e. not (is_key key e)) es) ≡ none
unfolding find filter
find-deleted key [] = refl
find-deleted key (e ∷ es) = elim (Bool-cases (is_key key e)) [
  | inl h ↦ rw h (find-deleted key es)
  | inr h ↦ rw h (rw h (find-deleted key es))
]

find-other :
    (key k : String) (es : List CacheEntry)
    → (k == key) ≡ false
    → find (is_key key) (filter (λ e. not (is_key k e)) es) ≡ find (is_key key) es
unfolding find filter is_key
find-other key k [] d = refl
find-other key k (e ∷ es) d =
    ground (arith, find-other key k es d, d, eq_iff e.key k, eq_iff e.key key, eq_iff k key)

-- The entry is there, or it was dropped since it had expired by the time.
record Keeps (later : ℕ) (e : CacheEntry) (c : ResponseCache) : Type 0 where
  kept :
      (find (is_key e.key) c.entries ≡ some e)
      ⊎ ((find (is_key e.key) c.entries ≡ none) × (is_expired later e ≡ true))

served-Keeps :
    (later now : ℕ) (key : String) (e : CacheEntry) (c : ResponseCache) (o : Option CacheEntry)
    → now ≤ later
    → find (is_key key) c.entries ≡ o
    → Keeps later e c
    → Keeps later e (serve_entry now key c o).1
unfolding serve_entry delete_key
served-Keeps later now key e c none b f k = k
served-Keeps later now key e c (some x) b f k = elim (Bool-cases (is_expired now x)) [
  | inr h ↦ rw h k
  | inl h ↦ elim (Bool-cases (key == e.key)) [
    | inr d ↦ rw h (record {
      kept =
          subst (λ o. (o ≡ some e) ⊎ ((o ≡ none) × (is_expired later e ≡ true)))
            (sym (find-other e.key key c.entries d)) k.kept;
    })
    | inl d ↦
        let same : key ≡ e.key = (eq_iff key e.key).0 d in
        rw h (record {
          kept = inr (
            subst (λ y. find (is_key e.key) (delete_key y c).entries ≡ none) (sym same)
                (find-deleted e.key c.entries),
            elim k.kept [
              | inr g ↦ g.1
              | inl g ↦
                  let own : find (is_key e.key) c.entries ≡ some x =
                    subst (λ y. find (is_key y) c.entries ≡ some x) same f in
                  let both : some x ≡ some e = sym own ∙ g in
                  let this : x ≡ e = cc in
                  unfold is_expired in
                  ground (arith, b, subst (λ y. is_expired now y ≡ true) this h)
            ],
          );
        })
  ]
]

read_all-Keeps :
    (later : ℕ) (e : CacheEntry) (reads : List (ℕ × String)) (c : ResponseCache)
    → AreBy later reads
    → Keeps later e c
    → Keeps later e (read_all reads c)
unfolding read_all get_cached
read_all-Keeps later e [] c b k = k
read_all-Keeps later e ((now, key) ∷ reads) c b k =
    read_all-Keeps later e reads _ b.1 (served-Keeps later now key e c _ b.0 refl k)

kept_answer :
    (later : ℕ) (e : CacheEntry) (c : ResponseCache)
    → Keeps later e c
    → (get_cached later e.key c).0 ≡ (if is_expired later e then none else some e.body)
unfolding get_cached serve_entry
kept_answer later e c k = elim k.kept [ inl f ↦ rw f (ground arith) | inr f ↦ rw (f.0, f.1) refl ]

-- After an answer was stored under a key, and then any keys were read, none later than the time, a read
-- of the key at the time gives the answer until its time to live is over, and nothing after that.
pub get_cached-set_cached :
    (now later position : ℕ) (key body : String) (reads : List (ℕ × String)) (c : ResponseCache)
    → AreBy later reads
    → (get_cached later key (read_all reads (set_cached now position key body c))).0
      ≡ (if ltb (now + c.ttl) later then none else some body)
unfolding is_expired
get_cached-set_cached now later position key body reads c b =
    let e : CacheEntry = record { key = key; body = body; expires_at = now + c.ttl } in
    kept_answer later e (read_all reads (set_cached now position key body c))
      (read_all-Keeps later e reads _ b (record { kept = inl (find_set now position key body c) }))
