-- ===== src/CachedStore.antt =====
-- The cache of cachedVectorStore in internal/core/cached_vector_store.go, apart from the store
-- behind it. The list `order`, from its front on, is an association list; the map `entries` finds
-- the list's elements by id and has no other entries. The answers of time.Now are a function of
-- the number of calls so far.
pub mod Counting
pub mod Eviction
pub mod Putting
pub mod Reading
pub mod Found
pub mod Store
pub mod Coherence
pub mod Refinement
pub mod Readers
pub mod Stale
use lumenvec.Base.{
  ℕ, zero, suc, ◌+◌, ◌*◌, ◌||◌, Bool, true, false, List, [], ◌∷◌, Option, none, some, Text, Text-Eq,
  Map, lookup, delete, length, ltb, if◌then◌else◌,
}
use lumenvec.Base.Ints.{ℤ, pos, negsuc, is_nonpos, is_above, to_ℕ, add_ℤ, sub_ℤ, positive_or}
use lumenvec.Numeric.{Floats, Vector, to_float32}

pub record CacheOptions : Type 0 where
  pub enabled : Bool
  pub max_bytes : ℤ
  pub max_items : ℤ
  pub ttl : ℤ

-- Read by DiskStats and Stats of the server.
pub record CacheStats : Type 0 where
  pub hits : ℕ
  pub misses : ℕ
  pub evictions : ℕ
  pub items : ℕ
  pub bytes : ℕ

module _ (fl : Floats) where
  open fl use {F64, F32}

  -- An entry without an expiry has the zero time.
  pub record CacheEntry : Type 0 where
    pub values : List F32
    pub expires_at : Option ℕ
    pub size_bytes : ℕ

  pub record Cache : Type 0 where
    pub max_bytes : ℕ
    pub max_items : ℕ
    pub ttl : ℤ
    pub order : Map Text CacheEntry
    pub current_bytes : ℤ
    pub hits : ℕ
    pub misses : ℕ
    pub evictions : ℕ
    -- how often the time has been read
    pub ticks : ℕ

  -- The limits that newCachedVectorStore sets; 8 << 20 bytes where none is given.
  unfoldable pub new_cache : CacheOptions → Cache
  new_cache opts = record {
    max_bytes = positive_or opts.max_bytes 0x800000;
    max_items = positive_or opts.max_items 1024;
    ttl = opts.ttl;
    order = [];
    current_bytes = pos 0;
    hits = 0;
    misses = 0;
    evictions = 0;
    ticks = 0;
  }

  unfoldable pub estimate_vector_size_bytes32 : Text → List F32 → ℕ
  estimate_vector_size_bytes32 id values = length id + length values * 4

  -- s.order.Back()
  unfoldable pub back : Map Text CacheEntry → Option (Text × CacheEntry)
  back [] = none
  back (e ∷ []) = some e
  back (e ∷ f ∷ es) = back (f ∷ es)

  unfoldable pub remove_element : Option (Text × CacheEntry) → Cache → Cache
  remove_element none c = c
  remove_element (some (id, entry)) c = record c {
    order = delete id c.order;
    current_bytes = sub_ℤ c.current_bytes entry.size_bytes;
  }

  unfoldable pub remove_cached : Text → Cache → Cache
  remove_cached id c = elim (lookup id c.order) [
    | none ↦ c
    | some entry ↦ remove_element (some (id, entry)) c
  ]

  -- The condition of the loop in evictLocked.
  unfoldable pub is_over : Cache → Bool
  is_over c = ltb c.max_items (length c.order) || is_above c.current_bytes c.max_bytes

  -- Each round removes one entry, so the number of entries is fuel enough.
  unfoldable pub evict : ℕ → Cache → Cache
  evict zero c = c
  evict (suc fuel) c =
      let rest =
        evict fuel (remove_element (back c.order) (record c { evictions = c.evictions + 1 })) in
      if is_over c then rest else c

  -- The rest of putLocked32, where the entry's fields are known.
  unfoldable pub put_entry : Text → CacheEntry → Cache → Cache
  put_entry id entry c = elim (lookup id c.order) [
    | some old ↦
        let c' : Cache = record c {
          order = (id, entry) ∷ delete id c.order;
          current_bytes = add_ℤ (sub_ℤ c.current_bytes old.size_bytes) entry.size_bytes;
        } in
        evict (length c'.order) c'
    | none ↦
        let c' : Cache = record c {
          order = (id, entry) ∷ c.order;
          current_bytes = add_ℤ c.current_bytes entry.size_bytes;
        } in
        evict (length c'.order) c'
  ]

  module _ (clock : ℕ → ℕ) where
    -- time.Now()
    unfoldable pub now : Cache → ℕ × Cache
    now c = (clock c.ticks, record c { ticks = c.ticks + 1 })

    unfoldable pub next_expiry : Cache → Option ℕ × Cache
    next_expiry c =
        if is_nonpos c.ttl then (none, c) else let (t, c') = now c in (some (t + to_ℕ c.ttl), c')

    unfoldable pub is_expired : CacheEntry → Cache → Bool × Cache
    is_expired entry c = elim entry.expires_at [
      | none ↦ (false, c)
      | some t ↦ let (u, c') = now c in (ltb t u, c')
    ]

    unfoldable pub put32 : Text → List F32 → Cache → Cache
    put32 id values c =
        let (expiry, c') = next_expiry c in
        put_entry id
          (record {
            values = values;
            expires_at = expiry;
            size_bytes = estimate_vector_size_bytes32 id values;
          })
          c'

    unfoldable pub put_vector : Vector F64 → Cache → Cache
    put_vector vec c = put32 vec.id (to_float32 fl vec.values) c

    -- getCachedReadOnly32. The two other readers differ in the conversion of the values only.
    unfoldable pub get_cached_read_only32 : Text → Cache → Option (List F32) × Cache
    get_cached_read_only32 id c = elim (lookup id c.order) [
      | none ↦ (none, c)
      | some entry ↦
          let (expired, c') = is_expired entry c in
          if expired
          then (none, remove_element (some (id, entry)) (record c' { misses = c'.misses + 1 }))
          else (
            some entry.values,
            record c' { hits = c'.hits + 1; order = (id, entry) ∷ delete id c'.order },
          )
    ]

  unfoldable pub stats : Cache → CacheStats
  stats c = record {
    hits = c.hits;
    misses = c.misses;
    evictions = c.evictions;
    items = length c.order;
    bytes = to_ℕ c.current_bytes;
  }
