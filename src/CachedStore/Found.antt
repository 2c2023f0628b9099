-- ===== src/CachedStore/Found.antt =====
-- What has been put into the cache is found there.
use lumenvec.Base.{
  ℕ, ◌+◌, ◌≤◌, ◌≡◌, refl, ◌⊎◌, inl, inr, true, false, List, none, some, Text, Text-Eq, lookup,
  arith, Bool-cases, ltb,
}
use lumenvec.Base.Ints.{is_nonpos, to_ℕ}
use lumenvec.Numeric.{Floats}
use lumenvec.CachedStore.{
  CacheEntry, Cache, is_expired, get_cached_read_only32, now, next_expiry, put32, put_entry,
  estimate_vector_size_bytes32,
}
use lumenvec.CachedStore.Putting.{put_entry-found}
use lumenvec.CachedStore.Reading.{IsValid}

module _ (fl : Floats) (clock : ℕ → ℕ) where
  open fl use {F32}

  get-found :
      (k : Text) (e : CacheEntry fl) (c : Cache fl)
      → lookup k c.order ≡ some e
      → (is_expired fl clock e c).0 ≡ false
      → (get_cached_read_only32 fl clock k c).0 ≡ some e.values
  unfolding get_cached_read_only32
  get-found k e c hit early = rw (hit, get_cached_read_only32, early) refl

  put32-limited :
      (k : Text) (v : List F32) (c : Cache fl)
      → is_nonpos c.ttl ≡ false
      → put32 fl clock k v c
        ≡ put_entry fl k
            (record {
              values = v;
              expires_at = some (clock c.ticks + to_ℕ c.ttl);
              size_bytes = estimate_vector_size_bytes32 fl k v;
            })
            (record c { ticks = c.ticks + 1 })
  unfolding put32 next_expiry now
  put32-limited k v c limited = rw (limited, next_expiry) refl

  put32-get_forever :
      (k : Text) (v : List F32) (c : Cache fl)
      → IsValid fl c
      → estimate_vector_size_bytes32 fl k v ≤ c.max_bytes
      → 1 ≤ c.max_items
      → is_nonpos c.ttl ≡ true
      → (get_cached_read_only32 fl clock k (put32 fl clock k v c)).0 ≡ some v
  unfolding get_cached_read_only32 put32 next_expiry is_expired now
  put32-get_forever k v c h fits room forever =
      let e : CacheEntry fl = record {
        values = v;
        expires_at = none;
        size_bytes = estimate_vector_size_bytes32 fl k v;
      } in
      let (hit, _) = put_entry-found fl k e c h.counted fits room in
      rw (forever, next_expiry, hit, get_cached_read_only32) refl

  -- After putLocked32 of values that fit, getCachedReadOnly32 returns them, where the entry has
  -- not expired in between.
  pub put32-get :
      (k : Text) (v : List F32) (c : Cache fl)
      → IsValid fl c
      → estimate_vector_size_bytes32 fl k v ≤ c.max_bytes
      → 1 ≤ c.max_items
      → (is_nonpos c.ttl ≡ true) ⊎ (clock (c.ticks + 1) ≤ clock c.ticks + to_ℕ c.ttl)
      → (get_cached_read_only32 fl clock k (put32 fl clock k v c)).0 ≡ some v
  unfolding is_expired now
  put32-get k v c h fits room (inl forever) = put32-get_forever k v c h fits room forever
  put32-get k v c h fits room (inr soon) = elim (Bool-cases (is_nonpos c.ttl)) [
    | inl forever ↦ put32-get_forever k v c h fits room forever
    | inr limited ↦
        let c' : Cache fl = record c { ticks = c.ticks + 1 } in
        let e : CacheEntry fl = record {
          values = v;
          expires_at = some (clock c.ticks + to_ℕ c.ttl);
          size_bytes = estimate_vector_size_bytes32 fl k v;
        } in
        let (hit, unread) =
          put_entry-found fl k e c'
            (record { bytes = h.counted.bytes; distinct = h.counted.distinct }) fits room in
        let late : ltb (clock c.ticks + to_ℕ c.ttl) (clock (c.ticks + 1)) ≡ false = ground arith in
        rw (put32-limited k v c limited) (get-found k e (put_entry fl k e c') hit (rw unread late))
  ]
