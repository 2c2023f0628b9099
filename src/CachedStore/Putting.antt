-- ===== src/CachedStore/Putting.antt =====
-- putLocked32: what the cache counts and may return afterwards.
use lumenvec.Base.{
  ℕ, ◌+◌, ◌≤◌, ◌≡◌, refl, ◌⊎◌, inl, inr, false, List, ◌∷◌, none, some, Text, Text-Eq, text_eq_refl,
  ◌==◌, lookup, delete, lookup-delete, length, arith, delete-AreDistinct, Option-cases, Bool-cases,
  if◌then◌else◌,
}
use lumenvec.Base.Ints.{is_nonpos, sub_ℤ, add_ℤ}
use lumenvec.Numeric.{Floats}
use lumenvec.CachedStore.{
  CacheEntry, Cache, is_over, put_entry, next_expiry, put32, estimate_vector_size_bytes32, now,
}
use lumenvec.CachedStore.Counting.{IsCounted, cached, total-delete, cached-delete}
use lumenvec.CachedStore.Eviction.{evict-Evicted, evict-front}

module _ (fl : Floats) where
  open fl use {F64, F32}

  -- What a new entry at the front leads to.
  pub record Puts (k : Text) (v : List F32) (old new : Cache fl) : Type 0 where
    pub counted : IsCounted fl new
    pub within : is_over fl new ≡ false
    pub max_items : new.max_items ≡ old.max_items
    pub max_bytes : new.max_bytes ≡ old.max_bytes
    pub ttl : new.ttl ≡ old.ttl
    pub kept :
        (j : Text)
        → (cached fl new j ≡ (if k == j then some v else cached fl old j))
          ⊎ (cached fl new j ≡ none)

  added-IsCounted :
      (k : Text) (e : CacheEntry fl) (c : Cache fl)
      → IsCounted fl c
      → lookup k c.order ≡ none
      → IsCounted fl (record c {
        order = (k, e) ∷ c.order;
        current_bytes = add_ℤ c.current_bytes e.size_bytes;
      })
  added-IsCounted k e c h miss = record {
    bytes = rw h.bytes (ground arith);
    distinct = (miss, h.distinct);
  }

  replaced-IsCounted :
      (k : Text) (e old : CacheEntry fl) (c : Cache fl)
      → IsCounted fl c
      → lookup k c.order ≡ some old
      → IsCounted fl (record c {
        order = (k, e) ∷ delete k c.order;
        current_bytes = add_ℤ (sub_ℤ c.current_bytes old.size_bytes) e.size_bytes;
      })
  replaced-IsCounted k e old c h hit = record {
    bytes = rw h.bytes (ground (arith, total-delete fl k c.order old h.distinct hit));
    distinct = (
      ground (arith, lookup-delete k k c.order, text_eq_refl k),
      delete-AreDistinct k c.order h.distinct,
    );
  }

  put_entry-miss :
      (k : Text) (e : CacheEntry fl) (c : Cache fl)
      → IsCounted fl c
      → lookup k c.order ≡ none
      → Puts k e.values c (put_entry fl k e c)
  unfolding put_entry lookup
  put_entry-miss k e c h miss =
      let c' : Cache fl = record c {
        order = (k, e) ∷ c.order;
        current_bytes = add_ℤ c.current_bytes e.size_bytes;
      } in
      let rest =
        evict-Evicted fl (length c'.order) c' (added-IsCounted k e c h miss) (omega arith) in
      rw (miss, put_entry)
        (record {
          counted = rest.counted;
          within = rest.within;
          max_items = rest.narrows.max_items;
          max_bytes = rest.narrows.max_bytes;
          ttl = rest.narrows.ttl;
          kept = λ j. ground (arith, rest.narrows.kept j);
        })

  put_entry-hit :
      (k : Text) (e old : CacheEntry fl) (c : Cache fl)
      → IsCounted fl c
      → lookup k c.order ≡ some old
      → Puts k e.values c (put_entry fl k e c)
  unfolding put_entry lookup
  put_entry-hit k e old c h hit =
      let c' : Cache fl = record c {
        order = (k, e) ∷ delete k c.order;
        current_bytes = add_ℤ (sub_ℤ c.current_bytes old.size_bytes) e.size_bytes;
      } in
      let rest =
        evict-Evicted fl (length c'.order) c' (replaced-IsCounted k e old c h hit) (omega arith) in
      rw (hit, put_entry)
        (record {
          counted = rest.counted;
          within = rest.within;
          max_items = rest.narrows.max_items;
          max_bytes = rest.narrows.max_bytes;
          ttl = rest.narrows.ttl;
          kept = λ j. ground (arith, rest.narrows.kept j, cached-delete fl k j c.order);
        })

  put_entry-Puts :
      (k : Text) (e : CacheEntry fl) (c : Cache fl)
      → IsCounted fl c
      → Puts k e.values c (put_entry fl k e c)
  put_entry-Puts k e c h = elim (Option-cases (lookup k c.order)) [
    | inl miss ↦ put_entry-miss k e c h miss
    | inr (old, hit) ↦ put_entry-hit k e old c h hit
  ]

  -- The entry is found afterwards where it fits by itself.
  pub put_entry-found :
      (k : Text) (e : CacheEntry fl) (c : Cache fl)
      → IsCounted fl c
      → e.size_bytes ≤ c.max_bytes
      → 1 ≤ c.max_items
      → (lookup k (put_entry fl k e c).order ≡ some e) × ((put_entry fl k e c).ticks ≡ c.ticks)
  unfolding put_entry lookup
  put_entry-found k e c h fits room = elim (Option-cases (lookup k c.order)) [
    | inl miss ↦
        let c' : Cache fl = record c {
          order = (k, e) ∷ c.order;
          current_bytes = add_ℤ c.current_bytes e.size_bytes;
        } in
        rw (miss, put_entry)
          (evict-front fl (length c'.order) k e c.order c' (added-IsCounted k e c h miss) refl fits
            room)
    | inr (old, hit) ↦
        let c' : Cache fl = record c {
          order = (k, e) ∷ delete k c.order;
          current_bytes = add_ℤ (sub_ℤ c.current_bytes old.size_bytes) e.size_bytes;
        } in
        rw (hit, put_entry)
          (evict-front fl (length c'.order) k e (delete k c.order) c'
            (replaced-IsCounted k e old c h hit) refl fits room)
  ]

  module _ (clock : ℕ → ℕ) where
    pub next_expiry-ticks :
        (c : Cache fl) → (n : ℕ) × ((next_expiry fl clock c).1 ≡ record c { ticks = n })
    unfolding next_expiry now
    next_expiry-ticks c = elim (Bool-cases (is_nonpos c.ttl)) [
      | inl without ↦ (c.ticks, rw (without, next_expiry) refl)
      | inr limited ↦ (c.ticks + 1, rw (limited, next_expiry) refl)
    ]

    pub put32-Puts :
        (k : Text) (v : List F32) (c : Cache fl)
        → IsCounted fl c
        → Puts k v c (put32 fl clock k v c)
    unfolding put32
    put32-Puts k v c h =
        let (n, same) = next_expiry-ticks c in
        let c' : Cache fl = record c { ticks = n } in
        let e : CacheEntry fl = record {
          values = v;
          expires_at = (next_expiry fl clock c).0;
          size_bytes = estimate_vector_size_bytes32 fl k v;
        } in
        let counted : IsCounted fl c' = record { bytes = h.bytes; distinct = h.distinct } in
        let p = put_entry-Puts k e c' counted in
        rw same (record {
          counted = p.counted;
          within = p.within;
          max_items = p.max_items;
          max_bytes = p.max_bytes;
          ttl = p.ttl;
          kept = p.kept;
        })
