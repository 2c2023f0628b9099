-- ===== src/CachedStore/Reading.antt =====
-- Reading the cache, and removing an id from it.
use lumenvec.Base.{
  ℕ, ◌+◌, ◌≡◌, refl, ◌⊎◌, inl, inr, false, ◌∷◌, none, some, Text, Text-Eq, text_eq_refl,
  text_eq_iff, lookup, delete, lookup-delete, arith, delete-AreDistinct, length-delete-lt,
  Option-cases, Bool-cases,
}
use lumenvec.Numeric.{Floats}
use lumenvec.CachedStore.{
  CacheEntry, Cache, remove_element, remove_cached, is_over, is_expired, get_cached_read_only32,
  now,
}
use lumenvec.CachedStore.Counting.{
  IsCounted, cached, total-delete, remove_element-IsCounted, cached-delete,
}

module _ (fl : Floats) where
  open fl use {F64, F32}

  -- The cache counts rightly and is within its limits.
  pub record IsValid (c : Cache fl) : Type 0 where
    pub counted : IsCounted fl c
    pub within : is_over fl c ≡ false

  remove_element-within :
      (k : Text) (e : CacheEntry fl) (c : Cache fl)
      → IsValid c
      → lookup k c.order ≡ some e
      → is_over fl (remove_element fl (some (k, e)) c) ≡ false
  unfolding is_over remove_element
  remove_element-within k e c h hit =
      let removed = remove_element-IsCounted fl k e c h.counted hit in
      ground (
        arith,
        h.counted.bytes,
        h.within,
        length-delete-lt k c.order e hit,
        total-delete fl k c.order e h.counted.distinct hit,
      )

  -- What removing entries and moving them to the front leads to: the limits stay, and what is held
  -- for an id is as before or gone.
  pub record Shrinks (old new : Cache fl) : Type 0 where
    pub valid : IsValid new
    pub max_items : new.max_items ≡ old.max_items
    pub max_bytes : new.max_bytes ≡ old.max_bytes
    pub ttl : new.ttl ≡ old.ttl
    pub kept : (j : Text) → (cached fl new j ≡ cached fl old j) ⊎ (cached fl new j ≡ none)

  remove_element-Shrinks :
      (k : Text) (e : CacheEntry fl) (c : Cache fl)
      → IsValid c
      → lookup k c.order ≡ some e
      → Shrinks c (remove_element fl (some (k, e)) c)
        × (cached fl (remove_element fl (some (k, e)) c) k ≡ none)
  unfolding remove_element
  remove_element-Shrinks k e c h hit = (
    record {
      valid = record {
        counted = remove_element-IsCounted fl k e c h.counted hit;
        within = remove_element-within k e c h hit;
      };
      max_items = refl;
      max_bytes = refl;
      ttl = refl;
      kept = λ j. ground (arith, cached-delete fl k j c.order);
    },
    ground (arith, cached-delete fl k k c.order, text_eq_refl k),
  )

  pub remove-Shrinks :
      (k : Text) (c : Cache fl)
      → IsValid c
      → Shrinks c (remove_cached fl k c) × (cached fl (remove_cached fl k c) k ≡ none)
  unfolding remove_cached
  remove-Shrinks k c h = elim (Option-cases (lookup k c.order)) [
    | inl miss ↦
        rw (miss, remove_cached)
          (
            record {
              valid = h;
              max_items = refl;
              max_bytes = refl;
              ttl = refl;
              kept = λ j. inl refl;
            },
            rw miss refl,
          )
    | inr (e, hit) ↦ rw (hit, remove_cached) (remove_element-Shrinks k e c h hit)
  ]

  -- A hit moves the entry to the front.
  front-Shrinks :
      (k : Text) (e : CacheEntry fl) (n : ℕ) (c : Cache fl)
      → IsValid c
      → lookup k c.order ≡ some e
      → Shrinks c (record c { hits = c.hits + 1; ticks = n; order = (k, e) ∷ delete k c.order })
  unfolding is_over lookup
  front-Shrinks k e n c h hit =
      let sum = total-delete fl k c.order e h.counted.distinct hit in
      record {
        valid = record {
          counted = record {
            bytes = rw h.counted.bytes (ground (arith, sum));
            distinct = (
              ground (arith, lookup-delete k k c.order, text_eq_refl k),
              delete-AreDistinct k c.order h.counted.distinct,
            );
          };
          within = ground (arith, h.within, length-delete-lt k c.order e hit);
        };
        max_items = refl;
        max_bytes = refl;
        ttl = refl;
        kept = λ j. ground (arith, cached-delete fl k j c.order, text_eq_iff k j, hit);
      }

  module _ (clock : ℕ → ℕ) where
    is_expired-ticks :
        (e : CacheEntry fl) (c : Cache fl)
        → (n : ℕ) × ((is_expired fl clock e c).1 ≡ record c { ticks = n })
    unfolding is_expired now
    is_expired-ticks e c = elim (Option-cases e.expires_at) [
      | inl without ↦ (c.ticks, rw (without, is_expired) refl)
      | inr (t, limited) ↦ (c.ticks + 1, rw (limited, is_expired) refl)
    ]

    -- Reading returns the values that are held, or nothing.
    pub get_cached-Shrinks :
        (k : Text) (c : Cache fl)
        → IsValid c
        → Shrinks c (get_cached_read_only32 fl clock k c).1
          × (((get_cached_read_only32 fl clock k c).0 ≡ cached fl c k)
              ⊎ ((get_cached_read_only32 fl clock k c).0 ≡ none))
    unfolding get_cached_read_only32 is_over remove_element
    get_cached-Shrinks k c h = elim (Option-cases (lookup k c.order)) [
      | inl miss ↦
          rw (miss, get_cached_read_only32)
            (
              record {
                valid = h;
                max_items = refl;
                max_bytes = refl;
                ttl = refl;
                kept = λ j. inl refl;
              },
              inr refl,
            )
      | inr (e, hit) ↦
          let (n, same) = is_expired-ticks e c in
          elim (Bool-cases (is_expired fl clock e c).0) [
            | inl late ↦
                let c' : Cache fl = record c { ticks = n; misses = c.misses + 1 } in
                let valid : IsValid c' = record {
                  counted = record { bytes = h.counted.bytes; distinct = h.counted.distinct };
                  within = h.within;
                } in
                let (gone, _) = remove_element-Shrinks k e c' valid hit in
                rw (hit, get_cached_read_only32, late, same)
                  (
                    record {
                      valid = gone.valid;
                      max_items = refl;
                      max_bytes = refl;
                      ttl = refl;
                      kept = gone.kept;
                    },
                    inr refl,
                  )
            | inr early ↦
                rw (hit, get_cached_read_only32, early, same)
                  (front-Shrinks k e n c h hit, inl refl)
          ]
    ]
