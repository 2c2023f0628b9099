-- ===== src/CachedStore/Eviction.antt =====
-- The eviction loop ends within the limits, and takes entries only.
use lumenvec.Base.{
  subst, ℕ, zero, suc, ◌+◌, ◌≤◌, ◌≡◌, refl, ◌∙◌, ◌⊎◌, inl, inr, true, false, [], ◌∷◌, some, Text,
  Text-Eq, text_eq_refl, text_eq_iff, ◌==◌, lookup, delete, length, arith, AreDistinct,
  length-delete-lt, Bool-cases,
}
use lumenvec.Numeric.{Floats}
use lumenvec.CachedStore.{CacheEntry, Cache, back, remove_element, is_over, evict}
use lumenvec.CachedStore.Counting.{
  Entries, IsCounted, Narrows, Narrows-refl, Narrows-trans, back-lookup, back-some,
  remove_element-IsCounted, remove_element-Narrows,
}

module _ (fl : Floats) where
  open fl use {F64, F32}

  empty_is_within : (c : Cache fl) → IsCounted fl c → c.order ≡ [] → is_over fl c ≡ false
  unfolding is_over
  empty_is_within c h e = rw (e, is_over, h.bytes) (ground arith)

  no_entries : (es : Entries fl) → length es ≤ 0 → es ≡ []
  no_entries [] h = refl
  no_entries (x ∷ es) h = absurd (omega arith)

  -- The last entry of a list that has one.
  Back : Entries fl → Type 0
  Back es = (k : Text) × (e : CacheEntry fl) × (back fl es ≡ some (k, e)) × (lookup k es ≡ some e)

  Back-cases : (es : Entries fl) → AreDistinct es → (es ≡ []) ⊎ Back es
  unfolding Back
  Back-cases [] d = inl refl
  Back-cases (x ∷ es) d =
      let (k, e, last) = back-some fl x es in inr (k, e, last, back-lookup fl (x ∷ es) k e d last)

  pub record Evicted (old new : Cache fl) : Type 0 where
    pub counted : IsCounted fl new
    pub within : is_over fl new ≡ false
    pub narrows : Narrows fl old new

  evict_round :
      (fuel : ℕ) (c : Cache fl)
      → ((c' : Cache fl) → IsCounted fl c' → length c'.order ≤ fuel → Evicted c' (evict fl fuel c'))
      → IsCounted fl c
      → length c.order ≤ suc fuel
      → Back c.order
      → Evicted c (
          evict fl fuel
            (remove_element fl (back fl c.order) (record c { evictions = c.evictions + 1 })))
  unfolding Back remove_element
  evict_round fuel c next h enough (k, e, last, hit) =
      let c' : Cache fl = record c { evictions = c.evictions + 1 } in
      let counted : IsCounted fl c' = record { bytes = h.bytes; distinct = h.distinct } in
      let same : Narrows fl c c' = record {
        max_items = refl;
        max_bytes = refl;
        ttl = refl;
        kept = λ j. inl refl;
      } in
      let removed = remove_element fl (some (k, e)) c' in
      let rest =
        next removed (remove_element-IsCounted fl k e c' counted hit)
          (ground (arith, length-delete-lt k c.order e hit)) in
      rw last (record {
        counted = rest.counted;
        within = rest.within;
        narrows = Narrows-trans fl c c' (evict fl fuel removed) same (
            Narrows-trans fl c' removed (evict fl fuel removed) (remove_element-Narrows fl k e c')
              rest.narrows);
      })

  -- Where the count of bytes is right and each id has one entry, the loop of evictLocked ends within
  -- as many rounds as there are entries: then neither limit is exceeded, the count is right, and
  -- what is held for an id is as before or gone.
  pub evict-Evicted :
      (fuel : ℕ) (c : Cache fl)
      → IsCounted fl c
      → length c.order ≤ fuel
      → Evicted c (evict fl fuel c)
  unfolding evict
  evict-Evicted zero c h enough = record {
    counted = h;
    within = empty_is_within c h (no_entries c.order enough);
    narrows = Narrows-refl fl c;
  }
  evict-Evicted (suc fuel) c h enough = elim (Bool-cases (is_over fl c)) [
    | inr within ↦
        rw (within, evict) (record { counted = h; within = within; narrows = Narrows-refl fl c })
    | inl over ↦
        rw (over, evict)
          (elim (Back-cases c.order h.distinct) [
            | inl empty ↦ absurd (ground (arith, empty_is_within c h empty))
            | inr last ↦ evict_round fuel c (evict-Evicted fuel) h enough last
          ])
  ]

  -- One entry that fits by itself is within the limits.
  alone_is_within :
      (k : Text) (e : CacheEntry fl) (c : Cache fl)
      → IsCounted fl c
      → c.order ≡ (k, e) ∷ []
      → e.size_bytes ≤ c.max_bytes
      → 1 ≤ c.max_items
      → is_over fl c ≡ false
  unfolding is_over
  alone_is_within k e c h same fits room = rw (same, is_over, h.bytes) (ground arith)

  -- Removing the last of at least two entries leaves the first.
  remove_back :
      (k : Text) (e : CacheEntry fl) (x : Text × CacheEntry fl) (es : Entries fl) (c : Cache fl)
      → IsCounted fl c
      → c.order ≡ (k, e) ∷ x ∷ es
      → (rest : Entries fl) × (c' : Cache fl) × (remove_element fl (back fl c.order) c ≡ c')
        × IsCounted fl c'
        × (c'.order ≡ (k, e) ∷ rest)
        × (c'.max_bytes ≡ c.max_bytes)
        × (c'.max_items ≡ c.max_items)
        × (c'.ticks ≡ c.ticks)
  unfolding Back back delete lookup remove_element
  remove_back k e x es c h same =
      let d : AreDistinct ((k, e) ∷ x ∷ es) = subst AreDistinct same h.distinct in
      elim (Back-cases (x ∷ es) d.1) [
        | inl empty ↦ absurd (ground arith)
        | inr (j, f, last, hit) ↦
            let other : k == j ≡ false = ground (arith, text_eq_iff k j) in
            let found : lookup j c.order ≡ some f = rw same (ground (arith, other, hit)) in
            (
              delete j (x ∷ es),
              remove_element fl (some (j, f)) c,
              rw (same, last) refl,
              remove_element-IsCounted fl j f c h found,
              rw same (ground (arith, other)),
              refl,
              refl,
              refl,
            )
      ]

  lookup_front :
      (k : Text) (e : CacheEntry fl) (es es' : Entries fl)
      → es' ≡ (k, e) ∷ es
      → lookup k es' ≡ some e
  unfolding lookup
  lookup_front k e es es' same = rw same (ground (arith, text_eq_refl k))

  -- A round of the loop where the newest entry fits.
  evict_past :
      (fuel : ℕ) (k : Text) (e : CacheEntry fl) (es : Entries fl) (c : Cache fl)
      → ((rest : Entries fl) (c' : Cache fl)
          → IsCounted fl c'
          → c'.order ≡ (k, e) ∷ rest
          → e.size_bytes ≤ c'.max_bytes
          → 1 ≤ c'.max_items
          → (lookup k (evict fl fuel c').order ≡ some e) × ((evict fl fuel c').ticks ≡ c'.ticks))
      → IsCounted fl c
      → c.order ≡ (k, e) ∷ es
      → e.size_bytes ≤ c.max_bytes
      → 1 ≤ c.max_items
      → is_over fl c ≡ true
      → let c' =
          evict fl fuel
            (remove_element fl (back fl c.order) (record c { evictions = c.evictions + 1 })) in
        (lookup k c'.order ≡ some e) × (c'.ticks ≡ c.ticks)
  evict_past fuel k e [] c next h same fits room over =
      absurd (ground (arith, alone_is_within k e c h same fits room))
  evict_past fuel k e (x ∷ es) c next h same fits room over =
      let c' : Cache fl = record c { evictions = c.evictions + 1 } in
      let (rest, removed, eq, counted, shape, bytes, items, ticks) =
        remove_back k e x es c' (record { bytes = h.bytes; distinct = h.distinct }) same in
      let (found, unread) = next rest removed counted shape (rw bytes fits) (rw items room) in
      rw eq (found, unread ∙ ticks)

  -- The newest entry stays where it fits by itself.
  pub evict-front :
      (fuel : ℕ) (k : Text) (e : CacheEntry fl) (es : Entries fl) (c : Cache fl)
      → IsCounted fl c
      → c.order ≡ (k, e) ∷ es
      → e.size_bytes ≤ c.max_bytes
      → 1 ≤ c.max_items
      → (lookup k (evict fl fuel c).order ≡ some e) × ((evict fl fuel c).ticks ≡ c.ticks)
  unfolding evict
  evict-front zero k e es c h same fits room = (lookup_front k e es c.order same, refl)
  evict-front (suc fuel) k e es c h same fits room = elim (Bool-cases (is_over fl c)) [
    | inr within ↦ rw (within, evict) (lookup_front k e es c.order same, refl)
    | inl over ↦
        rw (over, evict) (evict_past fuel k e es c (evict-front fuel k e) h same fits room over)
  ]
