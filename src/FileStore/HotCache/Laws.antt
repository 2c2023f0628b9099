-- ===== src/FileStore/HotCache/Laws.antt =====
-- What the hot cache returns, and how much it holds.
use lumenvec.Base.{
  ℕ, zero, suc, ◌≤◌, ◌≡◌, refl, sym, ap, ◌∙◌, ◌⊎◌, inl, inr, false, List, [], ◌∷◌, none, some, Text,
  Text-Eq, ◌==◌, Map, lookup, delete, lookup-delete, length, arith, AreDistinct, delete-AreDistinct,
  length-delete-lt, Option-cases, Bool-cases, text_eq_refl,
}
use lumenvec.Base.Ints.{ℤ, pos, is_below}
use lumenvec.Numeric.{Floats}
use lumenvec.FileStore.HotCache.{
  HotCache, ensure_hot_cache, get_hot_vector, evict_oldest, shrink, put_hot_vector,
}

module _ (fl : Floats) where
  open fl use {F32}

  -- A cache with a limit, which its entries do not exceed; each id has one entry.
  pub record IsValid (n : ℕ) (c : HotCache fl) : Type 0 where
    pub limit : c.max_items ≡ pos (suc n)
    pub size : length c.order ≤ suc n
    pub distinct : AreDistinct c.order

  length-evict_oldest :
      (e : Text × List F32) (es : Map Text (List F32))
      → length (evict_oldest fl (e ∷ es)) ≡ length es
  unfolding evict_oldest
  length-evict_oldest e [] = refl
  length-evict_oldest e (f ∷ es) = omega (arith, length-evict_oldest f es)

  -- Eviction takes entries only: what is left is as before.
  abbrev Keeps : Map Text (List F32) → Map Text (List F32) → Type 0
  Keeps new old = (j : Text) → (lookup j new ≡ lookup j old) ⊎ (lookup j new ≡ none)

  evict_oldest-Keeps : (es : Map Text (List F32)) → Keeps (evict_oldest fl es) es
  unfolding evict_oldest lookup
  evict_oldest-Keeps [] j = inl refl
  evict_oldest-Keeps ((k, v) ∷ []) j = inr refl
  evict_oldest-Keeps ((k, v) ∷ f ∷ es) j = ground (arith, evict_oldest-Keeps (f ∷ es) j)

  evict_oldest-AreDistinct :
      (es : Map Text (List F32)) → AreDistinct es → AreDistinct (evict_oldest fl es)
  unfolding evict_oldest
  evict_oldest-AreDistinct [] h = tt
  evict_oldest-AreDistinct ((k, v) ∷ []) h = tt
  evict_oldest-AreDistinct ((k, v) ∷ f ∷ es) h =
      (ground (arith, evict_oldest-Keeps (f ∷ es) k, h.0), evict_oldest-AreDistinct (f ∷ es) h.1)

  shrink-fits :
      (fuel : ℕ) (limit : ℤ) (es : Map Text (List F32))
      → is_below limit (length es) ≡ false
      → shrink fl fuel limit es ≡ es
  unfolding shrink
  shrink-fits zero limit es h = refl
  shrink-fits (suc fuel) limit es h = rw h

  -- What a new entry at the front leads to.
  abbrev Admits : ℕ → Text → List F32 → Map Text (List F32) → Map Text (List F32) → Type 0
  Admits n k v old new =
      (length new ≤ suc n)
      × AreDistinct new
      × (lookup k new ≡ some v)
      × ((j : Text) → k == j ≡ false → (lookup j new ≡ lookup j old) ⊎ (lookup j new ≡ none))

  front-Admits :
      (n : ℕ) (k : Text) (v : List F32) (es : Map Text (List F32))
      → length es ≤ n
      → AreDistinct ((k, v) ∷ es)
      → Admits n k v es ((k, v) ∷ es)
  unfolding lookup
  front-Admits n k v es h d =
      (omega arith, d, ground (arith, text_eq_refl k), λ j other. inl (ground arith))

  evict-Admits :
      (n : ℕ) (k : Text) (v : List F32) (es : Map Text (List F32))
      → length es ≡ suc n
      → AreDistinct ((k, v) ∷ es)
      → Admits n k v es (evict_oldest fl ((k, v) ∷ es))
  unfolding lookup evict_oldest
  evict-Admits n k v [] h d = absurd (omega arith)
  evict-Admits n k v (f ∷ es) h d = (
    omega (arith, length-evict_oldest f es),
    evict_oldest-AreDistinct ((k, v) ∷ f ∷ es) d,
    ground (arith, text_eq_refl k),
    λ j other. ground (arith, evict_oldest-Keeps (f ∷ es) j),
  )

  -- One entry too many makes one round of the loop.
  shrink-Admits :
      (n : ℕ) (k : Text) (v : List F32) (es : Map Text (List F32))
      → length es ≤ suc n
      → AreDistinct ((k, v) ∷ es)
      → Admits n k v es (shrink fl (suc (length es)) (pos (suc n)) ((k, v) ∷ es))
  unfolding shrink
  shrink-Admits n k v es h d = elim (Bool-cases (is_below (pos (suc n)) (length ((k, v) ∷ es)))) [
    | inr fits ↦
        rw (shrink-fits (suc (length es)) (pos (suc n)) ((k, v) ∷ es) fits)
          (front-Admits n k v es (ground arith) d)
    | inl over ↦
        let full : length es ≡ suc n = ground arith in
        rw
          (
            over,
            shrink-fits (length es) (pos (suc n)) (evict_oldest fl ((k, v) ∷ es))
                (rw (length-evict_oldest (k, v) es) (ground arith)),
          )
          (evict-Admits n k v es full d)
  ]

  replace-Admits :
      (n : ℕ) (k : Text) (v w : List F32) (es : Map Text (List F32))
      → length es ≤ suc n
      → AreDistinct es
      → lookup k es ≡ some w
      → Admits n k v es ((k, v) ∷ delete k es)
  unfolding lookup
  replace-Admits n k v w es h d hit = (
    omega (arith, length-delete-lt k es w hit),
    (ground (arith, lookup-delete k k es, text_eq_refl k), delete-AreDistinct k es d),
    ground (arith, text_eq_refl k),
    λ j other. ground (arith, lookup-delete k j es),
  )

  abbrev cache : ℕ → Map Text (List F32) → HotCache fl
  cache n es = record { order = es; max_items = pos (suc n) }

  put-Admits :
      (n : ℕ) (k : Text) (v : List F32) (es : Map Text (List F32))
      → length es ≤ suc n
      → AreDistinct es
      → (new : Map Text (List F32)) × (put_hot_vector fl k v (cache n es) ≡ cache n new)
        × Admits n k v es new
  unfolding put_hot_vector ensure_hot_cache
  put-Admits n k v es h d = elim (Option-cases (lookup k es)) [
    | inl miss ↦ (
      shrink fl (suc (length es)) (pos (suc n)) ((k, v) ∷ es),
      rw (miss, put_hot_vector),
      shrink-Admits n k v es h (miss, d),
    )
    | inr (w, hit) ↦
        ((k, v) ∷ delete k es, rw (hit, put_hot_vector), replace-Admits n k v w es h d hit)
  ]

  pub get_hot_vector-lookup :
      (k : Text) (c : HotCache fl) → (get_hot_vector fl k c).0 ≡ lookup k c.order
  unfolding get_hot_vector
  get_hot_vector-lookup k c = ground arith

  -- putHotVector on a cache of at least one place, where no id stands twice: the cache then still
  -- has its limit, no more entries than places and no id twice; it returns the new values for their
  -- id, and for another id what it returned before or nothing.
  pub put_hot_vector-IsValid :
      (n : ℕ) (id : Text) (values : List F32) (c : HotCache fl)
      → IsValid n c
      → IsValid n (put_hot_vector fl id values c)
        × ((get_hot_vector fl id (put_hot_vector fl id values c)).0 ≡ some values)
        × ((j : Text)
            → id == j ≡ false
            → ((get_hot_vector fl j (put_hot_vector fl id values c)).0 ≡ (get_hot_vector fl j c).0)
              ⊎ ((get_hot_vector fl j (put_hot_vector fl id values c)).0 ≡ none))
  put_hot_vector-IsValid n id values c h =
      let same : cache n c.order ≡ c = λ i. record { order = c.order; max_items = sym h.limit i } in
      let (new, put, (size, distinct, found, kept)) =
        put-Admits n id values c.order h.size h.distinct in
      let stored : put_hot_vector fl id values c ≡ cache n new =
        ap (put_hot_vector fl id values) (sym same) ∙ put in
      rw stored (
        record { limit = refl; size = size; distinct = distinct },
        get_hot_vector-lookup id (cache n new) ∙ found,
        λ j other.
            ground (
              arith,
              get_hot_vector-lookup j (cache n new),
              get_hot_vector-lookup j c,
              kept j other,
            ),
      )
