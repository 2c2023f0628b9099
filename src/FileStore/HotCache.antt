-- ===== src/FileStore/HotCache.antt =====
-- The hot cache of internal/core/file_vector_store.go. The list hotOrder, from its front on, is an
-- association list; the map hotCache finds the list's elements by id and has no other entries.
pub mod Laws
use lumenvec.Base.{
  ℕ, zero, suc, Bool, true, false, List, [], ◌∷◌, Option, none, some, Text, Text-Eq, Map, lookup,
  delete, length, if◌then◌else◌,
}
use lumenvec.Base.Ints.{ℤ, pos, negsuc, is_nonpos, is_below}
use lumenvec.Numeric.{Floats}

module _ (fl : Floats) where
  open fl use {F32}

  pub record HotCache : Type 0 where
    pub order : Map Text (List F32)
    pub max_items : ℤ

  -- ensureHotCacheLocked: no limit set means 1024
  unfoldable pub ensure_hot_cache : HotCache → HotCache
  ensure_hot_cache c = elim c.max_items [
    | pos zero ↦ record c { max_items = pos 1024 }
    | pos (suc n) ↦ c
    | negsuc n ↦ c
  ]

  unfoldable pub get_hot_vector : Text → HotCache → Option (List F32) × HotCache
  get_hot_vector id c = elim (lookup id c.order) [
    | none ↦ (none, c)
    | some values ↦ (some values, record c { order = (id, values) ∷ delete id c.order })
  ]

  -- evictOldestHotVectorLocked, on the list
  unfoldable pub evict_oldest : Map Text (List F32) → Map Text (List F32)
  evict_oldest [] = []
  evict_oldest (e ∷ []) = []
  evict_oldest (e ∷ f ∷ es) = e ∷ evict_oldest (f ∷ es)

  -- The loop of putHotVector; each round takes one entry, so their number is fuel enough.
  unfoldable pub shrink : ℕ → ℤ → Map Text (List F32) → Map Text (List F32)
  shrink zero limit es = es
  shrink (suc fuel) limit es =
      let rest = shrink fuel limit (evict_oldest es) in
      if is_below limit (length es) then rest else es

  unfoldable pub put_hot_vector : Text → List F32 → HotCache → HotCache
  put_hot_vector id values c =
      let c' = ensure_hot_cache c in
      let order = (id, values) ∷ delete id c'.order in
      if is_nonpos c'.max_items then c' else elim (lookup id c'.order) [
        | some _ ↦ record c' { order = order }
        | none ↦ record c' {
          order = shrink (length ((id, values) ∷ c'.order)) c'.max_items ((id, values) ∷ c'.order);
        }
      ]

  unfoldable pub delete_hot_vector : Text → HotCache → HotCache
  delete_hot_vector id c = record c { order = delete id c.order }

  unfoldable pub clear_hot_vectors : HotCache → HotCache
  clear_hot_vectors c = record c { order = [] }
