-- ===== src/CachedStore/Counting.antt =====
-- What the cache counts, and what removing an entry leaves.
use lumenvec.Base.{
  ℕ, ◌+◌, ◌≡◌, refl, ◌∙◌, ◌⊎◌, inl, List, [], ◌∷◌, Option, none, some, Text, Text-Eq, text_eq_refl,
  text_eq_iff, ◌==◌, Map, lookup, delete, lookup-delete, arith, AreDistinct, delete-AreDistinct,
  delete_fresh, if◌then◌else◌,
}
use lumenvec.Base.Ints.{pos}
use lumenvec.Numeric.{Floats}
use lumenvec.CachedStore.{CacheEntry, Cache, back, remove_element}

module _ (fl : Floats) where
  open fl use {F64, F32}

  abbrev pub Entries : Type 0
  Entries = Map Text (CacheEntry fl)

  abbrev pub total : Entries → ℕ
  total [] = 0
  total ((k, e) ∷ es) = e.size_bytes + total es

  -- The count of bytes is that of the entries, and each id has one entry.
  pub record IsCounted (c : Cache fl) : Type 0 where
    pub bytes : c.current_bytes ≡ pos (total c.order)
    pub distinct : AreDistinct c.order

  abbrev pub values_of : Option (CacheEntry fl) → Option (List F32)
  values_of none = none
  values_of (some e) = some e.values

  -- The values that the cache holds for an id.
  abbrev pub cached : Cache fl → Text → Option (List F32)
  cached c j = values_of (lookup j c.order)

  -- The limits stay, and what is held for an id is as before or gone.
  pub record Narrows (old new : Cache fl) : Type 0 where
    pub max_items : new.max_items ≡ old.max_items
    pub max_bytes : new.max_bytes ≡ old.max_bytes
    pub ttl : new.ttl ≡ old.ttl
    pub kept : (j : Text) → (cached new j ≡ cached old j) ⊎ (cached new j ≡ none)

  pub Narrows-refl : (c : Cache fl) → Narrows c c
  Narrows-refl c = record { max_items = refl; max_bytes = refl; ttl = refl; kept = λ j. inl refl }

  pub Narrows-trans : (a b c : Cache fl) → Narrows a b → Narrows b c → Narrows a c
  Narrows-trans a b c f g = record {
    max_items = g.max_items ∙ f.max_items;
    max_bytes = g.max_bytes ∙ f.max_bytes;
    ttl = g.ttl ∙ f.ttl;
    kept = λ j. ground (arith, f.kept j, g.kept j);
  }

  pub total-delete :
      (k : Text) (es : Entries) (e : CacheEntry fl)
      → AreDistinct es
      → lookup k es ≡ some e
      → total (delete k es) + e.size_bytes ≡ total es
  unfolding delete lookup
  total-delete k [] e d h = absurd (ground arith)
  total-delete k ((j, f) ∷ es) e d h =
      ground (arith, total-delete k es e d.1, text_eq_iff j k, delete_fresh k es, delete_fresh j es)

  pub back-lookup :
      (es : Entries) (k : Text) (e : CacheEntry fl)
      → AreDistinct es
      → back fl es ≡ some (k, e)
      → lookup k es ≡ some e
  unfolding back lookup
  back-lookup [] k e d h = absurd (ground arith)
  back-lookup ((j, f) ∷ []) k e d h = ground (arith, text_eq_refl k)
  back-lookup ((j, f) ∷ g ∷ es) k e d h =
      ground (arith, back-lookup (g ∷ es) k e d.1, text_eq_iff j k)

  pub back-some :
      (x : Text × CacheEntry fl) (es : Entries)
      → (k : Text) × (e : CacheEntry fl) × (back fl (x ∷ es) ≡ some (k, e))
  unfolding back
  back-some (k, e) [] = (k, e, refl)
  back-some x (y ∷ es) = back-some y es

  -- Removing an entry that is there.
  pub remove_element-IsCounted :
      (k : Text) (e : CacheEntry fl) (c : Cache fl)
      → IsCounted c
      → lookup k c.order ≡ some e
      → IsCounted (remove_element fl (some (k, e)) c)
  unfolding remove_element
  remove_element-IsCounted k e c h hit = record {
    bytes = rw h.bytes (ground (arith, total-delete k c.order e h.distinct hit));
    distinct = delete-AreDistinct k c.order h.distinct;
  }

  pub cached-delete :
      (k j : Text) (es : Entries)
      → values_of (lookup j (delete k es)) ≡ (if k == j then none else values_of (lookup j es))
  cached-delete k j es = ground (arith, lookup-delete k j es)

  pub remove_element-Narrows :
      (k : Text) (e : CacheEntry fl) (c : Cache fl) → Narrows c (remove_element fl (some (k, e)) c)
  unfolding remove_element
  remove_element-Narrows k e c = record {
    max_items = refl;
    max_bytes = refl;
    ttl = refl;
    kept = λ j. ground (arith, cached-delete k j c.order);
  }
