-- ===== src/Base/Distinct.antt =====
-- Association lists in which each key has one entry, as the recency lists of the two caches.
use Prim.Native.Nat.{◌≤◌, ◌<◌}
use mathlib.Core.Path.{◌≡◌, refl}
use mathlib.Core.List.{[], ◌∷◌}
use mathlib.Core.Option.{none, some}
use native.Mathlib.Omega.{arith}
use lumenvec.Base.Tests.{Eq}
use lumenvec.Base.Lists.{length}
use lumenvec.Base.Maps.{Map, lookup, insert, delete, lookup-insert, lookup-delete}

module _ {ℓ κ} {K : Type ℓ} ⦃e : Eq K⦄ {V : Type κ} where
  abbrev pub AreDistinct : Map K V → Type κ
  AreDistinct [] = Unit
  AreDistinct ((k, v) ∷ es) = (lookup k es ≡ none) × AreDistinct es

  pub delete-AreDistinct : (k : K) (es : Map K V) → AreDistinct es → AreDistinct (delete k es)
  unfolding delete lookup
  delete-AreDistinct k [] h = tt
  delete-AreDistinct k ((j, v) ∷ es) h =
      ground (arith, delete-AreDistinct k es, lookup-delete k j es, e.test_iff k j, e.test_iff j k)

  pub length-delete-le : (k : K) (es : Map K V) → length (delete k es) ≤ length es
  unfolding delete
  length-delete-le k [] = omega arith
  length-delete-le k ((j, v) ∷ es) = ground (arith, length-delete-le k es)

  pub length-delete-lt :
      (k : K) (es : Map K V) (v : V) → lookup k es ≡ some v → length (delete k es) < length es
  unfolding delete lookup
  length-delete-lt k [] v h = ground arith
  length-delete-lt k ((j, w) ∷ es) v h =
      ground (arith, length-delete-lt k es v, length-delete-le k es)

  pub delete_fresh : (k : K) (es : Map K V) → lookup k es ≡ none → delete k es ≡ es
  unfolding delete lookup
  delete_fresh k [] h = refl
  delete_fresh k ((j, v) ∷ es) h = ground (arith, delete_fresh k es)

  pub insert-AreDistinct :
      (k : K) (v : V) (es : Map K V) → AreDistinct es → AreDistinct (insert k v es)
  unfolding insert lookup
  insert-AreDistinct k v [] h = (refl, tt)
  insert-AreDistinct k v ((j, w) ∷ es) h =
      ground
        (arith, insert-AreDistinct k v es, lookup-insert k j v es, e.test_iff k j, e.test_iff j k)
