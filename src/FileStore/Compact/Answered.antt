-- ===== src/FileStore/Compact/Answered.antt =====
-- The records that a compaction reads, where some reads fail.
use lumenvec.Base.{
  ◌≡◌, Bool, List, [], ◌∷◌, Option, none, Text, Text-Eq, text_eq_iff, Map, lookup, arith,
  AreDistinct, Bool-cases, inl, inr, if◌then◌else◌, ℕ,
}
use lumenvec.Numeric.{Floats}
use lumenvec.OrderedIds.{BTree}
use lumenvec.FileStore.Rebuild.{Meta}
use lumenvec.FileStore.Compact.{answered}
use lumenvec.FileStore.Compact.Values.{ServesAll}

module _ (fl : Floats) (bt : BTree) (unreadable : Text → Bool) where
  open fl use {F32}

  pub lookup-answered :
      (j : Text) (m : Map Text Meta)
      → lookup j (answered fl bt unreadable m) ≡ (if unreadable j then none else lookup j m)
  unfolding answered lookup
  lookup-answered j [] = ground arith
  lookup-answered j ((k, meta) ∷ m) = ground (arith, lookup-answered j m, text_eq_iff k j)

  pub answered-AreDistinct :
      (m : Map Text Meta) → AreDistinct m → AreDistinct (answered fl bt unreadable m)
  unfolding answered
  answered-AreDistinct [] h = tt
  answered-AreDistinct ((k, meta) ∷ m) (new, h) = elim (Bool-cases (unreadable k)) [
    | inl lost ↦ rw (lost, answered) (answered-AreDistinct m h)
    | inr read ↦
        rw (read, answered) (ground (arith, lookup-answered k m, new), answered-AreDistinct m h)
  ]

  pub answered-ServesAll :
      (file : List ℕ) (vals : Text → Option (List F32)) (m : Map Text Meta)
      → ServesAll fl bt file vals m
      → ServesAll fl bt file vals (answered fl bt unreadable m)
  unfolding answered
  answered-ServesAll file vals [] h = tt
  answered-ServesAll file vals ((k, meta) ∷ m) (first, h) = elim (Bool-cases (unreadable k)) [
    | inl lost ↦ rw (lost, answered) (answered-ServesAll file vals m h)
    | inr read ↦ rw (read, answered) (first, answered-ServesAll file vals m h)
  ]
