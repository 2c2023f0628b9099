-- ===== src/FileStore/Compact/Sizes.antt =====
-- The records of the new file are no longer than those of the old one.
use lumenvec.Base.{
  ℕ, subst, ◌∙◌, ◌≡◌, sym, ap, List, [], ◌∷◌, Option, none, some, Text, Text-Eq, text_eq_iff, ◌==◌,
  Map, length, arith, All, Bool-cases, inl, inr,
}
use lumenvec.Numeric.{Floats, to_float64, to_float32, to_float32-to_float64, length-to_float32}
use lumenvec.OrderedIds.{BTree}
use lumenvec.FileStore.Rebuild.{Meta}
use lumenvec.FileStore.Log.{Entry, Fits}
use lumenvec.FileStore.Reopen.{id_of, left_by, last_values}
use lumenvec.FileStore.Write.Consistency.{puts}
use lumenvec.FileStore.Compact.{live_vectors}
use lumenvec.FileStore.Compact.Values.{ServesAll, live-cons}

module _ (fl : Floats) (bt : BTree) where
  open fl use {F64, F32}

  -- A record for what is left under an id has a length that fits in 32 bits.
  abbrev pub LeftFits : Text → Option (List F32) → Type 0
  LeftFits id none = Unit
  LeftFits id (some v) = Fits fl (Entry.put id (to_float64 fl v))

  length-widened : (xs : List F64) → length (to_float64 fl (to_float32 fl xs)) ≡ length xs
  length-widened xs =
      sym (length-to_float32 fl (to_float64 fl (to_float32 fl xs)))
      ∙ ap (λ (v : List F32). length v) (to_float32-to_float64 fl (to_float32 fl xs))
      ∙ length-to_float32 fl xs

  left_by-LeftFits : (e : Entry fl) → Fits fl e → LeftFits (id_of fl e) (left_by fl e)
  left_by-LeftFits (Entry.put id values) h = omega (arith, length-widened values)
  left_by-LeftFits (Entry.put_float64 id values) h = omega (arith, length-widened values)
  left_by-LeftFits (Entry.delete id) h = tt

  pub last_values-LeftFits :
      (log : List (Entry fl)) (j : Text) (acc : Option (List F32))
      → All (Fits fl) log
      → LeftFits j acc
      → LeftFits j (last_values fl j acc log)
  last_values-LeftFits [] j acc h old = old
  last_values-LeftFits (e ∷ log) j acc h old =
      last_values-LeftFits log j _ h.1 (elim (Bool-cases (id_of fl e == j)) [
        | inl same ↦ rw same (
            subst (λ k. LeftFits k (left_by fl e)) ((text_eq_iff (id_of fl e) j).0 same)
              (left_by-LeftFits e h.0))
        | inr other ↦ rw other old
      ])

  pub live-Fits :
      (file : List ℕ) (vals : Text → Option (List F32)) (m : Map Text Meta)
      → ServesAll fl bt file vals m
      → ((j : Text) → LeftFits j (vals j))
      → All (Fits fl) (puts fl bt (live_vectors fl bt file m))
  unfolding live_vectors
  live-Fits file vals [] h fits = tt
  live-Fits file vals ((k, meta) ∷ m) ((v, held, serves), hs) fits =
      rw (live-cons fl bt file k meta v m serves)
        (subst (LeftFits k) held (fits k), live-Fits file vals m hs fits)
