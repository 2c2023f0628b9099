-- ===== src/Service/Batch/Equivalence.antt =====
-- The scan for a batch of queries against the scans for each query alone.
use lumenvec.Base.{
  ◌≡◌, refl, sym, ap, ◌∙◌, true, false, ◌&&◌, List, [], ◌∷◌, Option, none, some, Text, Map, length,
  nat_eq, arith, All, map,
}
use lumenvec.Index.{StoredVector, range_entries32, range_vectors32}
use lumenvec.Distance.{
  Arithmetic, squared_distance32, squared_distance32_same_len, squared_distance32x4_same_len,
}
use lumenvec.Distance.Blocks.{squared_distance32-some, squared_distance32x4-four}
use lumenvec.TopK.{Sorting}
use lumenvec.Service.{Deps, Service}
use lumenvec.Service.Search.{scan_vector}
use lumenvec.Service.Batch.{
  Prepared, add_result, scan_single, both, scan_singles, fits, scan_four, scan_groups, scan_next,
  scan_exact_batch,
}

module _ (d : Deps) (ar : Arithmetic d.floats) (so : Sorting ar.rank) where
  open d use {floats}
  open floats use {F64, F32}

  -- A query of the length of a vector, whose distance to it is a number.
  pub record Measures (vec : StoredVector floats) (p : Prepared d ar) : Type 0 where
    pub same_length : length p.vals32 ≡ length vec.values
    pub number :
        (dist : F64)
        → squared_distance32_same_len floats ar p.vals32 vec.values ≡ some dist
        → ar.is_nan dist ≡ false

  -- What the scan for one query alone leaves of its accumulator.
  unfoldable pub alone : Service d → Prepared d ar → Option (Prepared d ar)
  alone s p = elim (range_vectors32 floats (scan_vector d ar so p.vals32) s.index (some p.acc)) [
    | none ↦ none
    | some a ↦ some (record p { acc = a })
  ]

  unfoldable pub each_alone : Service d → List (Prepared d ar) → Option (List (Prepared d ar))
  each_alone s [] = some []
  each_alone s (p ∷ ps) = both d ar (alone s p) (each_alone s ps)

  distance_of : StoredVector floats → Prepared d ar → Option F64
  distance_of vec p = squared_distance32_same_len floats ar p.vals32 vec.values

  -- A query after one vector.
  step : StoredVector floats → Prepared d ar → Prepared d ar
  step vec p = elim (squared_distance32_same_len floats ar p.vals32 vec.values) [
    | none ↦ p
    | some dist ↦ add_result d ar vec.id dist p
  ]

  measured :
      (vec : StoredVector floats) (p : Prepared d ar)
      → Measures vec p
      → (dist : F64) × (squared_distance32_same_len floats ar p.vals32 vec.values ≡ some dist)
        × (ar.is_nan dist ≡ false)
        × (step vec p ≡ add_result d ar vec.id dist p)
  unfolding step
  measured vec p h =
      let (dist, found) = squared_distance32-some floats ar p.vals32 vec.values h.same_length in
      (dist, found, h.number dist found, rw (found, step) refl)

  scan_single-step :
      (vec : StoredVector floats) (p : Prepared d ar)
      → Measures vec p
      → scan_single d ar vec.id vec.values p ≡ some (step vec p)
  unfolding scan_single squared_distance32
  scan_single-step vec p h =
      let (dist, found, number, stepped) = measured vec p h in
      let fit : nat_eq (length p.vals32) (length vec.values) ≡ true =
        ground (arith, h.same_length) in
      rw (stepped, fit, found, scan_single, number) refl

  scan_singles-step :
      (vec : StoredVector floats) (ps : List (Prepared d ar))
      → All (Measures vec) ps
      → scan_singles d ar vec.id vec.values ps ≡ some (map (step vec) ps)
  unfolding scan_singles
  scan_singles-step vec [] h = refl
  scan_singles-step vec (p ∷ ps) (h, hs) =
      rw (scan_single-step vec p h, scan_singles-step vec ps hs) refl

  scan_four-step :
      (vec : StoredVector floats) (p0 p1 p2 p3 : Prepared d ar) (ps : List (Prepared d ar))
      → Measures vec p0
      → Measures vec p1
      → Measures vec p2
      → Measures vec p3
      → scan_four d ar vec.id vec.values p0 p1 p2 p3 (some ps)
        ≡ some (step vec p0 ∷ step vec p1 ∷ step vec p2 ∷ step vec p3 ∷ ps)
  unfolding scan_four
  scan_four-step vec p0 p1 p2 p3 ps h0 h1 h2 h3 =
      let (d0, f0, n0, s0) = measured vec p0 h0 in
      let (d1, f1, n1, s1) = measured vec p1 h1 in
      let (d2, f2, n2, s2) = measured vec p2 h2 in
      let (d3, f3, n3, s3) = measured vec p3 h3 in
      let fit : fits d ar vec.values p0
            && fits d ar vec.values p1
            && fits d ar vec.values p2
            && fits d ar vec.values p3
          ≡ true =
        ground (arith, h0.same_length, h1.same_length, h2.same_length, h3.same_length) in
      let four : squared_distance32x4_same_len floats ar p0.vals32 p1.vals32 p2.vals32 p3.vals32
            vec.values
          ≡ some (d0, d1, d2, d3) =
        squared_distance32x4-four floats ar p0.vals32 p1.vals32 p2.vals32 p3.vals32 vec.values
          h0.same_length h1.same_length h2.same_length h3.same_length
        ∙ rw (f0, f1, f2, f3) refl in
      rw (fit, scan_four, four, s0, s1, s2, s3) refl

  scan_groups-step :
      (vec : StoredVector floats) (ps : List (Prepared d ar))
      → All (Measures vec) ps
      → scan_groups d ar vec.id vec.values ps ≡ some (map (step vec) ps)
  unfolding scan_groups
  scan_groups-step vec [] h = scan_singles-step vec [] h
  scan_groups-step vec (p ∷ []) h = scan_singles-step vec (p ∷ []) h
  scan_groups-step vec (p ∷ q ∷ []) h = scan_singles-step vec (p ∷ q ∷ []) h
  scan_groups-step vec (p ∷ q ∷ r ∷ []) h = scan_singles-step vec (p ∷ q ∷ r ∷ []) h
  scan_groups-step vec (p0 ∷ p1 ∷ p2 ∷ p3 ∷ ps) (h0, (h1, (h2, (h3, hs)))) =
      rw (scan_groups-step vec ps hs)
        (scan_four-step vec p0 p1 p2 p3 (map (step vec) ps) h0 h1 h2 h3)

  -- A query after all vectors of the index.
  steps : Map Text (StoredVector floats) → Prepared d ar → Prepared d ar
  steps [] p = p
  steps ((_, vec) ∷ m) p = steps m (step vec p)

  step-vals32 : (vec : StoredVector floats) (p : Prepared d ar) → (step vec p).vals32 ≡ p.vals32
  unfolding step
  step-vals32 vec p = ground arith

  step-id : (vec : StoredVector floats) (p : Prepared d ar) → (step vec p).id ≡ p.id
  unfolding step
  step-id vec p = ground arith

  step-vals : (vec : StoredVector floats) (p : Prepared d ar) → (step vec p).vals ≡ p.vals
  unfolding step
  step-vals vec p = ground arith

  -- A query and all vectors.
  abbrev pub MeasuresAll : Map Text (StoredVector floats) → Prepared d ar → Type 0
  MeasuresAll m p = All (λ e. Measures e.1 p) m

  step-Measures :
      (v w : StoredVector floats) (p : Prepared d ar) → Measures w p → Measures w (step v p)
  step-Measures v w p h = record {
    same_length = rw (step-vals32 v p) h.same_length;
    number = rw (step-vals32 v p) h.number;
  }

  step-MeasuresAll :
      (v : StoredVector floats) (m : Map Text (StoredVector floats)) (p : Prepared d ar)
      → MeasuresAll m p
      → MeasuresAll m (step v p)
  step-MeasuresAll v [] p h = tt
  step-MeasuresAll v ((_, w) ∷ m) p (h, hs) = (step-Measures v w p h, step-MeasuresAll v m p hs)

  abbrev Ready : Map Text (StoredVector floats) → List (Prepared d ar) → Type 0
  Ready m = All (MeasuresAll m)

  heads :
      (id : Text) (vec : StoredVector floats) (m : Map Text (StoredVector floats))
      (ps : List (Prepared d ar))
      → Ready ((id, vec) ∷ m) ps
      → All (Measures vec) ps × Ready m (map (step vec) ps)
  heads id vec m [] h = (tt, tt)
  heads id vec m (p ∷ ps) (h, hs) =
      let (first, rest) = heads id vec m ps hs in
      ((h.0, first), (step-MeasuresAll vec m p h.1, rest))

  map-steps_none : (ps : List (Prepared d ar)) → map (steps []) ps ≡ ps
  unfolding steps
  map-steps_none [] = refl
  map-steps_none (p ∷ ps) = ap (◌∷◌ p) (map-steps_none ps)

  map-steps :
      (id : Text) (vec : StoredVector floats) (m : Map Text (StoredVector floats))
      (ps : List (Prepared d ar))
      → map (steps m) (map (step vec) ps) ≡ map (steps ((id, vec) ∷ m)) ps
  unfolding steps
  map-steps id vec m [] = refl
  map-steps id vec m (p ∷ ps) = ap (◌∷◌ (steps m (step vec p))) (map-steps id vec m ps)

  scan_next-step :
      (vec : StoredVector floats) (ps : List (Prepared d ar))
      → All (Measures vec) ps
      → scan_next d ar vec.id vec.values (some ps) ≡ (some (map (step vec) ps), true)
  unfolding scan_next
  scan_next-step vec ps h = rw (scan_groups-step vec ps h, scan_next) refl

  scan-steps :
      (m : Map Text (StoredVector floats)) (ps : List (Prepared d ar))
      → Ready m ps
      → range_entries32 floats (scan_next d ar) m (some ps) ≡ some (map (steps m) ps)
  unfolding range_entries32
  scan-steps [] ps h = ap some (sym (map-steps_none ps))
  scan-steps ((id, vec) ∷ m) ps h =
      let (first, rest) = heads id vec m ps h in
      rw (scan_next-step vec ps first)
        (scan-steps m (map (step vec) ps) rest ∙ ap some (map-steps id vec m ps))

  scan_vector-step :
      (vec : StoredVector floats) (p : Prepared d ar)
      → Measures vec p
      → scan_vector d ar so p.vals32 vec.id vec.values (some p.acc) ≡ (some (step vec p).acc, true)
  unfolding scan_vector
  scan_vector-step vec p h =
      let (dist, found, number, stepped) = measured vec p h in
      rw (stepped, found, scan_vector, number) refl

  alone-steps :
      (m : Map Text (StoredVector floats)) (p : Prepared d ar)
      → MeasuresAll m p
      → (range_entries32 floats (scan_vector d ar so p.vals32) m (some p.acc)
          ≡ some (steps m p).acc)
        × (record p { acc = (steps m p).acc } ≡ steps m p)
  unfolding range_entries32 steps
  alone-steps [] p h = (refl, refl)
  alone-steps ((id, vec) ∷ m) p (h, hs) =
      let (scanned, same) = alone-steps m (step vec p) (step-MeasuresAll vec m p hs) in
      let moved = step-vals32 vec p in
      (
        rw (scan_vector-step vec p h) (
            ap
              (λ query.
                range_entries32 floats (scan_vector d ar so query) m (some (step vec p).acc))
              (sym moved)
            ∙ scanned),
        (λ i. record {
          id = sym (step-id vec p) i;
          vals = sym (step-vals vec p) i;
          vals32 = sym moved i;
          acc = (steps m (step vec p)).acc;
        })
            ∙ same,
      )

  each_alone-steps :
      (s : Service d) (ps : List (Prepared d ar))
      → Ready s.index.vectors ps
      → each_alone s ps ≡ some (map (steps s.index.vectors) ps)
  unfolding each_alone alone range_vectors32
  each_alone-steps s [] h = refl
  each_alone-steps s (p ∷ ps) (h, hs) =
      let (scanned, same) = alone-steps s.index.vectors p h in
      rw (scanned, alone, each_alone-steps s ps hs)
        (ap (λ q. some (q ∷ map (steps s.index.vectors) ps)) same)

  -- The scan for a batch of queries that have the length of every vector in the index, and a distance
  -- to it that is a number: it leaves each query's accumulator as the scan for that query alone does,
  -- whether the query stands in a group of four or behind the groups.
  pub scan_exact_batch-each_alone :
      (s : Service d) (ps : List (Prepared d ar))
      → All (MeasuresAll s.index.vectors) ps
      → scan_exact_batch d ar ps s ≡ each_alone s ps
  unfolding scan_exact_batch range_vectors32
  scan_exact_batch-each_alone s ps h =
      scan-steps s.index.vectors ps h ∙ sym (each_alone-steps s ps h)
