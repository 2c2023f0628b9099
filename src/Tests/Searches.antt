-- ===== src/Tests/Searches.antt =====
-- The theorems on searches at concrete inputs.
use lumenvec.Base.{
  sym, ap, Text, Option, ℕ, ◌≤◌, ◌≡◌, refl, Bool, true, false, List, [], ◌∷◌, none, some, Text-Eq,
  text_eq, bytes, leb, ok, Result, arith, if◌then◌else◌, All, lookup, insert,
}
use lumenvec.Base.Ints.{ℤ, pos}
use lumenvec.Base.Arrays.{count}
use lumenvec.Numeric.{to_float32}
use lumenvec.Index.{new_index, add_vector}
use lumenvec.Resolver.{new_resolver}
use lumenvec.MemoryStore.{new_memory_store}
use lumenvec.MemoryStore.Laws.{memory_store}
use lumenvec.Distance.{
  Arithmetic, sum_blocks, sum_tail, all_four, squared_distance32_same_len,
  squared_distance32x4_same_len,
}
use lumenvec.Distance.Blocks.{squared_distance32x4-four}
use lumenvec.TopK.{SearchResult, IsSorted, Sorting}
use lumenvec.TopK.Results.{IsNearest}
use lumenvec.Service.{Service}
use lumenvec.Service.Search.{SearchSettings, search, search_exact}
use lumenvec.Service.Searching.{candidates, search-IsNearest}
use lumenvec.Service.Panic.{search_exact_panics}
use lumenvec.Service.Batch.Approximate.{Outcome, search_batch-Outcome}
use lumenvec.Service.Batch.{BatchSearchQuery, Prepared, scan_exact_batch}
use lumenvec.Service.Batch.Equivalence.{MeasuresAll, each_alone, scan_exact_batch-each_alone}
use lumenvec.Tests.Instances.{Number, nought, one, two, numbers, sorted_set}
use lumenvec.Tests.Runs.{deps}

-- Zero and one, where `two` is the value that is not a number.
abbrev pub minus : Number → Number → Number
minus nought nought = nought
minus one one = nought
minus a b = one

abbrev pub either : Number → Number → Number
either nought b = b
either a b = one

abbrev pub place : Number → ℕ
place nought = 0
place one = 1
place two = 2

abbrev pub small : Arithmetic numbers
small = record {
  zero64 = nought;
  nan = two;
  is_nan = elim [ two ↦ true | nought ↦ false | one ↦ false ];
  add64 = either;
  mul64 = λ a b. a;
  sub32 = minus;
  sqrt = λ a. a;
  rank = place;
  is_nan-nan = refl;
}

abbrev Rows : Type 0
Rows = List (SearchResult Number)

abbrev put_in : SearchResult Number → Rows → Rows
put_in r [] = r ∷ []
put_in r (s ∷ rs) =
    let rest = put_in r rs in
    if leb (place r.distance) (place s.distance) then r ∷ s ∷ rs else s ∷ rest

abbrev in_order : Rows → Rows
in_order [] = []
in_order (r ∷ rs) = put_in r (in_order rs)

count-put_in :
    (p : SearchResult Number → Bool) (r : SearchResult Number) (rs : Rows)
    → count p (put_in r rs) ≡ count p (r ∷ rs)
count-put_in p r [] = refl
count-put_in p r (s ∷ rs) = ground (arith, count-put_in p r rs)

count-in_order : (p : SearchResult Number → Bool) (rs : Rows) → count p (in_order rs) ≡ count p rs
count-in_order p [] = refl
count-in_order p (r ∷ rs) = omega (arith, count-put_in p r (in_order rs), count-in_order p rs)

abbrev Above : ℕ → Rows → Type 0
Above m = All (λ s. m ≤ place s.distance)

Above-le : (m n : ℕ) (rs : Rows) → m ≤ n → Above n rs → Above m rs
Above-le m n [] e h = tt
Above-le m n (r ∷ rs) e (first, h) = (omega arith, Above-le m n rs e h)

put_in-Above :
    (m : ℕ) (r : SearchResult Number) (rs : Rows)
    → m ≤ place r.distance
    → Above m rs
    → Above m (put_in r rs)
put_in-Above m r [] e h = (e, tt)
put_in-Above m r (s ∷ rs) e h = ground (arith, put_in-Above m r rs e)

put_in-IsSorted :
    (r : SearchResult Number) (rs : Rows) → IsSorted place rs → IsSorted place (put_in r rs)
put_in-IsSorted r [] h = (tt, tt)
put_in-IsSorted r (s ∷ rs) h = ground (
  arith,
  put_in-IsSorted r rs h.1,
  put_in-Above (place s.distance) r rs,
  Above-le (place r.distance) (place s.distance) rs,
)

in_order-IsSorted : (rs : Rows) → IsSorted place (in_order rs)
in_order-IsSorted [] = tt
in_order-IsSorted (r ∷ rs) = put_in-IsSorted r (in_order rs) (in_order-IsSorted rs)

abbrev by_place : Sorting place
by_place = record {
  sort = in_order;
  count-sort = count-in_order;
  sort-IsSorted = in_order-IsSorted;
}

abbrev settings : SearchSettings
settings = record { max_k = 100; search_mode = bytes "exact" }

-- A service with one vector in its index.
abbrev searched : Service deps
unfolding memory_store
searched = record {
  index =
      (add_vector numbers (record { id = bytes "a"; values = one ∷ two ∷ [] })
        (new_index numbers)).1;
  store = new_memory_store numbers sorted_set;
  ann = record { dim = 2; nodes = 1; deleted = 0 };
  resolver = new_resolver;
  backend = record { snapshot = none; wal = none; sync_every = 1; pending_ops = 0 };
  persist_ops = 0;
  max_vector_dim = 4096;
  snapshot_every = 25;
}

abbrev no_ann : List Number → ℤ → deps.ann_index.State → Result (List (ℕ × Number))
no_ann values k s = ok []

search-IsNearest_example :
    (shown : List (SearchResult Number)) × (search deps small by_place no_ann settings
        (one ∷ one ∷ [])
        (pos 1)
        searched
      ≡ some (ok shown))
    × IsNearest place
        (λ a. a)
        1
        (candidates numbers small (to_float32 numbers (one ∷ one ∷ [])) searched.index.vectors)
        shown
unfolding searched text_eq add_vector lookup insert to_float32
search-IsNearest_example =
    search-IsNearest deps small by_place no_ann settings (one ∷ one ∷ []) 1 searched refl
      (omega arith) (omega arith) (omega arith) (omega arith) (refl, tt)

abbrev ann_mode : SearchSettings
ann_mode = record settings { search_mode = bytes "ann" }

abbrev one_hit : List Number → ℤ → deps.ann_index.State → Result (List (ℕ × Number))
one_hit values k s = ok ((1, one) ∷ [])

abbrev two_queries : List (BatchSearchQuery Number)
two_queries =
    record { id = bytes "q"; values = one ∷ one ∷ []; k = pos 1 }
    ∷ record { id = []; values = nought ∷ one ∷ []; k = pos 1 }
    ∷ []

search_batch-Outcome_example :
    Outcome deps small by_place one_hit (λ i. bytes "query") ann_mode searched two_queries
search_batch-Outcome_example =
    search_batch-Outcome deps small by_place one_hit (λ i. bytes "query") ann_mode searched
      two_queries refl

search_exact_panics_example :
    search_exact deps small by_place (one ∷ one ∷ one ∷ []) (pos 1) searched ≡ none
unfolding searched add_vector lookup insert to_float32
search_exact_panics_example =
    search_exact_panics deps small by_place (one ∷ one ∷ one ∷ []) (pos 1) searched (bytes "a")
      (record { id = bytes "a"; values = one ∷ two ∷ [] }) [] [] refl (omega arith)

abbrev row : Number → List Number
row a = a ∷ one ∷ nought ∷ one ∷ one ∷ []

squared_distance32x4-four_example :
    squared_distance32x4_same_len numbers small (row one) (row two) (row nought) (row one) (row one)
    ≡ all_four
        (squared_distance32_same_len numbers small (row one) (row one))
        (squared_distance32_same_len numbers small (row two) (row one))
        (squared_distance32_same_len numbers small (row nought) (row one))
        (squared_distance32_same_len numbers small (row one) (row one))
squared_distance32x4-four_example =
    squared_distance32x4-four numbers small (row one) (row two) (row nought) (row one) (row one)
      refl refl refl refl

-- Five queries: a group of four and one more.
abbrev prepared : Text → Prepared deps small
prepared id = record {
  id = id;
  vals = one ∷ one ∷ [];
  vals32 = one ∷ one ∷ [];
  acc = record { limit = 2; items = [] };
}

abbrev five : List (Prepared deps small)
five =
    prepared (bytes "p")
    ∷ prepared (bytes "q")
    ∷ prepared (bytes "r")
    ∷ prepared (bytes "s")
    ∷ prepared (bytes "t")
    ∷ []

abbrev nan_in : Option Number → Bool
nan_in none = true
nan_in (some a) = small.is_nan a

prepared-MeasuresAll :
    (id : Text) → MeasuresAll deps small by_place searched.index.vectors (prepared id)
unfolding searched add_vector lookup insert to_float32 squared_distance32_same_len sum_blocks
    sum_tail
prepared-MeasuresAll id = (record { same_length = refl; number = λ dist h. sym (ap nan_in h) }, tt)

scan_exact_batch-each_alone_example :
    scan_exact_batch deps small five searched ≡ each_alone deps small by_place searched five
scan_exact_batch-each_alone_example =
    scan_exact_batch-each_alone deps small by_place searched five (
      prepared-MeasuresAll (bytes "p"),
      (
        prepared-MeasuresAll (bytes "q"),
        (
          prepared-MeasuresAll (bytes "r"),
          (prepared-MeasuresAll (bytes "s"), (prepared-MeasuresAll (bytes "t"), tt)),
        ),
      ),
    )
