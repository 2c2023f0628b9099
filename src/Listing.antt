-- ===== src/Listing.antt =====
-- internal/core/list_vectors.go over the memory store, which pages by its ordered ids.
pub mod Cursors
pub mod Pages
use lumenvec.Base.{
  ℕ, zero, suc, ◌+◌, Bool, true, false, List, [], ◌∷◌, Text, length, take, if◌then◌else◌, Result,
  ok, err,
}
use lumenvec.Base.Ints.{ℤ, pos, negsuc, is_nonpos, is_below, to_ℕ}
use lumenvec.Numeric.{Floats, Vector}
use lumenvec.OrderedIds.{BTree}
use lumenvec.MemoryStore.{MemoryStore, get_vector, page_vector_ids}

pub record ListVectorsOptions : Type 0 where
  pub after_id : Text
  pub limit : ℤ
  pub ids_only : Bool

pub record ListVectorsPage (F : Type 0) : Type 0 where
  pub vectors : List (Vector F)
  pub next_cursor : Text

-- limit + 1
abbrev pub next : ℤ → ℤ
next (pos n) = pos (suc n)
next (negsuc zero) = pos 0
next (negsuc (suc n)) = negsuc n

-- pageIDs[len(pageIDs)-1], or the empty text where there is none
abbrev pub last_id : List Text → Text
last_id [] = []
last_id (x ∷ []) = x
last_id (x ∷ y ∷ xs) = last_id (y ∷ xs)

module _ (fl : Floats) (bt : BTree) where
  open fl use {F64}

  unfoldable pub select_vector_page_ids : Text → ℤ → MemoryStore fl bt → List Text
  select_vector_page_ids after limit s =
      if is_nonpos limit then [] else page_vector_ids fl bt after limit s

  -- The loops of ListVectorsPage over the ids of the page.
  unfoldable pub bare_vectors : List Text → List (Vector F64)
  bare_vectors [] = []
  bare_vectors (id ∷ ids) = record { id = id; values = [] } ∷ bare_vectors ids

  unfoldable pub fetch_vectors : List Text → MemoryStore fl bt → List (Vector F64)
  fetch_vectors [] s = []
  fetch_vectors (id ∷ ids) s =
      let rest = fetch_vectors ids s in
      elim (get_vector fl bt id s) [ err e ↦ rest | ok vec ↦ vec ∷ rest ]

  unfoldable pub list_vectors_page : ListVectorsOptions → MemoryStore fl bt → ListVectorsPage F64
  list_vectors_page opts s =
      if is_nonpos opts.limit
      then record { vectors = []; next_cursor = [] }
      else let ids = select_vector_page_ids opts.after_id (next opts.limit) s in
        let has_more = is_below opts.limit (length ids) in
        let page = if has_more then take (to_ℕ opts.limit) ids else ids in
        record {
          vectors = if opts.ids_only then bare_vectors page else fetch_vectors page s;
          next_cursor = if has_more then last_id page else [];
        }
