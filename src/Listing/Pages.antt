-- ===== src/Listing/Pages.antt =====
-- Following the cursors of ListVectorsPage.
use lumenvec.Base.{ℕ, zero, suc, true, List, [], ◌++◌, Text, Text-Eq, ◌==◌, if◌then◌else◌}
use lumenvec.Base.Ints.{pos}
use lumenvec.Numeric.{Floats, Vector}
use lumenvec.OrderedIds.{BTree, ensure}
use lumenvec.OrderedIds.Pages.{rest_after}
use lumenvec.MemoryStore.{MemoryStore}
use lumenvec.Listing.{ListVectorsOptions, list_vectors_page}

module _ (fl : Floats) (bt : BTree) where
  open fl use {F64}

  abbrev ids_after : Text → MemoryStore fl bt → List Text
  ids_after after s = rest_after after (bt.items (ensure bt s.ids))

  abbrev request : Text → ℕ → ListVectorsOptions
  request after n = record { after_id = after; limit = pos (suc n); ids_only = true }

  -- A client that asks for page after page, of ids only, until there is no next cursor.
  abbrev pub walk : ℕ → ℕ → Text → MemoryStore fl bt → List (Vector F64)
  walk zero n after s = []
  walk (suc fuel) n after s =
      let page = list_vectors_page fl bt (request after n) s in
      let rest = walk fuel n page.next_cursor s in
      page.vectors ++ (if page.next_cursor == [] then [] else rest)
