-- ===== src/Tests/Graphs.antt =====
-- The theorems on the ANN index at concrete inputs.
use lumenvec.Base.{ℕ, ◌+◌, ◌%◌, ◌≡◌, [], ◌∷◌, arith}
use lumenvec.Base.Ints.{pos}
use lumenvec.Ann.{Random, Options}
use lumenvec.Ann.Workspace.{Workspace, reset}
use lumenvec.Ann.Workspace.Epochs.{Fresh, reset-Fresh}
use lumenvec.Ann.Interface.{State, new_state, add_to}
use lumenvec.Ann.Query.{search, search_with_distances}
use lumenvec.Ann.Valid.Ids.{only_ids, search-search_with_distances}
use lumenvec.Ann.Valid.Adding.{Added, add_vector-IsValid}
use lumenvec.Ann.Valid.Deleting.{Deleted, delete_vector-IsValid}
use lumenvec.Ann.Valid.Searching.{Searched, search_with_distances-Answers}
use lumenvec.Tests.Instances.{one, nought, numbers}
use lumenvec.Tests.Searches.{small}

-- A source that counts its calls.
abbrev counter : Random
counter = record { Source = ℕ; intn = λ n s. (s % n, s + 1) }

abbrev options : Options
options = record { m = pos 2; ef_construction = pos 4; ef_search = pos 4 }

-- Two vectors under the ids 7 and 9.
abbrev two_nodes : State numbers small counter
two_nodes =
    (add_to numbers small counter 9 (one ∷ [])
      (add_to numbers small counter 7 (nought ∷ [])
        (new_state numbers small counter options 3)).1).1

add_vector-IsValid_example :
    Added numbers small counter 8 (nought ∷ []) two_nodes.index two_nodes.ws
add_vector-IsValid_example =
    add_vector-IsValid numbers small counter 8 (nought ∷ []) two_nodes.index two_nodes.ws
      two_nodes.valid two_nodes.used

delete_vector-IsValid_example : Deleted numbers small counter 7 two_nodes.index
delete_vector-IsValid_example =
    delete_vector-IsValid numbers small counter 7 two_nodes.index two_nodes.valid

search_with_distances-Answers_example :
    Searched numbers small counter (nought ∷ []) (pos 2) two_nodes.index two_nodes.ws
search_with_distances-Answers_example =
    search_with_distances-Answers numbers small counter (nought ∷ []) (pos 2) two_nodes.index
      two_nodes.ws two_nodes.valid two_nodes.used

search-search_with_distances_example :
    search numbers small counter (nought ∷ []) (pos 2) two_nodes.index two_nodes.ws
    ≡ only_ids numbers small counter (
        search_with_distances numbers small counter
          (nought ∷ [])
          (pos 2)
          two_nodes.index
          two_nodes.ws)
search-search_with_distances_example =
    search-search_with_distances numbers small counter (nought ∷ []) (pos 2) two_nodes.index
      two_nodes.ws

-- The epoch comes round.
abbrev worn : Workspace
worn = record { marks = 5 ∷ 0xffffffff ∷ []; epoch = 0xffffffff }

reset-Fresh_example : Fresh 2 (reset 2 worn)
reset-Fresh_example = reset-Fresh 2 worn (omega arith)
